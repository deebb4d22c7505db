-- ===== src/Http.antt =====
-- The HTTP server: src/http/http_module.{h,c}. The callbacks of libuv on sockets are left out.
pub mod Url
pub mod Decode
pub mod Request
pub mod RequestLine
pub mod Routes
pub mod Response
pub mod Dispatch
pub mod Sizes
mod Tests
