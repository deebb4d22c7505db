-- ===== src/Config.antt =====
-- The configuration store: src/config/config_module.{h,c}.
-- The linked list of items is a list. Floats are a type `F` with the C library's `atof` and the
-- output of `%.6f`, which are parameters. What `malloc` answers is an argument; `strdup` is taken to
-- succeed. The calls stand for an initialized module and arguments that are not NULL.
pub mod Store
pub mod Text
pub mod File
pub mod Lookup
pub mod Types
pub mod Lines
pub mod RoundTrip
pub mod Numbers
mod Tests
