-- ===== src/Json.antt =====
-- JSON: src/json/json_parser_module.{h,c}.
pub mod Text
pub mod Value
pub mod Store
pub mod Input
pub mod Parser
pub mod Freeing
pub mod Shallow
pub mod Lengths
pub mod Progress
pub mod Parsing
pub mod Clones
pub mod Objects
pub mod Merging
pub mod Strings
mod Tests
mod ParserTests
