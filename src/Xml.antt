-- ===== src/Xml.antt =====
-- The XML parser, src/xml/xml_parser_module.c.
pub mod Text
pub mod Escaping
pub mod Attributes
pub mod Loop
pub mod Lookup
pub mod Pieces
pub mod Elements
pub mod Markup
pub mod Tags
pub mod Reading
pub mod Documents
mod Tests
mod DocumentTests
