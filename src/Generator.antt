-- ===== src/Generator.antt =====
-- internal/controller/generator/mapper.go: from an Atom resource and its OwnerInfo to the
-- configuration of the Atom generator.
pub mod Feeds
pub mod Links
pub mod Entries
pub mod Mapper
pub mod Templates
pub mod Safety
pub mod Converted
pub mod Admitted
pub mod Ids
pub mod Categories
pub mod Downloads
pub mod Quotes
