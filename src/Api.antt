-- ===== src/Api.antt =====
-- api/: the resource types, their validation and their conversion.
pub mod Model
pub mod V3
pub mod V2beta1
