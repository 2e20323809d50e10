-- ===== src/Api/V2beta1/Conversion.antt =====
-- The properties of the conversions between v2beta1 and v3.
pub mod Laws
pub mod Errors
pub mod Datasets
pub mod Floats
