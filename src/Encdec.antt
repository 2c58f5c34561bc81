-- ===== src/Encdec.antt =====
-- src/storage/encdec: what encode.rs and decode.rs do, instance by instance. The children
-- hold the laws.
pub mod VarUInt
pub mod RoundTrip
pub mod Order
pub mod Instances
pub mod Laws
pub mod Range
