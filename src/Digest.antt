-- ===== src/Digest.antt =====
-- The digest primitives of src/digest.
pub mod Blake3
pub mod LtHash
pub mod Algorithm
pub mod Frame
pub mod Floats
pub mod Encode
pub mod RowDigest
pub mod Tests
