-- ===== src/SqlApi.antt =====
-- sql_api.rs: the SQL type `lthash_state`, its aggregate, and the SQL functions over the transport.
pub mod State
pub mod Aggregate
pub mod Barriers
pub mod Remote
pub mod Catalog
pub mod Batch
pub mod Permuted
pub mod Checksum
pub mod Verdict
pub mod Sorting
pub mod VerdictTests
pub mod Tests
