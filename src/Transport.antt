-- ===== src/Transport.antt =====
-- The libpq transport of src/transport.
pub mod Lsn
pub mod Literal
pub mod Codec
pub mod Dsn
pub mod QueryResult
pub mod Session
pub mod Target
pub mod Replies
pub mod Requests
pub mod FanOut
pub mod Tests
