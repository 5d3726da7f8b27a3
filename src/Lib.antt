-- ===== src/Lib.antt =====
-- A verification library for pgl_validate, the PostgreSQL extension that compares replicated tables.
--
-- The extension hashes each row to a digest, adds the digests of a table to an LtHash state, fetches
-- the states of other servers through libpq, and compares them. The files are:
--
-- - Base = numbers, texts as lists of bytes, results of fallible code, computations that make calls,
--   hexadecimal and decimal texts, UTF-8, white space, little-endian words. `panic` in a `Result` is
--   a Rust panic or an ERROR of PostgreSQL.
-- - Digest/Algorithm = src/digest/algorithm.rs and `hash_digest_array` of src/digest/lthash.rs.
-- - Digest/LtHash = src/digest/lthash.rs. `LtHashCore` is the list of its 1024 lanes, each of 16 bits
--   with the wrap-around of `wrapping_add` written as a remainder.
-- - Digest/Floats, Digest/Encode, Digest/Frame = src/digest/encode.rs. A float is its bit pattern.
-- - Digest/RowDigest = src/digest/row_digest.rs, from the arguments of the SQL call to the digest.
-- - Transport/Lsn, Literal, Codec, Dsn = the text functions at the end of src/transport/libpq.rs.
-- - Transport/QueryResult, Session = `QueryResult` and `Connection` of src/transport/libpq.rs. A
--   computation carries the trace of the calls made so far; the release of a value, which Rust does
--   when it is dropped, is a call of the trace like the others.
-- - Transport/Replies, Requests = the functions of src/transport/libpq.rs that open a connection, run
--   their SQL and read the answer, with the SQL texts as they are written there.
-- - Transport/Session/Async, FanOut = `fetch_checksums_batch` of src/transport/libpq.rs with
--   `ActiveChecksumTask` and the calls of `Connection` that do not wait. Each connection has its own
--   trace; what the waiting of the backend gives is the parameter `WaitEvents`, for which a wait can
--   also last forever. FanOut/Wait has the
--   wait event set, with src/compat/mod.rs.
-- - Worker = src/worker.rs: the SQL (Worker/Statements, Worker/Injection), a task's run (Worker/Task),
--   the entry points and loops (Worker/Main). PostgreSQL, the clock and `serde_json` are the
--   parameter `Server`.
-- - Settings = src/lib.rs: the registered settings (Settings/Registry and the four lists that it
--   joins), their readers, and `_PG_init` (Settings/Start).
-- - SqlApi/State, SqlApi/Aggregate, SqlApi/Barriers, SqlApi/Remote, SqlApi/Catalog,
--   SqlApi/Batch = src/sql_api.rs:
--   the type `lthash_state`, its aggregate with the partial states of a parallel plan, and the SQL
--   functions over src/transport/libpq.rs. An ERROR of PostgreSQL is `panic`.
-- - SqlApi/Checksum, SqlApi/Verdict = the row of the checksum query that `plan_chunk_sql` of
--   sql/bootstrap/040_planning.sql writes, over the aggregate, and the condition of `compare_table`
--   in sql/bootstrap/050_compare.sql on a peer's checksum. `ORDER BY` is a parameter.
-- - Runs = the statuses of an asynchronous run and of its task: `cancel`, `pause`, `resume`,
--   `compare_async`, `_claim_worker_task` and `_run_worker_task` of sql/bootstrap/070_reporting.sql,
--   the parent run in `compare`, and the statements of src/worker.rs that end a task. Runs/Settle puts
--   the worker on top of them, with other sessions between its statements.
-- - Build = build.rs: the search for `pg_config` and the lines for the linker. The environment, the
--   files and the programs of the host are the parameter `Host`.
-- - Digest/Tests, Digest/Encode/Tests, Transport/Tests, Transport/Requests/Tests, SqlApi/Tests,
--   SqlApi/VerdictTests, Transport/FanOut/Tests, Worker/Tests, Settings/Tests, Runs/Tests,
--   Runs/WorkerTests, Build/Tests = the theorems at concrete values. SqlApi/Sorting is an order of
--   rows for them.
--
-- Code that the repository does not hold is a parameter: the crate blake3 (`Blake3`, with the
-- widths that it documents as `IsBlake3`), the functions and OIDs of PostgreSQL that the encoders
-- call (`Postgres`), a token of the crate uuid (`Uuid`), and libpq (`Libpq`), which may answer
-- every call in any way that depends on all the calls before. No theorem assumes that BLAKE3 has
-- no collisions: where it matters, the theorem says which two messages would be one. Every loop of
-- the code is a recursion on the data that it reads, except the printing of numbers, which has as
-- much fuel as the number has digits or more, and the loops whose end depends on other programs:
-- those of the fan-out and of the workers. They run on fuel and give `none` when it does not
-- suffice, and the fan-out also when a wait of the backend never returns; that the fuel suffices
-- is a theorem on its own. A call of libpq or PostgreSQL other than that wait is taken to return.
--
-- An error is a constructor of `Error` without the wording of its message, except in Worker, where
-- the wording is written to a table. Not modelled are the tests of the server, the texts of log
-- messages, the SQL declarations of functions, and the SQL scripts but for the parts named above:
-- the others are queries over the catalogs of PostgreSQL and pglogical and generated statements, and
-- what they do is what those systems answer.
pub mod Base
pub mod Digest
pub mod Transport
pub mod Worker
pub mod Settings
pub mod Build
pub mod Runs
pub mod SqlApi
