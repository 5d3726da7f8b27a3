-- ===== src/Transport/Requests.antt =====
-- transport/libpq.rs: the functions that open a connection, run their SQL and read the answer.
pub mod Fence
pub mod Catalog
pub mod Digest
pub mod Release
pub mod Protocol
pub mod Success
pub mod Rollback
pub mod Guards
pub mod Answers
pub mod Tests
use pgl_validate.Base.{Result, ok, err, panic}
use pgl_validate.Base.Text.{Bytes, codes}
use pgl_validate.Transport.QueryResult.{PgResult}
use pgl_validate.Transport.Session.{M, Libpq, lift, exec_command, with_result}
use pgl_validate.Transport.Target.{Target, session}

module _ (lib : Libpq) where
  -- Run one query and read its result.
  unfoldable pub query : {A : Type 0} → Bytes → (PgResult → Result A) → M A
  query sql read = with_result lib sql (λ r. lift (read r))

  unfoldable pub rollback_on_error : {A : Type 0} → Result A → M A
  rollback_on_error (ok a) t = (ok a, t)
  rollback_on_error (err e) t = (err e, (exec_command lib (codes "ROLLBACK") t).1)
  rollback_on_error panic t = (panic, t)

  -- `if let Err(err) = command { let _ = ROLLBACK; return Err(err); }`.
  unfoldable pub or_rollback : {A : Type 0} → M A → M A
  or_rollback command t = let (r, t') = command t in rollback_on_error r t'

  -- `execute_command_with_timeouts`.
  unfoldable pub execute_command_with_timeouts : Target → Bytes → M (Unit {0})
  execute_command_with_timeouts c sql = session lib c (exec_command lib sql)
