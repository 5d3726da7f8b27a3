-- ===== src/Transport/Target.antt =====
-- The four arguments that every function of transport/libpq.rs takes, and the loop over rows.
use pgl_validate.Base.{ℕ, zero, suc, List, [], ◌∷◌, Result, ok, ◌>>=◌}
use pgl_validate.Base.Int.{ℤ}
use pgl_validate.Base.Text.{Bytes}
use pgl_validate.Transport.Session
use pgl_validate.Transport.Session.{M, Libpq}

pub record Target : Type 0 where
  pub dsn : Bytes
  pub connect_timeout_seconds : ℤ
  pub statement_timeout_ms : ℤ
  pub lock_timeout_ms : ℤ

-- `connect_with_timeout`, `set_query_timeouts`, and the rest of the function.
unfoldable pub session : Libpq → Target → {A : Type 0} → M A → M A
session lib c body =
    Session.session lib c.dsn c.connect_timeout_seconds c.statement_timeout_ms c.lock_timeout_ms
      body

-- `for row in 0..ntuples { rows.push(..) }`, from `row` on.
unfoldable pub collect_rows : {A : Type 0} → (ℕ → Result A) → ℕ → ℕ → Result (List A)
collect_rows read zero row = ok []
collect_rows read (suc left) row = do
  first ← read row
  rest ← collect_rows read left (suc row)
  ok (first ∷ rest)
