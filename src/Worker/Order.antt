-- ===== src/Worker/Order.antt =====
-- worker.rs: the order in which a task's tables are committed and its end is recorded.
use mathlib.Core.Path.{subst}
use pgl_validate.Base.{
  ℕ, suc, ◌≡◌, refl, sym, ap, Bool, true, false, List, [], ◌∷◌, some, if◌then◌else◌,
}
use pgl_validate.Base.Int.{ℤ, pos}
use pgl_validate.Base.Text.{Bytes, codes}
use pgl_validate.Worker.{
  Reply, raised, failed, answered, transaction, History, Server, W, next, ◌>>=◌, ◌>>◌, with_context,
  transact, unwrap_or,
}
use pgl_validate.Worker.Statements.{table_list_sql, run_table_sql, finish_task_sql}
use pgl_validate.Worker.Injection.{
  sleep_after_sql, sleep_ms_sql, clear_sleep_sql, sleep_sql, fail_after_sql, clear_fail_sql,
}
use pgl_validate.Worker.Task.{
  explicit_table_list_json, run_one_table, is_due, sleep_in_range, sleep_for, sleep_once,
  maybe_sleep_once_after_table, fail_once, maybe_fail_once_after_table, finish_explicit_table_task,
  run_tables, run_table_list, run_request, run_worker_task,
}

-- The two halves of a computation that succeeds.
pub next-eq-answered :
    {A B : Type 0} (r : Reply A) (f : A → W B) (t : History) {b : B} {t' : History}
    → next r f t ≡ (answered b, t')
    → (a : A) × (r ≡ answered a) × (f a t ≡ (answered b, t'))
next-eq-answered (answered a) f t h = (a, refl, h)
next-eq-answered (failed e) f t h = absurd cc
next-eq-answered raised f t h = absurd cc

pub with_context-eq-answered :
    {A : Type 0} (context : Bytes) (r : Reply A) {a : A}
    → with_context context r ≡ answered a
    → r ≡ answered a
unfolding with_context
with_context-eq-answered context (answered b) h = h
with_context-eq-answered context (failed e) h = absurd cc
with_context-eq-answered context raised h = absurd cc

module _ (server : Server) (task_id : ℤ) where
  -- A statement that injects a sleep or a failure after a table: none of them compares a table.
  pub data Injects : Bytes → Type 0 where
    asks_sleep : Injects (sleep_after_sql task_id)
    asks_duration : Injects (sleep_ms_sql task_id)
    clears_sleep : Injects (clear_sleep_sql task_id)
    sleeps : (sleep_ms : ℤ) → Injects (sleep_sql sleep_ms)
    asks_failure : Injects (fail_after_sql task_id)
    clears_failure : Injects (clear_fail_sql task_id)

  -- From `t` on nothing but such statements was run.
  pub data Later (t : History) : History → Type 0 where
    same : Later t t
    then_injects :
        {sql : Bytes} {t1 : History} → Injects sql → Later t t1 → Later t (transaction sql ∷ t1)

  Later-trans : {t t1 t2 : History} → Later t t1 → Later t1 t2 → Later t t2
  Later-trans h same = h
  Later-trans h (then_injects i k) = then_injects i (Later-trans h k)

  -- Since `t` the transactions of the tables were committed one by one and each once, and between two
  -- of them there was nothing but what injects a sleep or a failure.
  pub data Commits : List Bytes → History → History → Type 0 where
    no_table : {t : History} → Commits [] t t
    table :
        {name : Bytes} {names : List Bytes} {t t1 t2 : History}
        → server.run t (run_table_sql task_id name) ≡ answered tt
        → Later (transaction (run_table_sql task_id name) ∷ t) t1
        → Commits names t1 t2
        → Commits (name ∷ names) t t2

  abbrev Extends : {A : Type 0} → W A → Type 0
  Extends m = (t : History) → Later t (m t).1

  transact-Extends :
      {A : Type 0} (answer : History → Bytes → Reply A) (context sql : Bytes)
      → Injects sql
      → Extends (transact answer context sql)
  unfolding transact
  transact-Extends answer context sql i t = then_injects i same

  next-Later :
      {A B : Type 0} (r : Reply A) (f : A → W B) (t t1 : History)
      → Later t t1
      → ((a : A) → Extends (f a))
      → Later t (next r f t1).1
  next-Later (answered a) f t t1 h hf = Later-trans h (hf a t1)
  next-Later (failed e) f t t1 h hf = h
  next-Later raised f t t1 h hf = h

  >>=-Extends :
      {A B : Type 0} (m : W A) (f : A → W B)
      → Extends m
      → ((a : A) → Extends (f a))
      → Extends (m >>= f)
  >>=-Extends m f hm hf t = next-Later (m t).0 f t (m t).1 (hm t) hf

  if-Extends :
      {A : Type 0} (b : Bool) (m k : W A) → Extends m → Extends k → Extends (if b then m else k)
  if-Extends true m k hm hk = hm
  if-Extends false m k hm hk = hk

  sleep_for-Extends : (sleep_ms : ℤ) → Extends (sleep_for server task_id sleep_ms)
  unfolding sleep_for
  sleep_for-Extends sleep_ms =
      let clear : W (Unit {0}) =
        transact server.run (codes "could not clear worker sleep-injection option: ")
          (clear_sleep_sql task_id) in
      let sleep : W (Unit {0}) =
        transact server.run (codes "worker sleep-injection interrupted: ") (sleep_sql sleep_ms) in
      if-Extends (sleep_in_range sleep_ms) (clear >> sleep) _
        (>>=-Extends clear (λ u. sleep) (transact-Extends _ _ _ clears_sleep)
          (λ u. transact-Extends _ _ _ (sleeps sleep_ms)))
        (λ t. same)

  maybe_sleep-Extends :
      (completed : ℕ) → Extends (maybe_sleep_once_after_table server task_id completed)
  unfolding maybe_sleep_once_after_table sleep_once
  maybe_sleep-Extends completed =
      >>=-Extends (transact server.get_int _ _) _ (transact-Extends _ _ _ asks_sleep) (λ after.
        if-Extends (is_due after completed) _ _
          (>>=-Extends (transact server.get_int _ _) _ (transact-Extends _ _ _ asks_duration)
            (λ found. sleep_for-Extends (unwrap_or found (pos 0))))
          (λ t. same))

  maybe_fail-Extends :
      (completed : ℕ) → Extends (maybe_fail_once_after_table server task_id completed)
  unfolding maybe_fail_once_after_table fail_once
  maybe_fail-Extends completed =
      >>=-Extends (transact server.get_int _ _) _ (transact-Extends _ _ _ asks_failure) (λ after.
        if-Extends (is_due after completed) _ _
          (>>=-Extends (transact server.run _ _) _ (transact-Extends _ _ _ clears_failure)
            (λ u t. same))
          (λ t. same))

  run_tables-Commits :
      (index : ℕ) (names : List Bytes) (t : History) {t' : History}
      → run_tables server task_id index names t ≡ (answered tt, t')
      → Commits names t t'
  unfolding run_tables run_one_table transact
  run_tables-Commits index [] t h = subst (λ x. Commits [] t x) (ap (λ x. x.1) h) no_table
  run_tables-Commits index (name ∷ names) t h =
      let sql = run_table_sql task_id name in
      let t1 : History = transaction sql ∷ t in
      let (u, ran, h1) = next-eq-answered (with_context _ (server.run t sql)) _ t1 h in
      let sleep = maybe_sleep_once_after_table server task_id (suc index) in
      let (v, slept, h2) = next-eq-answered (sleep t1).0 _ (sleep t1).1 h1 in
      let t2 : History = (sleep t1).1 in
      let fail = maybe_fail_once_after_table server task_id (suc index) in
      let (w, not_failed, h3) = next-eq-answered (fail t2).0 _ (fail t2).1 h2 in
      table (with_context-eq-answered _ (server.run t sql) ran)
        (Later-trans (maybe_sleep-Extends (suc index) t1) (maybe_fail-Extends (suc index) t2))
        (run_tables-Commits (suc index) names (fail t2).1 h3)

  -- When a task with a list of tables succeeds, the comparison of each table was committed in its own
  -- transaction, in the order of the list and each once, with nothing between two of them but the
  -- statements that inject a sleep or a failure, and the transaction that marks the task completed
  -- came after all of them and was the last.
  pub run_worker_task-Commits :
      (t : History) (tables_json name : Bytes) (names : List Bytes) {t' : History}
      → server.get_text t (table_list_sql task_id) ≡ answered (some tables_json)
      → server.decode_list tables_json ≡ answered (name ∷ names)
      → run_worker_task server task_id t ≡ (answered tt, t')
      → (t1 : History) × Commits (name ∷ names) (transaction (table_list_sql task_id) ∷ t) t1
        × (server.run t1 (finish_task_sql task_id) ≡ answered tt)
        × (t' ≡ transaction (finish_task_sql task_id) ∷ t1)
  unfolding run_worker_task explicit_table_list_json run_request run_table_list
      finish_explicit_table_task transact with_context
  run_worker_task-Commits t tables_json name names {t' = t'} asked decoded h =
      let t1 : History = transaction (table_list_sql task_id) ∷ t in
      let listed : run_table_list server task_id (name ∷ names) t1 ≡ (answered tt, t') =
        rw (asked, decoded) at h in
      let run = run_tables server task_id 0 (name ∷ names) in
      let (u, ran, h1) = next-eq-answered (run t1).0 _ (run t1).1 listed in
      (
        (run t1).1,
        run_tables-Commits 0 (name ∷ names) t1 (ap (λ r. (r, (run t1).1)) ran),
        with_context-eq-answered (codes "could not finish explicit-table worker task: ")
            (server.run (run t1).1 (finish_task_sql task_id)) (ap (λ x. x.0) h1),
        sym (ap (λ x. x.1) h1),
      )
