-- ===== src/Worker/Task.antt =====
-- worker.rs: `run_worker_task` with its steps, and `mark_task_failed`.
use pgl_validate.Base.{
  ℕ, suc, Bool, false, not, ◌&&◌, List, [], ◌∷◌, ◌++◌, Option, none, some, if◌then◌else◌,
}
use pgl_validate.Base.Int.{ℤ, pos, ltb_ℤ}
use pgl_validate.Base.Text.{Bytes, codes}
use pgl_validate.Transport.Literal.{sql_literal}
use pgl_validate.Transport.QueryResult.{same_int}
use pgl_validate.Base.Digits.{format_decimal}
use pgl_validate.Worker.{
  Reply, raised, failed, answered, transaction, Server, W, ◌>>=◌, ◌>>◌, give, with_context,
  transact, unwrap_or, usize_as_i32,
}
use pgl_validate.Worker.Statements.{
  run_task_sql, table_list_sql, run_table_sql, finish_task_sql, fail_task_sql,
}
use pgl_validate.Worker.Injection.{
  sleep_after_sql, sleep_ms_sql, clear_sleep_sql, sleep_sql, fail_after_sql, clear_fail_sql,
}

-- `Some(completed_tables as i32)` is the number asked for.
unfoldable pub is_due : Option ℤ → ℕ → Bool
is_due none completed_tables = false
is_due (some after) completed_tables = same_int after (usize_as_i32 completed_tables)

-- `(1..=60000).contains(&sleep_ms)`.
unfoldable pub sleep_in_range : ℤ → Bool
sleep_in_range ms = ltb_ℤ (pos 0) ms && not (ltb_ℤ (pos 60000) ms)

-- `let _ =`: the result is dropped, but an ERROR is raised.
unfoldable pub ignore : Reply (Unit {0}) → Reply (Unit {0})
ignore (answered u) = answered tt
ignore (failed e) = answered tt
ignore raised = raised

module _ (server : Server) where
  unfoldable pub explicit_table_list_json : ℤ → W (Option Bytes)
  explicit_table_list_json task_id =
      transact server.get_text (codes "could not read worker task request: ")
        (table_list_sql task_id)

  unfoldable pub run_one_table : ℤ → Bytes → W (Unit {0})
  run_one_table task_id table_name =
      transact server.run
        (codes "worker task table " ++ (sql_literal table_name ++ codes " failed: "))
        (run_table_sql task_id table_name)

  unfoldable pub sleep_for : ℤ → ℤ → W (Unit {0})
  sleep_for task_id sleep_ms =
      if sleep_in_range sleep_ms
      then (transact server.run (codes "could not clear worker sleep-injection option: ")
            (clear_sleep_sql task_id)
          >> transact server.run (codes "worker sleep-injection interrupted: ")
              (sleep_sql sleep_ms))
      else give (failed (codes "_pgl_validate_worker_sleep_once_ms must be between 1 and 60000"))

  unfoldable pub sleep_once : ℤ → W (Unit {0})
  sleep_once task_id = do
    found ←
        transact server.get_int (codes "could not read worker sleep-injection duration: ")
          (sleep_ms_sql task_id)
    sleep_for task_id (unwrap_or found (pos 0))

  unfoldable pub maybe_sleep_once_after_table : ℤ → ℕ → W (Unit {0})
  maybe_sleep_once_after_table task_id completed_tables = do
    sleep_after ←
        transact server.get_int (codes "could not read worker sleep-injection table count: ")
          (sleep_after_sql task_id)
    if is_due sleep_after completed_tables then sleep_once task_id else give (answered tt)

  unfoldable pub fail_once : ℤ → ℕ → W (Unit {0})
  fail_once task_id completed_tables =
      transact server.run (codes "could not clear worker failure-injection option: ")
        (clear_fail_sql task_id)
      >> give (
          failed (
            codes "worker task execution failed after committing "
            ++ (format_decimal completed_tables ++ codes " table(s)")))

  unfoldable pub maybe_fail_once_after_table : ℤ → ℕ → W (Unit {0})
  maybe_fail_once_after_table task_id completed_tables = do
    fail_after ←
        transact server.get_int (codes "could not read worker failure-injection option: ")
          (fail_after_sql task_id)
    if is_due fail_after completed_tables
        then fail_once task_id completed_tables
        else give (answered tt)

  unfoldable pub finish_explicit_table_task : ℤ → W (Unit {0})
  finish_explicit_table_task task_id =
      transact server.run (codes "could not finish explicit-table worker task: ")
        (finish_task_sql task_id)

  -- The loop over the tables, from the one at `index`.
  unfoldable pub run_tables : ℤ → ℕ → List Bytes → W (Unit {0})
  run_tables task_id index [] = give (answered tt)
  run_tables task_id index (table_name ∷ names) =
      run_one_table task_id table_name
      >> (maybe_sleep_once_after_table task_id (suc index)
          >> (maybe_fail_once_after_table task_id (suc index)
              >> run_tables task_id (suc index) names))

  unfoldable pub run_whole_task : ℤ → W (Unit {0})
  run_whole_task task_id =
      transact server.run (codes "worker task execution failed: ") (run_task_sql task_id)

  unfoldable pub run_table_list : ℤ → List Bytes → W (Unit {0})
  run_table_list task_id [] = run_whole_task task_id
  run_table_list task_id (name ∷ names) =
      run_tables task_id 0 (name ∷ names) >> finish_explicit_table_task task_id

  -- What `explicit_table_list_json` leads to.
  unfoldable pub run_request : ℤ → Option Bytes → W (Unit {0})
  run_request task_id none = run_whole_task task_id
  run_request task_id (some tables_json) = do
    table_names ← give (
        with_context (codes "could not decode worker task table list: ")
          (server.decode_list tables_json))
    run_table_list task_id table_names

  unfoldable pub run_worker_task : ℤ → W (Unit {0})
  run_worker_task task_id = do
    request ← explicit_table_list_json task_id
    run_request task_id request

  unfoldable pub mark_task_failed : ℤ → Bytes → W (Unit {0})
  mark_task_failed task_id message t = (
    ignore (server.run t (fail_task_sql task_id message)),
    transaction (fail_task_sql task_id message) ∷ t,
  )
