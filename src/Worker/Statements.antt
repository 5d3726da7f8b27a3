-- ===== src/Worker/Statements.antt =====
-- worker.rs: the SQL statements of the workers, as they are written there.
use pgl_validate.Base.{[], ◌∷◌, ◌++◌}
use pgl_validate.Base.Int.{ℤ}
use pgl_validate.Base.Text.{Bytes, codes, concat}
use pgl_validate.Transport.Dsn.{format_i32}
use pgl_validate.Transport.Literal.{sql_literal}

-- The statements of `dispatch_due_schedules`.
unfoldable pub available_sql : Bytes
available_sql =
    codes "SELECT to_regprocedure('pgl_validate.dispatch_due_schedules(timestamptz)') "
    ++ codes "IS NOT NULL"

unfoldable pub dispatch_sql : Bytes
dispatch_sql = codes "SELECT pgl_validate.dispatch_due_schedules(clock_timestamp())"

unfoldable pub run_task_sql : ℤ → Bytes
run_task_sql task_id =
    codes "SELECT pgl_validate._run_worker_task(" ++ (format_i32 task_id ++ codes ")")

unfoldable pub table_list_sql : ℤ → Bytes
table_list_sql task_id = concat (
    codes "\n"
    ∷ codes "            SELECT CASE\n"
    ∷ codes "                WHEN NULLIF(wt.request->>'repset', '') IS NULL\n"
    ∷ codes "                 AND jsonb_typeof(wt.request->'tables') = 'array'\n"
    ∷ codes "                 AND jsonb_array_length(wt.request->'tables') > 0\n"
    ∷ codes "                THEN (\n"
    ∷ codes "                    SELECT jsonb_agg(t.table_name ORDER BY t.ordinality)::text\n"
    ∷ codes "                    FROM jsonb_array_elements_text(wt.request->'tables')\n"
    ∷ codes "                         WITH ORDINALITY AS t(table_name, ordinality)\n"
    ∷ codes "                )\n"
    ∷ codes "                ELSE NULL::text\n"
    ∷ codes "            END\n"
    ∷ codes "            FROM pgl_validate.worker_task wt\n"
    ∷ codes "            WHERE wt.task_id = "
    ∷ format_i32 task_id
    ∷ codes "\n"
    ∷ codes "            "
    ∷ [])

unfoldable pub run_table_sql : ℤ → Bytes → Bytes
run_table_sql task_id table_name = concat (
    codes "\n"
    ∷ codes "            WITH task AS (\n"
    ∷ codes "                SELECT wt.run_id, wt.request\n"
    ∷ codes "                FROM pgl_validate.worker_task wt\n"
    ∷ codes "                WHERE wt.task_id = "
    ∷ format_i32 task_id
    ∷ codes "\n"
    ∷ codes "            )\n"
    ∷ codes "            SELECT pgl_validate.compare(\n"
    ∷ codes "                ARRAY["
    ∷ sql_literal table_name
    ∷ codes "::regclass],\n"
    ∷ codes "                NULL::text,\n"
    ∷ codes "                (\n"
    ∷ codes "                    SELECT array_agg(peer.name ORDER BY peer.ordinality)\n"
    ∷ codes "                    FROM task,\n"
    ∷ codes "                         jsonb_array_elements_text(\n"
    ∷ codes "                             CASE\n"
    ∷ codes "                                 WHEN jsonb_typeof(task.request->'peers') = "
    ∷ codes "'array'\n"
    ∷ codes "                                 THEN task.request->'peers'\n"
    ∷ codes "                                 ELSE '[]'::jsonb\n"
    ∷ codes "                             END\n"
    ∷ codes "                         ) WITH ORDINALITY AS peer(name, ordinality)\n"
    ∷ codes "                ),\n"
    ∷ codes "                NULLIF(task.request->>'reference', ''),\n"
    ∷ codes "                (\n"
    ∷ codes "                    COALESCE(task.request->'options', '{}'::jsonb)\n"
    ∷ codes "                    - '_pgl_validate_worker_fail_once_after_tables'\n"
    ∷ codes "                    - '_pgl_validate_worker_sleep_once_after_tables'\n"
    ∷ codes "                    - '_pgl_validate_worker_sleep_once_ms'\n"
    ∷ codes "                ) || jsonb_build_object(\n"
    ∷ codes "                    'async', true,\n"
    ∷ codes "                    '_pgl_validate_parent_run_id', task.run_id,\n"
    ∷ codes "                    '_pgl_validate_keep_parent_open', true\n"
    ∷ codes "                )\n"
    ∷ codes "            )\n"
    ∷ codes "            FROM task\n"
    ∷ codes "            "
    ∷ [])

unfoldable pub finish_task_sql : ℤ → Bytes
finish_task_sql task_id = concat (
    codes "\n"
    ∷ codes "            WITH task AS (\n"
    ∷ codes "                SELECT wt.run_id, wt.request\n"
    ∷ codes "                FROM pgl_validate.worker_task wt\n"
    ∷ codes "                WHERE wt.task_id = "
    ∷ format_i32 task_id
    ∷ codes "\n"
    ∷ codes "            ),\n"
    ∷ codes "            table_count AS (\n"
    ∷ codes "                SELECT count(*)::int AS n_tables\n"
    ∷ codes "                FROM task,\n"
    ∷ codes "                     jsonb_array_elements_text(task.request->'tables') AS "
    ∷ codes "t(table_name)\n"
    ∷ codes "            ),\n"
    ∷ codes "            finished_run AS (\n"
    ∷ codes "                UPDATE pgl_validate.run r\n"
    ∷ codes "                SET status = 'completed',\n"
    ∷ codes "                    finished_at = clock_timestamp(),\n"
    ∷ codes "                    tables_total = table_count.n_tables,\n"
    ∷ codes "                    tables_matched = (\n"
    ∷ codes "                        SELECT count(*)::int\n"
    ∷ codes "                        FROM pgl_validate.table_result tr\n"
    ∷ codes "                        WHERE tr.run_id = r.run_id\n"
    ∷ codes "                          AND tr.verdict = 'match'\n"
    ∷ codes "                    ),\n"
    ∷ codes "                    tables_differ = (\n"
    ∷ codes "                        SELECT count(*)::int\n"
    ∷ codes "                        FROM pgl_validate.table_result tr\n"
    ∷ codes "                        WHERE tr.run_id = r.run_id\n"
    ∷ codes "                          AND tr.verdict = 'differ'\n"
    ∷ codes "                    ),\n"
    ∷ codes "                    error = NULL\n"
    ∷ codes "                FROM task, table_count\n"
    ∷ codes "                WHERE r.run_id = task.run_id\n"
    ∷ codes "                  AND r.status <> 'canceled'\n"
    ∷ codes "                RETURNING r.run_id\n"
    ∷ codes "            ),\n"
    ∷ codes "            participants AS (\n"
    ∷ codes "                UPDATE pgl_validate.run_participant rp\n"
    ∷ codes "                SET status = 'done'\n"
    ∷ codes "                FROM finished_run fr\n"
    ∷ codes "                WHERE rp.run_id = fr.run_id\n"
    ∷ codes "                  AND rp.status NOT IN ('unreachable','error')\n"
    ∷ codes "                RETURNING 1\n"
    ∷ codes "            )\n"
    ∷ codes "            UPDATE pgl_validate.worker_task wt\n"
    ∷ codes "            SET status = 'completed',\n"
    ∷ codes "                finished_at = clock_timestamp(),\n"
    ∷ codes "                error = NULL\n"
    ∷ codes "            FROM finished_run fr\n"
    ∷ codes "            WHERE wt.task_id = "
    ∷ format_i32 task_id
    ∷ codes "\n"
    ∷ codes "              AND wt.run_id = fr.run_id\n"
    ∷ codes "            "
    ∷ [])

unfoldable pub claim_task_sql : ℤ → Bytes
claim_task_sql task_id =
    codes "SELECT pgl_validate._claim_worker_task(" ++ (format_i32 task_id ++ codes ")")

unfoldable pub fail_task_sql : ℤ → Bytes → Bytes
fail_task_sql task_id message = concat (
    codes "\n"
    ∷ codes "            WITH task AS (\n"
    ∷ codes "                UPDATE pgl_validate.worker_task\n"
    ∷ codes "                SET status = 'failed',\n"
    ∷ codes "                    finished_at = clock_timestamp(),\n"
    ∷ codes "                    error = "
    ∷ sql_literal message
    ∷ codes "\n"
    ∷ codes "                WHERE task_id = "
    ∷ format_i32 task_id
    ∷ codes "\n"
    ∷ codes "                RETURNING run_id\n"
    ∷ codes "            )\n"
    ∷ codes "            UPDATE pgl_validate.run r\n"
    ∷ codes "            SET status = 'failed',\n"
    ∷ codes "                finished_at = clock_timestamp(),\n"
    ∷ codes "                error = "
    ∷ sql_literal message
    ∷ codes "\n"
    ∷ codes "            FROM task\n"
    ∷ codes "            WHERE r.run_id = task.run_id\n"
    ∷ codes "              AND r.status <> 'canceled'\n"
    ∷ codes "            "
    ∷ [])
