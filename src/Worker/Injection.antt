-- ===== src/Worker/Injection.antt =====
-- worker.rs: the SQL statements of the sleep and the failure that tests inject after a table.
use pgl_validate.Base.{[], ◌∷◌, ◌++◌}
use pgl_validate.Base.Int.{ℤ}
use pgl_validate.Base.Text.{Bytes, codes, concat}
use pgl_validate.Transport.Dsn.{format_i32}

unfoldable pub sleep_after_sql : ℤ → Bytes
sleep_after_sql task_id = concat (
    codes "\n"
    ∷ codes "            SELECT NULLIF(\n"
    ∷ codes "                       "
    ∷ codes "wt.request->'options'->>'_pgl_validate_worker_sleep_once_after_tables',\n"
    ∷ codes "                       ''\n"
    ∷ codes "                   )::int\n"
    ∷ codes "            FROM pgl_validate.worker_task wt\n"
    ∷ codes "            WHERE wt.task_id = "
    ∷ format_i32 task_id
    ∷ codes "\n"
    ∷ codes "            "
    ∷ [])

unfoldable pub sleep_ms_sql : ℤ → Bytes
sleep_ms_sql task_id = concat (
    codes "\n"
    ∷ codes "            SELECT NULLIF(\n"
    ∷ codes "                       "
    ∷ codes "wt.request->'options'->>'_pgl_validate_worker_sleep_once_ms',\n"
    ∷ codes "                       ''\n"
    ∷ codes "                   )::int\n"
    ∷ codes "            FROM pgl_validate.worker_task wt\n"
    ∷ codes "            WHERE wt.task_id = "
    ∷ format_i32 task_id
    ∷ codes "\n"
    ∷ codes "            "
    ∷ [])

unfoldable pub clear_sleep_sql : ℤ → Bytes
clear_sleep_sql task_id = concat (
    codes "\n"
    ∷ codes "            UPDATE pgl_validate.worker_task wt\n"
    ∷ codes "            SET request = jsonb_set(\n"
    ∷ codes "                wt.request,\n"
    ∷ codes "                '{options}',\n"
    ∷ codes "                COALESCE(wt.request->'options', '{}'::jsonb)\n"
    ∷ codes "                    - '_pgl_validate_worker_sleep_once_after_tables'\n"
    ∷ codes "                    - '_pgl_validate_worker_sleep_once_ms',\n"
    ∷ codes "                true\n"
    ∷ codes "            )\n"
    ∷ codes "            WHERE wt.task_id = "
    ∷ format_i32 task_id
    ∷ codes "\n"
    ∷ codes "            "
    ∷ [])

unfoldable pub sleep_sql : ℤ → Bytes
sleep_sql sleep_ms =
    codes "SELECT pg_sleep((" ++ (format_i32 sleep_ms ++ codes ")::double precision / 1000.0)")

unfoldable pub fail_after_sql : ℤ → Bytes
fail_after_sql task_id = concat (
    codes "\n"
    ∷ codes "            SELECT NULLIF(\n"
    ∷ codes "                       "
    ∷ codes "wt.request->'options'->>'_pgl_validate_worker_fail_once_after_tables',\n"
    ∷ codes "                       ''\n"
    ∷ codes "                   )::int\n"
    ∷ codes "            FROM pgl_validate.worker_task wt\n"
    ∷ codes "            WHERE wt.task_id = "
    ∷ format_i32 task_id
    ∷ codes "\n"
    ∷ codes "            "
    ∷ [])

unfoldable pub clear_fail_sql : ℤ → Bytes
clear_fail_sql task_id = concat (
    codes "\n"
    ∷ codes "            UPDATE pgl_validate.worker_task wt\n"
    ∷ codes "            SET request = jsonb_set(\n"
    ∷ codes "                wt.request,\n"
    ∷ codes "                '{options}',\n"
    ∷ codes "                COALESCE(wt.request->'options', '{}'::jsonb)\n"
    ∷ codes "                    - '_pgl_validate_worker_fail_once_after_tables',\n"
    ∷ codes "                true\n"
    ∷ codes "            )\n"
    ∷ codes "            WHERE wt.task_id = "
    ∷ format_i32 task_id
    ∷ codes "\n"
    ∷ codes "            "
    ∷ [])
