-- ===== src/SqlApi/Batch.antt =====
-- sql_api.rs: `remote_checksum_batch`, from the tasks in JSON to the rows of its result.
use mathlib.Core.Path.{subst}
use pgl_validate.Base.{
  ℕ, ◌≡◌, refl, sym, ap, ◌∙◌, List, [], ◌∷◌, map, Option, none, some, Result, ok, err, panic,
}
use pgl_validate.Base.Int.{ℤ, ◌≤ℤ◌}
use pgl_validate.Transport.QueryResult.{PgResult}
use pgl_validate.Transport.Session.{Trace, Libpq}
use pgl_validate.Transport.Replies.Digest.{parse_checksum_result}
use pgl_validate.Transport.FanOut.Sources.{Sent}
use pgl_validate.Transport.FanOut.{RemoteChecksumTask, RemoteChecksumBatchResult}
use pgl_validate.Transport.FanOut.Wait.{WaitEvents}
use pgl_validate.Transport.FanOut.Batch.{Batch, Outcome, fetch_checksums_batch}
use pgl_validate.Transport.FanOut.Schedule.{
  count, task_ids, result_ids, Before, InOrder, Complete, fetch_checksums_batch-Complete,
}
use pgl_validate.Transport.FanOut.Release.{
  Every, AllReleased, Releases, fetch_checksums_batch-Releases,
}
use pgl_validate.Transport.FanOut.Explained.{
  Among, Explained, AllExplained, fetch_checksums_batch-Explained,
}
use pgl_validate.SqlApi.Remote.{
  ChecksumRow, checksum_row, batch_row, batch_rows, with_batch, run_decoded, remote_checksum_batch,
}

-- A row of the result: the task id, and the PostgreSQL version, the number of rows, the LtHash and
-- the set hash.
abbrev pub Row : Type 0
Row = ℤ × ChecksumRow

abbrev pub row_ids : List Row → List ℤ
row_ids rows = map (λ row. row.0) rows

unfoldable pub Increasing : List ℤ → Type 0
Increasing [] = Unit
Increasing (x ∷ []) = Unit
Increasing (x ∷ y ∷ ids) = (x ≤ℤ y) × Increasing (y ∷ ids)

module _ (lib : ℕ → Libpq) (tasks : List RemoteChecksumTask) where
  -- The row holds the id of a task and what the reply to that task's query said.
  unfoldable pub IsReply : Row → Type 0
  IsReply (id, (version, n_rows, lthash, set_hash)) =
      (task : RemoteChecksumTask) × Among task tasks
      × (task.task_id ≡ id)
      × (n : ℕ) × (t : Trace) × (r : PgResult) × Sent task t
      × ((lib n).on_get_result t ≡ some r)
      × (parse_checksum_result r
          ≡ ok (record {
            pg_version = version;
            n_rows = n_rows;
            lthash = lthash;
            set_hash = set_hash;
          }))

  -- What SQL sees of a batch: rows, one for each task, or an ERROR; the connections are released.
  unfoldable pub Answered : Option (Result (List Row) × Option Batch) → Type 0
  Answered none = Unit
  Answered (some (r, none)) = ⊥
  Answered (some (ok rows, some b)) =
      ((id : ℤ) → count id (row_ids rows) ≡ count id (task_ids tasks))
      × Increasing (row_ids rows)
      × Every IsReply rows
      × AllReleased b
  Answered (some (err e, some b)) = ⊥
  Answered (some (panic, some b)) = AllReleased b

  ids-Increasing :
      (rs : List RemoteChecksumBatchResult) → InOrder rs → Increasing (row_ids (map batch_row rs))
  unfolding Increasing InOrder Before batch_row
  ids-Increasing [] h = tt
  ids-Increasing (r ∷ []) h = tt
  ids-Increasing (r ∷ s ∷ rs) h = (h.0, ids-Increasing (s ∷ rs) h.1)

  ids-map : (rs : List RemoteChecksumBatchResult) → row_ids (map batch_row rs) ≡ result_ids rs
  unfolding batch_row
  ids-map [] = refl
  ids-map (r ∷ rs) = ap (λ ids. r.task_id ∷ ids) (ids-map rs)

  rows-IsReply :
      (rs : List RemoteChecksumBatchResult)
      → Every (Explained lib tasks) rs
      → Every IsReply (map batch_row rs)
  unfolding Every Explained IsReply batch_row checksum_row
  rows-IsReply [] h = tt
  rows-IsReply (r ∷ rs) h =
      let (task, among, same_id, n, source) = h.0 in
      let (t, reply, sent, got, parsed) = source in
      ((task, among, same_id, n, t, reply, sent, got, parsed), rows-IsReply rs h.1)

  batch-Answered :
      (out : Outcome (List RemoteChecksumBatchResult))
      → Complete tasks out
      → AllExplained lib tasks out
      → Releases out
      → Answered (with_batch (batch_rows out))
  unfolding Answered Complete Releases with_batch batch_rows
  batch-Answered none c x r = tt
  batch-Answered (some (ok results, b)) c x r = (
    λ id. ap (count id) (ids-map results) ∙ c.0 id,
    ids-Increasing results c.1,
    rows-IsReply results x,
    r,
  )
  batch-Answered (some (err e, b)) c x r = r
  batch-Answered (some (panic, b)) c x r = r

module _ {Json : Type 0} (decode : Json → Option (List RemoteChecksumTask)) (lib : ℕ → Libpq)
    (events : WaitEvents) (fuel rounds : ℕ) where
  -- When the JSON holds a list of tasks, the SQL function raises an ERROR or returns one row for each
  -- task, as often as its id occurs among the tasks and in order of the ids. Each row holds the values
  -- that were read from a result which a connection gave after the query of a task with the row's id
  -- was sent on it. Either way every connection that it opened is released, and every wait event set
  -- freed.
  pub remote_checksum_batch-Answered :
      (json : Json) (tasks : List RemoteChecksumTask) (max_parallel : ℤ)
      → decode json ≡ some tasks
      → Answered lib tasks (remote_checksum_batch decode lib events fuel rounds json max_parallel)
  unfolding remote_checksum_batch run_decoded
  remote_checksum_batch-Answered json tasks max_parallel decoded =
      subst (λ d. Answered lib tasks (run_decoded lib events fuel rounds max_parallel d))
        (sym decoded)
        (batch-Answered lib tasks (fetch_checksums_batch lib events fuel rounds tasks max_parallel)
          (fetch_checksums_batch-Complete lib events fuel rounds tasks max_parallel)
          (fetch_checksums_batch-Explained lib tasks events fuel rounds max_parallel)
          (fetch_checksums_batch-Releases lib events fuel rounds tasks max_parallel))
