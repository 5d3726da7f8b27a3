-- ===== src/Transport/FanOut/Explained.antt =====
-- transport/libpq.rs: each result of `fetch_checksums_batch` is the reply to the query of its task.
use mathlib.Core.Path.{subst}
use pgl_validate.Base.{
  ℕ, ◌≡◌, refl, sym, ◌⊎◌, inl, inr, List, [], ◌∷◌, ◌++◌, none, some, ok, err, panic, Bool-cases,
}
use pgl_validate.Base.Int.{ℤ, pos_part, is_positive, is_positive-pos_part, ltb_ℤ}
use pgl_validate.Transport.Session.{Trace, Libpq}
use pgl_validate.Transport.Replies.Digest.{RemoteChecksum}
use pgl_validate.Transport.FanOut.{
  RemoteChecksumTask, RemoteChecksumBatchResult, ActiveChecksumTask,
}
use pgl_validate.Transport.FanOut.Sources.{Sent, Source, Sourced}
use pgl_validate.Transport.FanOut.Tasks.{Same}
use pgl_validate.Transport.FanOut.Wait.{WaitEvents}
use pgl_validate.Transport.FanOut.Batch.{
  Batch, last_first, Outcome, initial, sorted, insert_result, sort_results, fetch_checksums_batch,
}
use pgl_validate.Transport.FanOut.Invariant.{Invariant, started, Left, run_batch-Left}
use pgl_validate.Transport.FanOut.Release.{
  Every, Every-append, Every-append_left, Every-append_right, Every-last_first,
}

-- One of the tasks.
unfoldable pub Among : RemoteChecksumTask → List RemoteChecksumTask → Type 0
Among task [] = ⊥
Among task (other ∷ tasks) = (task ≡ other) ⊎ Among task tasks

Every-Among :
    (all tasks : List RemoteChecksumTask)
    → ((task : RemoteChecksumTask) → Among task tasks → Among task all)
    → Every (λ task. Among task all) tasks
unfolding Every Among
Every-Among all [] h = tt
Every-Among all (task ∷ tasks) h =
    (h task (inl refl), Every-Among all tasks (λ other among. h other (inr among)))

module _ (lib : ℕ → Libpq) (all : List RemoteChecksumTask) where
  -- The checksum is the reply to the query of a task with the id.
  abbrev pub Explains : ℤ → RemoteChecksum → Type 0
  Explains id c =
      (task : RemoteChecksumTask) × Among task all
      × (task.task_id ≡ id)
      × (n : ℕ) × Source (lib n) task c

  unfoldable pub Explained : RemoteChecksumBatchResult → Type 0
  Explained r = Explains r.task_id r.checksum

  unfoldable Known : ActiveChecksumTask → Type 0
  Known a = Among a.task all × Sourced (lib a.conn) a.task a

  abbrev AllKnown : Batch → Type 0
  AllKnown b =
      Every (λ task. Among task all) b.pending × Every Known b.active × Every Explained b.results

  opens-AllKnown :
      (b : Batch) (task : RemoteChecksumTask) (tasks : List RemoteChecksumTask)
      (a : ActiveChecksumTask)
      → AllKnown (record b { pending = task ∷ tasks })
      → (Among task all → Known a)
      → AllKnown (record b { pending = tasks; active = b.active ++ a ∷ [] })
  unfolding Every
  opens-AllKnown b task tasks a h known =
      (h.0.1, Every-append Known b.active (a ∷ []) h.1 (known h.0.0, tt), h.2)

  polled-Known :
      (a a' : ActiveChecksumTask)
      → Same a a'
      → (Sourced (lib a.conn) a.task a → Sourced (lib a.conn) a.task a')
      → Known a
      → Known a'
  unfolding Known
  polled-Known a a' same kept h = (
    subst (λ task. Among task all) (sym same.0) h.0,
    subst (λ n. Sourced (lib n) a'.task a') (sym same.1)
        (subst (λ task. Sourced (lib a.conn) task a') (sym same.0) (kept h.1)),
  )

  started-Known :
      (n : ℕ) (task : RemoteChecksumTask) (t : Trace)
      → Sent task t
      → Among task all
      → Known (started n task t)
  unfolding Known
  started-Known n task t sent among = (among, (sent, tt))

  Known-Explained :
      (a : ActiveChecksumTask) (result : RemoteChecksumBatchResult)
      → Known a
      → (Sourced (lib a.conn) a.task a → Source (lib a.conn) a.task result.checksum)
      → result.task_id ≡ a.task.task_id
      → Explained result
  unfolding Known Explained
  Known-Explained a result h source e = (a.task, h.0, sym e, a.conn, source h.1)

  unfoldable explain : (max : ℕ) → Invariant lib max
  unfolding Every
  explain max = record {
    Running = AllKnown;
    Ended = λ b. Unit;
    opens = λ b task tasks t h small ready sent.
        opens-AllKnown b task tasks (started b.opened task t) h
          (started-Known b.opened task t sent);
    refused = λ b task tasks t h small idle_t. tt;
    polled = λ b kept rest a a' h same k.
        let at = Every-append_right Known kept (a ∷ rest) h.1 in
        (
          h.0,
          Every-append Known kept (a' ∷ rest) (Every-append_left Known kept (a ∷ rest) h.1)
              (polled-Known a a' same k at.0, at.1),
          h.2,
        );
    completed = λ b kept rest a a' result h same k e.
        let at = Every-append_right Known kept (a ∷ rest) h.1 in
        (
          h.0,
          Every-append Known kept (last_first rest) (Every-append_left Known kept (a ∷ rest) h.1)
              (Every-last_first Known rest at.1),
          Every-append Explained b.results (result ∷ []) h.2
              (Known-Explained a result at.0 k e, tt),
        );
    waited = λ b sets h freed. h;
    dropped = λ b h. tt;
  }

  insert_result-Every :
      (r : RemoteChecksumBatchResult) (rs : List RemoteChecksumBatchResult)
      → Explained r
      → Every Explained rs
      → Every Explained (insert_result r rs)
  unfolding Every insert_result
  insert_result-Every r [] h k = (h, tt)
  insert_result-Every r (s ∷ rs) h k = elim (Bool-cases (ltb_ℤ s.task_id r.task_id)) [
    | inl e ↦ rw e (k.0, insert_result-Every r rs h k.1)
    | inr e ↦ rw e (h, k)
  ]

  sort_results-Every :
      (rs : List RemoteChecksumBatchResult) → Every Explained rs → Every Explained (sort_results rs)
  unfolding Every sort_results
  sort_results-Every [] h = tt
  sort_results-Every (r ∷ rs) h =
      insert_result-Every r (sort_results rs) h.0 (sort_results-Every rs h.1)

  abbrev pub AllExplained : Outcome (List RemoteChecksumBatchResult) → Type 0
  AllExplained none = Unit
  AllExplained (some (ok rs, b)) = Every Explained rs
  AllExplained (some (err e, b)) = Unit
  AllExplained (some (panic, b)) = Unit

  sorted-AllExplained :
      (max : ℕ) (out : Outcome (Unit {0})) → Left (explain max) out → AllExplained (sorted out)
  unfolding sorted explain
  sorted-AllExplained max none h = tt
  sorted-AllExplained max (some (ok u, b)) h = sort_results-Every b.results h.0.2
  sorted-AllExplained max (some (err e, b)) h = tt
  sorted-AllExplained max (some (panic, b)) h = tt

  pub fetch_checksums_batch-Explained :
      (events : WaitEvents) (fuel rounds : ℕ) (max_parallel : ℤ)
      → AllExplained (fetch_checksums_batch lib events fuel rounds all max_parallel)
  unfolding fetch_checksums_batch initial explain Every
  fetch_checksums_batch-Explained events fuel rounds max_parallel =
      elim (Bool-cases (is_positive max_parallel)) [
        | inl e ↦ rw e (
            sorted-AllExplained (pos_part max_parallel) _ (
              run_batch-Left (explain (pos_part max_parallel)) events fuel rounds (initial all)
                (Every-Among all all (λ task among. among), tt, tt)
                (is_positive-pos_part max_parallel e)))
        | inr e ↦ rw e tt
      ]
