-- ===== src/Transport/FanOut/Schedule.antt =====
-- transport/libpq.rs: each task of `fetch_checksums_batch` has one result, the results are in order,
-- and never more tasks are active than allowed.
use pgl_validate.Base.{
  ℕ, ◌+◌, ◌<◌, ◌≡◌, refl, ap, ◌∙◌, true, false, List, [], ◌∷◌, ◌++◌, map, none, some, ok, err,
  panic, Bool-cases, inl, inr, arith, if◌then◌else◌,
}
use pgl_validate.Base.Int.{ℤ, ◌≤ℤ◌, ltb_ℤ, pos_part, is_positive, is_positive-pos_part}
use pgl_validate.Transport.QueryResult.{same_int}
use pgl_validate.Transport.Session.{Libpq}
use pgl_validate.Transport.FanOut.{
  RemoteChecksumTask, RemoteChecksumBatchResult, ActiveChecksumTask,
}
use pgl_validate.Transport.FanOut.Wait.{WaitEvents}
use pgl_validate.Transport.FanOut.Batch.{
  Batch, after_last, last_first, Outcome, run_batch, initial, sorted, sort_results, insert_result,
  fetch_checksums_batch,
}
use pgl_validate.Transport.FanOut.Invariant.{Invariant, Left, run_batch-Left}

-- How often `id` occurs in a list of ids.
unfoldable pub count : ℤ → List ℤ → ℕ
count id [] = 0
count id (x ∷ xs) = (if same_int id x then 1 else 0) + count id xs

abbrev pub task_ids : List RemoteChecksumTask → List ℤ
task_ids tasks = map (λ (t : RemoteChecksumTask). t.task_id) tasks

abbrev active_id : ActiveChecksumTask → ℤ
active_id a = a.task.task_id

abbrev active_ids : List ActiveChecksumTask → List ℤ
active_ids active = map active_id active

abbrev pub result_id : RemoteChecksumBatchResult → ℤ
result_id r = r.task_id

abbrev pub result_ids : List RemoteChecksumBatchResult → List ℤ
result_ids results = map result_id results

module _ (id : ℤ) where
  module _ {A : Type 0} (key : A → ℤ) where
    count-append :
        (xs ys : List A)
        → count id (map key (xs ++ ys)) ≡ count id (map key xs) + count id (map key ys)
    unfolding count
    count-append [] ys = omega arith
    count-append (x ∷ xs) ys = omega (arith, count-append xs ys)

    count-after_last :
        (x : A) (xs : List A) → count id (map key (after_last x xs)) ≡ count id (map key (x ∷ xs))
    unfolding count after_last
    count-after_last x [] = refl
    count-after_last x (z ∷ zs) = omega arith

    count-last_first : (xs : List A) → count id (map key (last_first xs)) ≡ count id (map key xs)
    unfolding count last_first
    count-last_first [] = refl
    count-last_first (x ∷ xs) =
        count-after_last x (last_first xs)
        ∙ ap (λ n. (if same_int id (key x) then 1 else 0) + n) (count-last_first xs)

  -- The tasks that are pending, active and done are `total` with the id.
  abbrev Conserved : ℕ → Batch → Type 0
  Conserved total b =
      count id (task_ids b.pending)
        + count id (active_ids b.active)
        + count id (result_ids b.results)
      ≡ total

  -- An error ends the function, and promises no result.
  unfoldable conserve : (lib : ℕ → Libpq) (max total : ℕ) → Invariant lib max
  unfolding count
  conserve lib max total = record {
    Running = Conserved total;
    Ended = λ b. Unit;
    opens = λ b task tasks t h small ready sent. omega (
      arith,
      h,
      count-append active_id b.active
          (record { task = task; conn = b.opened; trace = t; checksum = none } ∷ []),
    );
    refused = λ b task tasks t h small idle_t. tt;
    polled = λ b kept rest a a' h same k.
        let same_id : a'.task.task_id ≡ a.task.task_id =
          ap (λ (x : RemoteChecksumTask). x.task_id) same.0 in
        let same_active : active_ids (a' ∷ rest) ≡ active_ids (a ∷ rest) = rw same_id refl in
        let same_count : count id (active_ids (a' ∷ rest)) ≡ count id (active_ids (a ∷ rest)) =
          ap (count id) same_active in
        omega (
          arith,
          h,
          same_count,
          count-append active_id kept (a' ∷ rest),
          count-append active_id kept (a ∷ rest),
        );
    completed = λ b kept rest a a' result h same k e.
        let same_count : count id (result_ids (result ∷ [])) ≡ count id (active_ids (a ∷ [])) =
          ap (λ i. count id (i ∷ [])) e in
        omega (
          arith,
          h,
          same_count,
          count-append active_id kept (last_first rest),
          count-append active_id kept (a ∷ rest),
          count-last_first active_id rest,
          count-append result_id b.results (result ∷ []),
        );
    waited = λ b sets h freed. h;
    dropped = λ b h. tt;
  }

  count-insert_result :
      (r : RemoteChecksumBatchResult) (rs : List RemoteChecksumBatchResult)
      → count id (result_ids (insert_result r rs)) ≡ count id (result_ids (r ∷ rs))
  unfolding count insert_result
  count-insert_result r [] = refl
  count-insert_result r (s ∷ rs) = elim (Bool-cases (ltb_ℤ s.task_id r.task_id)) [
    | inl e ↦ rw e (omega (arith, count-insert_result r rs))
    | inr e ↦ rw e refl
  ]

  count-sort_results :
      (rs : List RemoteChecksumBatchResult)
      → count id (result_ids (sort_results rs)) ≡ count id (result_ids rs)
  unfolding count sort_results
  count-sort_results [] = refl
  count-sort_results (r ∷ rs) =
      count-insert_result r (sort_results rs)
      ∙ ap (λ n. (if same_int id r.task_id then 1 else 0) + n) (count-sort_results rs)

lt_le : (a b : ℤ) → ltb_ℤ a b ≡ true → a ≤ℤ b
lt_le a b h = ground arith

not_lt_le : (a b : ℤ) → ltb_ℤ a b ≡ false → b ≤ℤ a
not_lt_le a b h = ground arith

unfoldable pub Before : RemoteChecksumBatchResult → List RemoteChecksumBatchResult → Type 0
Before r [] = Unit
Before r (s ∷ rs) = r.task_id ≤ℤ s.task_id

-- No result stands before one with a smaller id.
unfoldable pub InOrder : List RemoteChecksumBatchResult → Type 0
unfolding Before
InOrder [] = Unit
InOrder (r ∷ rs) = Before r rs × InOrder rs

insert_result-Before :
    (r s : RemoteChecksumBatchResult) (rs : List RemoteChecksumBatchResult)
    → Before s rs
    → s.task_id ≤ℤ r.task_id
    → Before s (insert_result r rs)
unfolding Before insert_result
insert_result-Before r s [] h le = le
insert_result-Before r s (t ∷ rs) h le = elim (Bool-cases (ltb_ℤ t.task_id r.task_id)) [
  | inl e ↦ rw e h
  | inr e ↦ rw e le
]

insert_result-InOrder :
    (r : RemoteChecksumBatchResult) (rs : List RemoteChecksumBatchResult)
    → InOrder rs
    → InOrder (insert_result r rs)
unfolding InOrder Before insert_result
insert_result-InOrder r [] h = (tt, tt)
insert_result-InOrder r (s ∷ rs) h = elim (Bool-cases (ltb_ℤ s.task_id r.task_id)) [
  | inl e ↦ rw e (
    insert_result-Before r s rs h.0 (lt_le s.task_id r.task_id e),
    insert_result-InOrder r rs h.1,
  )
  | inr e ↦ rw e (not_lt_le s.task_id r.task_id e, h)
]

sort_results-InOrder : (rs : List RemoteChecksumBatchResult) → InOrder (sort_results rs)
unfolding InOrder sort_results
sort_results-InOrder [] = tt
sort_results-InOrder (r ∷ rs) = insert_result-InOrder r (sort_results rs) (sort_results-InOrder rs)

-- A result for each task, in order; nothing of an error or without enough fuel.
unfoldable pub Complete :
    List RemoteChecksumTask → Outcome (List RemoteChecksumBatchResult) → Type 0
Complete tasks none = Unit
Complete tasks (some (ok rs, b)) =
    ((id : ℤ) → count id (result_ids rs) ≡ count id (task_ids tasks)) × InOrder rs
Complete tasks (some (err e, b)) = Unit
Complete tasks (some (panic, b)) = Unit

module _ (lib : ℕ → Libpq) (events : WaitEvents) (fuel rounds : ℕ)
    (tasks : List RemoteChecksumTask) where
  run_batch-count :
      (id : ℤ) (max : ℕ)
      → 0 < max
      → Left
          (conserve id lib max (count id (task_ids tasks)))
          (run_batch lib events fuel rounds max (initial tasks))
  unfolding conserve initial count
  run_batch-count id max positive =
      run_batch-Left (conserve id lib max (count id (task_ids tasks))) events fuel rounds
        (initial tasks) (omega arith) positive

  sorted-Complete :
      (max : ℕ) (out : Outcome (Unit {0}))
      → ((id : ℤ) → Left (conserve id lib max (count id (task_ids tasks))) out)
      → Complete tasks (sorted out)
  unfolding sorted Complete conserve count
  sorted-Complete max none h = tt
  sorted-Complete max (some (ok u, b)) h = (
    λ id.
        let no_pending : count id (task_ids b.pending) ≡ 0 = rw (h id).2 refl in
        let no_active : count id (active_ids b.active) ≡ 0 = rw (h id).1 refl in
        omega (arith, (h id).0, no_pending, no_active, count-sort_results id b.results),
    sort_results-InOrder b.results,
  )
  sorted-Complete max (some (err e, b)) h = tt
  sorted-Complete max (some (panic, b)) h = tt

  -- When `fetch_checksums_batch` succeeds, each task id occurs among the results as often as among
  -- the tasks, however the connections' answers are interleaved, and the results are in order of
  -- their task ids.
  pub fetch_checksums_batch-Complete :
      (max_parallel : ℤ)
      → Complete tasks (fetch_checksums_batch lib events fuel rounds tasks max_parallel)
  unfolding fetch_checksums_batch Complete
  fetch_checksums_batch-Complete max_parallel = elim (Bool-cases (is_positive max_parallel)) [
    | inl e ↦ rw e (
        sorted-Complete (pos_part max_parallel) _
          (λ id. run_batch-count id (pos_part max_parallel) (is_positive-pos_part max_parallel e)))
    | inr e ↦ rw e tt
  ]
