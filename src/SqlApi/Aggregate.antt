-- ===== src/SqlApi/Aggregate.antt =====
-- sql_api.rs: the aggregate `lthash` over row digests, with the partial states that a parallel plan
-- combines, and the SQL function `hash_digest_array`.
use mathlib.Core.List.{Perm}
use pgl_validate.Base.{
  ◌≡◌, refl, sym, ap, ◌∙◌, List, [], ◌∷◌, ◌++◌, Option, none, some, Result, ok, ◌>>=◌,
}
use pgl_validate.Base.Text.{Bytes, codes, bytes_eq}
use pgl_validate.Base.Utf8.{is_utf8, continues, lead}
use pgl_validate.Digest.Blake3.{Blake3, IsBlake3}
use pgl_validate.Digest.Algorithm
use pgl_validate.Digest.Algorithm.{HashAlgorithm}
use pgl_validate.Digest.LtHash.{LtHashCore, default, add_row_digest, combine, add_all, parse_text}
use pgl_validate.Digest.LtHash.State.{
  IsState, default-IsState, add_row_digest-IsState, combine-IsState,
}
use pgl_validate.Digest.LtHash.Multiset.{add_all-Perm, combine-add_all}
use pgl_validate.SqlApi.State.{
  LthashState, from_core, to_core, input, lthash_bytes, to_core-from_core,
}

unfoldable pub aggregate_state : Blake3 → LthashState → Option Bytes → LthashState
aggregate_state b current none = from_core (to_core current)
aggregate_state b current (some row_digest) =
    from_core (add_row_digest b (to_core current) row_digest)

unfoldable pub aggregate_combine : LthashState → LthashState → LthashState
aggregate_combine current other = from_core (combine (to_core current) (to_core other))

unfoldable pub lthash_combine : LthashState → LthashState → LthashState
lthash_combine left right = from_core (combine (to_core left) (to_core right))

-- What is left of an array when its NULLs are filtered out.
unfoldable pub present : List (Option Bytes) → List Bytes
present [] = []
present (none ∷ ds) = present ds
present (some d ∷ ds) = d ∷ present ds

unfoldable pub hash_digest_array_of_nullable : Blake3 → List (Option Bytes) → HashAlgorithm → Bytes
hash_digest_array_of_nullable b digests algorithm =
    Algorithm.hash_digest_array b (present digests) algorithm

-- How PostgreSQL runs the aggregate: on one set of rows from the initial condition, or on two sets
-- whose states it combines.
pub data Plan : Type 0 where
  scan : List (Option Bytes) → Plan
  gather : Plan → Plan → Plan

-- The rows of a plan.
unfoldable pub rows : Plan → List (Option Bytes)
rows (scan ds) = ds
rows (gather p q) = rows p ++ rows q

-- The state function over the rows of one scan.
unfoldable pub advance_all : Blake3 → LthashState → List (Option Bytes) → LthashState
advance_all b s [] = s
advance_all b s (d ∷ ds) = advance_all b (aggregate_state b s d) ds

-- The initial condition is the text `0`.
unfoldable pub run : Blake3 → Plan → Result LthashState
run b (scan ds) = input (codes "0") >>= λ s. ok (advance_all b s ds)
run b (gather p q) = run b p >>= λ s. run b q >>= λ t. ok (aggregate_combine s t)

input_zero : input (codes "0") ≡ ok (from_core default)
unfolding input is_utf8 continues lead parse_text bytes_eq
input_zero = refl

to_core-advance_all :
    (b : Blake3) (s : LthashState) (ds : List (Option Bytes))
    → IsState (to_core s)
    → to_core (advance_all b s ds) ≡ add_all b (to_core s) (present ds)
unfolding advance_all present add_all aggregate_state
to_core-advance_all b s [] h = refl
to_core-advance_all b s (none ∷ ds) h =
    let same = to_core-from_core (to_core s) h in
    to_core-advance_all b (from_core (to_core s)) ds (rw same h)
    ∙ ap (λ (c : LtHashCore). add_all b c (present ds)) same
to_core-advance_all b s (some d ∷ ds) h =
    let next-IsState = add_row_digest-IsState b (to_core s) d h in
    let same = to_core-from_core (add_row_digest b (to_core s) d) next-IsState in
    to_core-advance_all b (from_core (add_row_digest b (to_core s) d)) ds (rw same next-IsState)
    ∙ ap (λ (c : LtHashCore). add_all b c (present ds)) same

present-append : (ds es : List (Option Bytes)) → present (ds ++ es) ≡ present ds ++ present es
unfolding present
present-append [] es = refl
present-append (none ∷ ds) es = present-append ds es
present-append (some d ∷ ds) es = ap (λ (r : List Bytes). d ∷ r) (present-append ds es)

-- Every plan returns a state, and it is the one of all its rows that are not NULL, added one after
-- the other to the empty state, however the plan splits them. BLAKE3 is assumed to have the output
-- widths that it documents.
pub run_lem :
    (b : Blake3) (p : Plan)
    → IsBlake3 b
    → (s : LthashState) × (run b p ≡ ok s) × (to_core s ≡ add_all b default (present (rows p)))
unfolding run rows aggregate_combine
run_lem b (scan ds) hb =
    let same = to_core-from_core default default-IsState in
    (
      advance_all b (from_core default) ds,
      rw input_zero refl,
      to_core-advance_all b (from_core default) ds (rw same default-IsState)
          ∙ ap (λ (c : LtHashCore). add_all b c (present ds)) same,
    )
run_lem b (gather p q) hb =
    let (s, left, s_eq) = run_lem b p hb in
    let (t, right, t_eq) = run_lem b q hb in
    (
      aggregate_combine s t,
      rw left (rw right refl),
      to_core-from_core (combine (to_core s) (to_core t)) (combine-IsState (to_core s) (to_core t))
          ∙ ap (λ (c : LtHashCore). combine c (to_core t)) s_eq
          ∙ ap (λ (c : LtHashCore). combine (add_all b default (present (rows p))) c) t_eq
          ∙ combine-add_all b (present (rows p)) (present (rows q)) hb
          ∙ ap (add_all b default) (sym (present-append (rows p) (rows q))),
    )

-- Two plans over the same row digests, in whatever order and however split among workers, both
-- return a state, and `lthash_bytes` of the two are the same. BLAKE3 is assumed to have the output
-- widths that it documents.
pub run-Perm :
    (b : Blake3) (p q : Plan)
    → IsBlake3 b
    → Perm (present (rows p)) (present (rows q))
    → (s : LthashState) × (t : LthashState) × (run b p ≡ ok s)
      × (run b q ≡ ok t)
      × (lthash_bytes s ≡ lthash_bytes t)
unfolding lthash_bytes
run-Perm b p q hb same =
    let (s, left, s_eq) = run_lem b p hb in
    let (t, right, t_eq) = run_lem b q hb in
    let cores =
      s_eq ∙ add_all-Perm b default (present (rows p)) (present (rows q)) same ∙ sym t_eq in
    (s, t, left, right, rw cores refl)
