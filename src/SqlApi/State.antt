-- ===== src/SqlApi/State.antt =====
-- sql_api.rs: `lthash_state`, the accumulator as a PostgreSQL value of 32 blocks of 32 lanes.
use pgl_validate.Base.{
  ℕ, ◌≡◌, refl, sym, ap, ◌∙◌, List, [], ◌∷◌, ◌++◌, length, drop, replicate, Result, ok, err, panic,
  if◌then◌else◌,
}
use pgl_validate.Base.Text.{Bytes}
use pgl_validate.Base.Utf8.{is_utf8}
use pgl_validate.Digest.LtHash.{
  LtHashCore, lanes_count, zeros, assign_lanes, parse_text, to_hex, to_bytes,
}
use pgl_validate.Digest.LtHash.Lanes.{assign_lanes-full, length-zeros}
use pgl_validate.Digest.LtHash.State.{IsState}

abbrev pub lane_blocks_count : ℕ
lane_blocks_count = 32

abbrev pub lanes_per_block : ℕ
lanes_per_block = 32

pub record LthashState : Type 0 where
  pub lane_blocks : List (List ℕ)

abbrev pub flatten : List (List ℕ) → List ℕ
flatten [] = []
flatten (b ∷ bs) = b ++ flatten bs

-- `*dst = src` over the lanes of the blocks zipped with the values.
unfoldable pub assign_blocks : List (List ℕ) → List ℕ → List (List ℕ)
assign_blocks [] xs = []
assign_blocks (b ∷ bs) xs = assign_lanes b xs ∷ assign_blocks bs (drop (length b) xs)

abbrev pub zero_blocks : List (List ℕ)
zero_blocks = replicate lane_blocks_count (replicate lanes_per_block 0)

unfoldable pub from_core : LtHashCore → LthashState
from_core core = record { lane_blocks = assign_blocks zero_blocks core.lanes }

unfoldable pub to_core : LthashState → LtHashCore
to_core s = record { lanes = assign_lanes (zeros lanes_count) (flatten s.lane_blocks) }

-- The input function: an error of the text is an ERROR of PostgreSQL.
unfoldable pub input : Bytes → Result LthashState
input text =
    if is_utf8 text
    then elim (parse_text text) [ ok core ↦ ok (from_core core) | err e ↦ panic | panic ↦ panic ]
    else panic

unfoldable pub output : LthashState → Bytes
output s = to_hex (to_core s)

unfoldable pub lthash_bytes : LthashState → Bytes
lthash_bytes s = to_bytes (to_core s)

assign_lanes-nil : (ls : List ℕ) → assign_lanes ls [] ≡ ls
unfolding assign_lanes
assign_lanes-nil [] = refl
assign_lanes-nil (l ∷ ls) = refl

assign_lanes-append :
    (ls ks xs : List ℕ)
    → assign_lanes (ls ++ ks) xs ≡ assign_lanes ls xs ++ assign_lanes ks (drop (length ls) xs)
unfolding assign_lanes
assign_lanes-append [] ks xs = refl
assign_lanes-append (l ∷ ls) ks [] = ap (λ (r : List ℕ). l ∷ (ls ++ r)) (sym (assign_lanes-nil ks))
assign_lanes-append (l ∷ ls) ks (x ∷ xs) = ap (λ (r : List ℕ). x ∷ r) (assign_lanes-append ls ks xs)

flatten-assign_blocks :
    (bs : List (List ℕ)) (xs : List ℕ)
    → flatten (assign_blocks bs xs) ≡ assign_lanes (flatten bs) xs
unfolding assign_blocks
flatten-assign_blocks [] xs = unfold assign_lanes in refl
flatten-assign_blocks (b ∷ bs) xs =
    ap (λ (r : List ℕ). assign_lanes b xs ++ r) (flatten-assign_blocks bs (drop (length b) xs))
    ∙ sym (assign_lanes-append b (flatten bs) xs)

flatten-zero_blocks : flatten zero_blocks ≡ zeros lanes_count
unfolding zeros
flatten-zero_blocks = refl

-- The blocks keep every lane of a state of 1024 lanes.
pub to_core-from_core : (s : LtHashCore) → IsState s → to_core (from_core s) ≡ s
unfolding to_core from_core
to_core-from_core s h =
    let blocks =
      flatten-assign_blocks zero_blocks s.lanes
      ∙ ap (λ (ls : List ℕ). assign_lanes ls s.lanes) flatten-zero_blocks
      ∙ assign_lanes-full (zeros lanes_count) s.lanes (length-zeros lanes_count ∙ sym h.size) in
    let lanes =
      ap (assign_lanes (zeros lanes_count)) blocks
      ∙ assign_lanes-full (zeros lanes_count) s.lanes (length-zeros lanes_count ∙ sym h.size) in
    λ i. record { lanes = lanes i }
