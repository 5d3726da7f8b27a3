-- ===== src/Digest/LtHash/State.antt =====
-- The states that the accumulator can be in, and that every operation stays among them.
use pgl_validate.Base.{ℕ, ◌≡◌, refl, ◌∙◌, List, [], ◌∷◌, arith, length}
use pgl_validate.Base.Text.{Bytes, All}
use pgl_validate.Digest.Blake3.{Blake3, IsBlake3, update}
use pgl_validate.Digest.LtHash.{
  LtHashCore, lanes_count, state_bytes, zeros, default, expand, add_row_digest, combine, add_all,
  add_lanes,
}
use pgl_validate.Digest.LtHash.Lanes.{
  IsLane, length-zeros, zeros-All, length-add_lanes, add_lanes-All, length-combine_lanes,
  combine_lanes-All, combine_lanes-add_lanes, length-u16_lanes, u16_lanes-All,
}

-- A `[u16; 1024]`.
pub record IsState (s : LtHashCore) : Type 0 where
  pub size : length s.lanes ≡ lanes_count
  pub words : All IsLane s.lanes

pub default-IsState : IsState default
unfolding default
default-IsState = record { size = length-zeros lanes_count; words = zeros-All lanes_count }

pub length-expand : {b : Blake3} → IsBlake3 b → (d : Bytes) → length (expand b d) ≡ lanes_count
unfolding expand
length-expand h d = length-u16_lanes lanes_count _ (h.length_xof (update [] d) state_bytes)

pub expand-All : {b : Blake3} → IsBlake3 b → (d : Bytes) → All IsLane (expand b d)
unfolding expand
expand-All h d = u16_lanes-All _ (h.bytes_xof (update [] d) state_bytes)

pub add_row_digest-IsState :
    (b : Blake3) (s : LtHashCore) (d : Bytes) → IsState s → IsState (add_row_digest b s d)
unfolding add_row_digest
add_row_digest-IsState b s [] h = h
add_row_digest-IsState b s (x ∷ xs) h = record {
  size = length-add_lanes s.lanes (expand b (x ∷ xs)) ∙ h.size;
  words = add_lanes-All s.lanes (expand b (x ∷ xs)) h.words;
}

pub add_all-IsState :
    (b : Blake3) (s : LtHashCore) (ds : List Bytes) → IsState s → IsState (add_all b s ds)
unfolding add_all
add_all-IsState b s [] h = h
add_all-IsState b s (d ∷ ds) h =
    add_all-IsState b (add_row_digest b s d) ds (add_row_digest-IsState b s d h)

pub combine-IsState : (s t : LtHashCore) → IsState (combine s t)
unfolding combine default
combine-IsState s t = record {
  size = length-combine_lanes (zeros lanes_count) s.lanes t.lanes ∙ length-zeros lanes_count;
  words = combine_lanes-All (zeros lanes_count) s.lanes t.lanes (zeros-All lanes_count);
}

-- On states combining adds the lanes.
pub combine_lem :
    (s t : LtHashCore)
    → IsState s
    → IsState t
    → combine s t ≡ record { lanes = add_lanes s.lanes t.lanes }
unfolding combine default
combine_lem s t hs ht = λ i. record {
  lanes =
      combine_lanes-add_lanes (zeros lanes_count) s.lanes t.lanes
        (omega (arith, length-zeros lanes_count, hs.size)) (omega (arith, hs.size, ht.size)) i;
}

pub add_row_digest-cons :
    (b : Blake3) (s : LtHashCore) (x : ℕ) (xs : Bytes)
    → add_row_digest b s (x ∷ xs) ≡ record { lanes = add_lanes s.lanes (expand b (x ∷ xs)) }
unfolding add_row_digest
add_row_digest-cons b s x xs = refl
