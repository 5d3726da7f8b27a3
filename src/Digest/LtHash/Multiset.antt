-- ===== src/Digest/LtHash/Multiset.antt =====
-- The accumulator as a hash of a multiset: order and grouping of the rows do not matter, and the
-- contribution of one more row shows.
use mathlib.Core.Logic.{∥∥₁_elim}
use mathlib.Core.List.{Perm, Permᴰ}
use pgl_validate.Base.{ℕ, ◌≡◌, ◌≢◌, ◌↔◌, refl, sym, ap, ◌∙◌, List, [], ◌∷◌, ◌++◌, length}
use pgl_validate.Base.Text.{Bytes}
use pgl_validate.Digest.Blake3.{Blake3, IsBlake3}
use pgl_validate.Digest.LtHash.{
  LtHashCore, lanes_count, zeros, default, expand, add_row_digest, combine, add_all, add_lanes,
}
use pgl_validate.Digest.LtHash.Lanes.{
  add_lanes_comm, add_lanes_assoc, add_lanes_swap, add_lanes-zeros, add_lanes_cancel, length-zeros,
  zeros-All,
}
use pgl_validate.Digest.LtHash.State.{
  IsState, default-IsState, length-expand, expand-All, add_row_digest-IsState, add_all-IsState,
  combine-IsState, combine_lem, add_row_digest-cons,
}

lanes_eq :
    {ls rs : List ℕ}
    → ls ≡ rs
    → ◌≡◌ {A = LtHashCore} (record { lanes = ls }) (record { lanes = rs })
lanes_eq p = λ i. record { lanes = p i }

LtHashCore-set : IsSet LtHashCore
LtHashCore-set = hlevel

add_row_digest_comm :
    (b : Blake3) (s : LtHashCore) (d e : Bytes)
    → add_row_digest b (add_row_digest b s d) e ≡ add_row_digest b (add_row_digest b s e) d
unfolding add_row_digest
add_row_digest_comm b s [] [] = refl
add_row_digest_comm b s [] (y ∷ ys) = refl
add_row_digest_comm b s (x ∷ xs) [] = refl
add_row_digest_comm b s (x ∷ xs) (y ∷ ys) =
    λ i. record { lanes = add_lanes_comm s.lanes (expand b (x ∷ xs)) (expand b (y ∷ ys)) i }

add_all-Permᴰ :
    (b : Blake3) {ds es : List Bytes}
    → Permᴰ ds es
    → (s : LtHashCore) → add_all b s ds ≡ add_all b s es
unfolding add_all
add_all-Permᴰ b Permᴰ.nil s = refl
add_all-Permᴰ b (Permᴰ.cons {a = d} {b = e} p q) s = rw p (add_all-Permᴰ b q (add_row_digest b s e))
add_all-Permᴰ b (Permᴰ.swap {a' = a'} {b' = b'} {l = l} p q) s =
    rw (p, q) (ap (λ u. add_all b u l) (add_row_digest_comm b s b' a'))
add_all-Permᴰ b (Permᴰ.trans p q) s = add_all-Permᴰ b p s ∙ add_all-Permᴰ b q s

-- The digests of a table's rows give the same state in every order in which they are added.
pub add_all-Perm :
    (b : Blake3) (s : LtHashCore) (ds es : List Bytes)
    → Perm ds es
    → add_all b s ds ≡ add_all b s es
add_all-Perm b s ds es p = ∥∥₁_elim p (LtHashCore-set _ _) (λ q. add_all-Permᴰ b q s)

pub add_all-append :
    (b : Blake3) (s : LtHashCore) (ds es : List Bytes)
    → add_all b s (ds ++ es) ≡ add_all b (add_all b s ds) es
unfolding add_all
add_all-append b s [] es = refl
add_all-append b s (d ∷ ds) es = add_all-append b (add_row_digest b s d) ds es

combine-add_row_digest :
    (b : Blake3) (s t : LtHashCore) (d : Bytes)
    → IsBlake3 b
    → IsState s
    → IsState t
    → combine s (add_row_digest b t d) ≡ add_row_digest b (combine s t) d
combine-add_row_digest b s t [] hb hs ht = unfold add_row_digest in refl
combine-add_row_digest b s t (x ∷ xs) hb hs ht =
    rw
      (
        combine_lem s (add_row_digest b t (x ∷ xs)) hs (add_row_digest-IsState b t (x ∷ xs) ht),
        combine_lem s t hs ht,
        add_row_digest-cons b t x xs,
        add_row_digest-cons,
      )
      (λ i. record {
        lanes =
            add_lanes_assoc s.lanes t.lanes (expand b (x ∷ xs))
              (ht.size ∙ sym (length-expand hb (x ∷ xs))) i;
      })

pub combine-add_all_right :
    (b : Blake3) (s t : LtHashCore) (es : List Bytes)
    → IsBlake3 b
    → IsState s
    → IsState t
    → combine s (add_all b t es) ≡ add_all b (combine s t) es
unfolding add_all
combine-add_all_right b s t [] hb hs ht = refl
combine-add_all_right b s t (e ∷ es) hb hs ht =
    combine-add_all_right b s (add_row_digest b t e) es hb hs (add_row_digest-IsState b t e ht)
    ∙ ap (λ u. add_all b u es) (combine-add_row_digest b s t e hb hs ht)

pub combine-default : (s : LtHashCore) → IsState s → combine s default ≡ s
combine-default s hs =
    combine_lem s default hs default-IsState
    ∙ (unfold default in λ i. record { lanes = add_lanes-zeros s.lanes lanes_count hs.words i })

-- Combining the states of two parts of a table gives the state of the whole table. BLAKE3 is assumed
-- to have the output widths that it documents.
pub combine-add_all :
    (b : Blake3) (ds es : List Bytes)
    → IsBlake3 b
    → combine (add_all b default ds) (add_all b default es) ≡ add_all b default (ds ++ es)
combine-add_all b ds es hb =
    let left = add_all-IsState b default ds default-IsState in
    combine-add_all_right b (add_all b default ds) default es hb left default-IsState
    ∙ ap (λ u. add_all b u es) (combine-default (add_all b default ds) left)
    ∙ sym (add_all-append b default ds es)

combine_comm : (s t : LtHashCore) → IsState s → IsState t → combine s t ≡ combine t s
combine_comm s t hs ht =
    rw (combine_lem s t hs ht, combine_lem t s ht hs)
      (λ i. record { lanes = add_lanes_swap s.lanes t.lanes (hs.size ∙ sym ht.size) i })

combine_assoc :
    (s t u : LtHashCore)
    → IsState s
    → IsState t
    → IsState u
    → combine (combine s t) u ≡ combine s (combine t u)
combine_assoc s t u hs ht hu =
    rw
      (
        combine_lem (combine s t) u (combine-IsState s t) hu,
        combine_lem s (combine t u) hs (combine-IsState t u),
        combine_lem s t hs ht,
        combine_lem t u ht hu,
      )
      (lanes_eq (sym (add_lanes_assoc s.lanes t.lanes u.lanes (ht.size ∙ sym hu.size))))

-- On states `combine` is associative and commutative with the empty state as its unit, and its
-- results are states.
pub combine_laws :
    (s t u : LtHashCore)
    → IsState s
    → IsState t
    → IsState u
    → (combine (combine s t) u ≡ combine s (combine t u))
      × (combine s t ≡ combine t s)
      × (combine s default ≡ s)
      × IsState (combine s t)
combine_laws s t u hs ht hu = (
  combine_assoc s t u hs ht hu,
  combine_comm s t hs ht,
  combine-default s hs,
  combine-IsState s t,
)

module _ (b : Blake3) (s : LtHashCore) (hb : IsBlake3 b) (hs : IsState s) where
  same_size : (d : Bytes) → length s.lanes ≡ length (expand b d)
  same_size d = hs.size ∙ sym (length-expand hb d)

  expand_of_eq :
      (d e : Bytes)
      → add_lanes s.lanes (expand b d) ≡ add_lanes s.lanes (expand b e)
      → expand b d ≡ expand b e
  expand_of_eq d e =
      add_lanes_cancel s.lanes (expand b d) (expand b e) (same_size d) (same_size e)
        (expand-All hb d) (expand-All hb e)

  zeros_of_eq :
      (d : Bytes) → add_lanes s.lanes (expand b d) ≡ s.lanes → expand b d ≡ zeros lanes_count
  zeros_of_eq d e =
      add_lanes_cancel s.lanes (expand b d) (zeros lanes_count) (same_size d)
        (hs.size ∙ sym (length-zeros lanes_count)) (expand-All hb d) (zeros-All lanes_count)
        (e ∙ sym (add_lanes-zeros s.lanes lanes_count hs.words))

  cons_inj :
      (x y : ℕ) (xs ys : Bytes)
      → ((add_row_digest b s (x ∷ xs) ≡ add_row_digest b s (y ∷ ys))
          ↔ (expand b (x ∷ xs) ≡ expand b (y ∷ ys)))
        × ((add_row_digest b s (x ∷ xs) ≡ s) ↔ (expand b (x ∷ xs) ≡ zeros lanes_count))
  unfolding add_row_digest
  cons_inj x y xs ys = (
    (
      λ e. expand_of_eq (x ∷ xs) (y ∷ ys) (ap (λ (t : LtHashCore). t.lanes) e),
      λ e. lanes_eq (ap (add_lanes s.lanes) e),
    ),
    (
      λ e. zeros_of_eq (x ∷ xs) (ap (λ (t : LtHashCore). t.lanes) e),
      λ e. lanes_eq (ap (add_lanes s.lanes) e ∙ add_lanes-zeros s.lanes lanes_count hs.words),
    ),
  )

-- Adding two non-empty digests to one state gives the same state exactly when they have the same
-- addends, and adding one leaves the state as it was exactly when its addends are all zero. BLAKE3
-- is assumed to have the output widths that it documents.
pub add_row_digest_inj :
    (b : Blake3) (s : LtHashCore) (d e : Bytes)
    → IsBlake3 b
    → IsState s
    → d ≢ []
    → e ≢ []
    → ((add_row_digest b s d ≡ add_row_digest b s e) ↔ (expand b d ≡ expand b e))
      × ((add_row_digest b s d ≡ s) ↔ (expand b d ≡ zeros lanes_count))
add_row_digest_inj b s [] e hb hs nd ne = absurd (nd refl)
add_row_digest_inj b s (x ∷ xs) [] hb hs nd ne = absurd (ne refl)
add_row_digest_inj b s (x ∷ xs) (y ∷ ys) hb hs nd ne = cons_inj b s hb hs x y xs ys
