-- ===== src/Base/Text/Trim.antt =====
-- `str::trim`: what is left starts with no space, and is empty when the text is blank.
use Prim.Native.Nat.{ℕ}
use mathlib.Core.Path.{◌≡◌, refl, sym, ap, ◌∙◌}
use mathlib.Core.Logic.{◌⊎◌, inl, inr}
use mathlib.Core.Bool.{Bool, true, false}
use mathlib.Core.List.{[], ◌∷◌}
use pgl_validate.Base.Tests.{if◌then◌else◌}
use pgl_validate.Base.Text.{
  Bytes, ascii_space, space_of_two, space_of_three, trim_start, is_empty, is_blank, trim_end, trim,
}

-- A text that starts with no space.
unfoldable Solid : Bytes → Type 0
Solid [] = ⊥
Solid (c ∷ []) = ascii_space c ≡ false
Solid (c ∷ d ∷ []) = (ascii_space c ≡ false) × (space_of_two c d ≡ false)
Solid (c ∷ d ∷ e ∷ s) =
    (ascii_space c ≡ false) × (space_of_two c d ≡ false) × (space_of_three c d e ≡ false)

abbrev EmptyOrSolid : Bytes → Type 0
EmptyOrSolid s = (s ≡ []) ⊎ Solid s

if-EmptyOrSolid :
    (b : Bool) (s r : Bytes)
    → (b ≡ true → EmptyOrSolid s)
    → (b ≡ false → EmptyOrSolid r)
    → EmptyOrSolid (if b then s else r)
if-EmptyOrSolid true s r hs hr = hs refl
if-EmptyOrSolid false s r hs hr = hr refl

trim_start-EmptyOrSolid : (s : Bytes) → EmptyOrSolid (trim_start s)
unfolding trim_start Solid
trim_start-EmptyOrSolid [] = inl refl
trim_start-EmptyOrSolid (c ∷ []) =
    if-EmptyOrSolid (ascii_space c) [] (c ∷ []) (λ e. inl refl) (λ e. inr e)
trim_start-EmptyOrSolid (c ∷ d ∷ []) =
    if-EmptyOrSolid (ascii_space c) _ _ (λ e. trim_start-EmptyOrSolid (d ∷ []))
      (λ e. if-EmptyOrSolid (space_of_two c d) [] _ (λ f. inl refl) (λ f. inr (e, f)))
trim_start-EmptyOrSolid (c ∷ d ∷ e ∷ s) =
    if-EmptyOrSolid (ascii_space c) _ _ (λ p. trim_start-EmptyOrSolid (d ∷ e ∷ s))
      (λ p.
        if-EmptyOrSolid (space_of_two c d) _ _ (λ q. trim_start-EmptyOrSolid (e ∷ s))
          (λ q.
            if-EmptyOrSolid (space_of_three c d e) _ _ (λ r. trim_start-EmptyOrSolid s)
              (λ r. inr (p, q, r))))

trim_start-Solid : (s : Bytes) → Solid s → trim_start s ≡ s
unfolding trim_start Solid
trim_start-Solid [] h = elim h [ ]
trim_start-Solid (c ∷ []) h = rw h refl
trim_start-Solid (c ∷ d ∷ []) h = rw h.0 (rw h.1 refl)
trim_start-Solid (c ∷ d ∷ e ∷ s) h = rw h.0 (rw h.1 (rw h.2 refl))

is_empty-Solid : (s : Bytes) → Solid s → is_empty s ≡ false
unfolding Solid
is_empty-Solid [] h = elim h [ ]
is_empty-Solid (c ∷ s) h = refl

is_blank-Solid : (s : Bytes) → Solid s → is_blank s ≡ false
unfolding is_blank Solid
is_blank-Solid [] h = elim h [ ]
is_blank-Solid (c ∷ s) h = ap is_empty (trim_start-Solid (c ∷ s) h)

Solid-if_two :
    (b : Bool) (c d : ℕ) (r : Bytes)
    → Solid (c ∷ [])
    → Solid (c ∷ d ∷ r)
    → Solid (c ∷ (if b then [] else d ∷ r))
Solid-if_two true c d r h k = h
Solid-if_two false c d r h k = k

Solid-if_three :
    (b : Bool) (c d e : ℕ) (r : Bytes)
    → Solid (c ∷ d ∷ [])
    → Solid (c ∷ d ∷ e ∷ r)
    → Solid (c ∷ d ∷ (if b then [] else e ∷ r))
Solid-if_three true c d e r h k = h
Solid-if_three false c d e r h k = k

Solid-trim_end : (c : ℕ) (s : Bytes) → Solid (c ∷ s) → Solid (c ∷ trim_end s)
unfolding Solid trim_end
Solid-trim_end c [] h = h
Solid-trim_end c (d ∷ []) h = Solid-if_two (is_blank (d ∷ [])) c d [] h.0 h
Solid-trim_end c (d ∷ e ∷ s) h =
    Solid-if_two (is_blank (d ∷ e ∷ s)) c d (trim_end (e ∷ s)) h.0
      (Solid-if_three (is_blank (e ∷ s)) c d e (trim_end s) (h.0, h.1) h)

trim_end-Solid : (s : Bytes) → Solid s → Solid (trim_end s)
unfolding trim_end
trim_end-Solid [] h = h
trim_end-Solid (c ∷ s) h = rw (is_blank-Solid (c ∷ s) h) (Solid-trim_end c s h)

-- The trimmed text is blank when it is empty only, and it is empty when the text is blank only.
pub is_blank-trim :
    (s : Bytes) → (is_blank (trim s) ≡ is_empty (trim s)) × (is_empty (trim s) ≡ is_blank s)
unfolding trim is_blank trim_start trim_end
is_blank-trim s = trimmed (trim_start s) (trim_start-EmptyOrSolid s) refl
  where
    trimmed :
        (r : Bytes)
        → EmptyOrSolid r
        → trim_start s ≡ r
        → (is_blank (trim_end r) ≡ is_empty (trim_end r)) × (is_empty (trim_end r) ≡ is_blank s)
    trimmed r (inl e) h = (
      ap (λ x. is_blank (trim_end x)) e ∙ sym (ap (λ x. is_empty (trim_end x)) e),
      ap (λ x. is_empty (trim_end x)) e ∙ sym (ap is_empty (h ∙ e)),
    )
    trimmed r (inr solid) h =
        let end = trim_end-Solid r solid in
        let kept = is_empty-Solid (trim_end r) end in
        (
          is_blank-Solid (trim_end r) end ∙ sym kept,
          kept ∙ sym (is_empty-Solid r solid) ∙ sym (ap is_empty h),
        )
