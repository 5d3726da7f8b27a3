-- ===== src/SqlApi/Permuted.antt =====
-- sql_api.rs: the rows of a plan in another order, and those of them that are not NULL.
use mathlib.Core.Logic.{∥∥₁_elim}
use mathlib.Core.List.{Perm, Permᴰ}
use mathlib.Core.List.Permᴰ as Permutations
use mathlib.Core.Path.{subst}
use pgl_validate.Base.{◌≡◌, refl, ap, ◌∙◌, List, ◌∷◌, Option, none, some, length, suc}
use pgl_validate.Base.Text.{Bytes}
use pgl_validate.SqlApi.Aggregate.{present}

present_swap :
    (x y : Option Bytes) (l : List (Option Bytes))
    → Permᴰ (present (x ∷ y ∷ l)) (present (y ∷ x ∷ l))
unfolding present
present_swap none none l = Permutations.refl _
present_swap none (some e) l = Permutations.refl _
present_swap (some d) none l = Permutations.refl _
present_swap (some d) (some e) l = Permᴰ.swap refl refl

present_cons :
    (x : Option Bytes) (l m : List (Option Bytes))
    → Permᴰ (present l) (present m)
    → Permᴰ (present (x ∷ l)) (present (x ∷ m))
unfolding present
present_cons none l m h = h
present_cons (some d) l m h = Permᴰ.cons refl h

present-Permᴰ : {l m : List (Option Bytes)} → Permᴰ l m → Permᴰ (present l) (present m)
unfolding present
present-Permᴰ Permᴰ.nil = Permᴰ.nil
present-Permᴰ (Permᴰ.cons {a = x} {b = y} {l₁ = l} {l₂ = m} e p) =
    subst (λ z. Permᴰ (present (x ∷ l)) (present (z ∷ m))) e (present_cons x l m (present-Permᴰ p))
present-Permᴰ (Permᴰ.swap {a = x} {b = y} {a' = x'} {b' = y'} {l = l} p q) =
    subst (λ z. Permᴰ (present (x ∷ y ∷ l)) (present (x' ∷ z ∷ l))) p
      (subst (λ z. Permᴰ (present (x ∷ y ∷ l)) (present (z ∷ x ∷ l))) q (present_swap x y l))
present-Permᴰ (Permᴰ.trans p q) = Permᴰ.trans (present-Permᴰ p) (present-Permᴰ q)

pub present-Perm : (l m : List (Option Bytes)) → Perm l m → Perm (present l) (present m)
present-Perm l m p =
    let goal-prop : IsProp (Perm (present l) (present m)) = hlevel in
    ∥∥₁_elim p goal-prop (λ q. ∣ present-Permᴰ q ∣₁)

length-Permᴰ : {l m : List (Option Bytes)} → Permᴰ l m → length l ≡ length m
length-Permᴰ Permᴰ.nil = refl
length-Permᴰ (Permᴰ.cons e p) = ap suc (length-Permᴰ p)
length-Permᴰ (Permᴰ.swap p q) = refl
length-Permᴰ (Permᴰ.trans p q) = length-Permᴰ p ∙ length-Permᴰ q

pub length-Perm : (l m : List (Option Bytes)) → Perm l m → length l ≡ length m
length-Perm l m p =
    let goal-prop : IsProp (length l ≡ length m) = hlevel in ∥∥₁_elim p goal-prop length-Permᴰ
