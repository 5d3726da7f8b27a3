-- ===== src/SqlApi/Sorting.antt =====
-- An order of rows as `ORDER BY` of a bytea gives it, NULLs first, for the tests: what it returns
-- does not depend on the order of the rows that it is given.
use mathlib.Core.Logic.{∥∥₁_elim}
use mathlib.Core.List.{Perm, Permᴰ}
use mathlib.Core.List.Permᴰ as Permutations
use pgl_validate.Base.{
  ◌==◌, ltb, ◌&&◌, ◌||◌, ◌≡◌, refl, ap, ◌∙◌, Bool, true, false, List, [], ◌∷◌, Option, none, some,
  arith, if◌then◌else◌,
}
use pgl_validate.Base.Text.{Bytes}

unfoldable pub at_most : Bytes → Bytes → Bool
at_most [] y = true
at_most (c ∷ x) [] = false
at_most (c ∷ x) (d ∷ y) = ltb c d || ((c == d) && at_most x y)

unfoldable pub row_at_most : Option Bytes → Option Bytes → Bool
row_at_most none o = true
row_at_most (some x) none = false
row_at_most (some x) (some y) = at_most x y

unfoldable pub insert_row : Option Bytes → List (Option Bytes) → List (Option Bytes)
insert_row x [] = x ∷ []
insert_row x (y ∷ ys) = if row_at_most x y then x ∷ y ∷ ys else y ∷ insert_row x ys

unfoldable pub sort_rows : List (Option Bytes) → List (Option Bytes)
sort_rows [] = []
sort_rows (x ∷ xs) = insert_row x (sort_rows xs)

at_most_total : (x y : Bytes) → at_most x y ≡ false → at_most y x ≡ true
unfolding at_most
at_most_total [] y h = cc
at_most_total (c ∷ x) [] h = refl
at_most_total (c ∷ x) (d ∷ y) h = ground (arith, at_most_total x y)

at_most_antisym : (x y : Bytes) → at_most x y ≡ true → at_most y x ≡ true → x ≡ y
unfolding at_most
at_most_antisym [] [] h k = refl
at_most_antisym [] (d ∷ y) h k = cc
at_most_antisym (c ∷ x) [] h k = cc
at_most_antisym (c ∷ x) (d ∷ y) h k = ground (arith, at_most_antisym x y)

at_most_trans : (x y z : Bytes) → at_most x y ≡ true → at_most y z ≡ true → at_most x z ≡ true
unfolding at_most
at_most_trans [] y z h k = refl
at_most_trans (c ∷ x) [] z h k = cc
at_most_trans (c ∷ x) (d ∷ y) [] h k = cc
at_most_trans (c ∷ x) (d ∷ y) (e ∷ z) h k = ground (arith, at_most_trans x y z)

row_total : (x y : Option Bytes) → row_at_most x y ≡ false → row_at_most y x ≡ true
unfolding row_at_most
row_total none y h = cc
row_total (some x) none h = refl
row_total (some x) (some y) h = at_most_total x y h

row_antisym : (x y : Option Bytes) → row_at_most x y ≡ true → row_at_most y x ≡ true → x ≡ y
unfolding row_at_most
row_antisym none none h k = refl
row_antisym none (some y) h k = cc
row_antisym (some x) none h k = cc
row_antisym (some x) (some y) h k = ap some (at_most_antisym x y h k)

row_trans :
    (x y z : Option Bytes)
    → row_at_most x y ≡ true
    → row_at_most y z ≡ true
    → row_at_most x z ≡ true
unfolding row_at_most
row_trans none y z h k = refl
row_trans (some x) none z h k = cc
row_trans (some x) (some y) none h k = cc
row_trans (some x) (some y) (some z) h k = at_most_trans x y z h k

insert_comm :
    (x y : Option Bytes) (l : List (Option Bytes))
    → insert_row x (insert_row y l) ≡ insert_row y (insert_row x l)
unfolding insert_row
insert_comm x y [] = ground (arith, row_total x y, row_antisym x y)
insert_comm x y (z ∷ l) = ground (
  arith,
  row_total x y,
  row_antisym x y,
  row_total x z,
  row_total y z,
  row_trans x y z,
  row_trans y x z,
  insert_comm x y l,
)

sort-Permᴰ : {xs ys : List (Option Bytes)} → Permᴰ xs ys → sort_rows xs ≡ sort_rows ys
unfolding sort_rows
sort-Permᴰ Permᴰ.nil = refl
sort-Permᴰ (Permᴰ.cons {a = x} e p) = cc (e, sort-Permᴰ p)
sort-Permᴰ (Permᴰ.swap {a = x} {b = y} {l = l} p q) = rw (← p, ← q) (insert_comm x y (sort_rows l))
sort-Permᴰ (Permᴰ.trans p q) = sort-Permᴰ p ∙ sort-Permᴰ q

pub sort-Perm : (xs ys : List (Option Bytes)) → Perm xs ys → sort_rows xs ≡ sort_rows ys
sort-Perm xs ys p =
    let goal-prop : IsProp (sort_rows xs ≡ sort_rows ys) = hlevel in ∥∥₁_elim p goal-prop sort-Permᴰ

insert-choice :
    (b : Bool) (x y : Option Bytes) (l : List (Option Bytes))
    → Permᴰ (x ∷ l) (insert_row x l)
    → Permᴰ (x ∷ y ∷ l) (if b then x ∷ y ∷ l else y ∷ insert_row x l)
insert-choice true x y l h = Permutations.refl _
insert-choice false x y l h = Permᴰ.trans (Permᴰ.swap refl refl) (Permᴰ.cons refl h)

insert-Permᴰ : (x : Option Bytes) (l : List (Option Bytes)) → Permᴰ (x ∷ l) (insert_row x l)
unfolding insert_row
insert-Permᴰ x [] = Permutations.refl _
insert-Permᴰ x (y ∷ l) = insert-choice (row_at_most x y) x y l (insert-Permᴰ x l)

reorders : (xs : List (Option Bytes)) → Permᴰ xs (sort_rows xs)
unfolding sort_rows
reorders [] = Permᴰ.nil
reorders (x ∷ xs) = Permᴰ.trans (Permᴰ.cons refl (reorders xs)) (insert-Permᴰ x (sort_rows xs))

pub sort_rows-Perm : (xs : List (Option Bytes)) → Perm xs (sort_rows xs)
sort_rows-Perm xs = ∣ reorders xs ∣₁
