-- ===== src/Base/Steps.antt =====
-- Computations that make calls of kind `C`: from the calls so far, the latest first, to the result
-- and the calls made then.
use mathlib.Core.List.{List, ◌∷◌}
use pgl_validate.Base.Outcome.{Result, ok, err, panic}

abbrev pub Steps : Type 0 → Type 0 → Type 0
Steps C A = List C → Result A × List C

-- What follows a result.
abbrev pub next : {C A B : Type 0} → Result A → (A → Steps C B) → Steps C B
next (ok a) f t = f a t
next (err e) f t = (err e, t)
next panic f t = (panic, t)

-- `?` after a call: an error or a panic ends the function.
infixl 5 ◌>>=◌ ◌>>◌
abbrev pub ◌>>=◌ : {C A B : Type 0} → Steps C A → (A → Steps C B) → Steps C B
◌>>=◌ m f t = let (r, t') = m t in next r f t'

abbrev pub ◌>>◌ : {C A B : Type 0} → Steps C A → Steps C B → Steps C B
m >> k = m >>= λ _. k

-- A computation without calls.
abbrev pub lift : {C A : Type 0} → Result A → Steps C A
lift r t = (r, t)

abbrev pub log : {C : Type 0} → C → Steps C (Unit {0})
log c t = (ok tt, c ∷ t)

-- `body`, and then `c` however it ended.
abbrev pub finally : {C A : Type 0} → Steps C A → C → Steps C A
finally body c t = let (r, t') = body t in (r, c ∷ t')
