-- ===== src/Base/Text/Laws.antt =====
-- Facts about texts.
use mathlib.Core.Path.{◌≡◌, refl, ap}
use mathlib.Core.Logic.{◌≢◌}
use mathlib.Core.Bool.{true, false}
use mathlib.Core.List.{[], ◌∷◌}
use native.Mathlib.Omega.{arith}
use pgl_validate.Base.Text.{Bytes, bytes_eq}

pub bytes_eq_refl : (x : Bytes) → bytes_eq x x ≡ true
unfolding bytes_eq
bytes_eq_refl [] = refl
bytes_eq_refl (c ∷ x) = ground (arith, bytes_eq_refl x)

pub bytes_eq_sound : (x y : Bytes) → bytes_eq x y ≡ true → x ≡ y
unfolding bytes_eq
bytes_eq_sound [] [] h = refl
bytes_eq_sound [] (d ∷ y) h = cc
bytes_eq_sound (c ∷ x) [] h = cc
bytes_eq_sound (c ∷ x) (d ∷ y) h = ground (arith, bytes_eq_sound x y)

pub bytes_ne : (x y : Bytes) → bytes_eq x y ≡ false → x ≢ y
bytes_ne x y h e = cc (h, ap (bytes_eq x) e, bytes_eq_refl x)
