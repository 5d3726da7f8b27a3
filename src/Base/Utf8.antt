-- ===== src/Base/Utf8.antt =====
-- `std::str::from_utf8`: which byte sequences are UTF-8.
use pgl_validate.Base.{
  ℕ, zero, suc, ◌==◌, leb, ltb, ◌&&◌, Bool, true, false, [], ◌∷◌, Option, none, some, if◌then◌else◌,
}
use pgl_validate.Base.Text.{Bytes}

-- How many bytes follow a first byte, and the range of the next one.
unfoldable pub lead : ℕ → Option (ℕ × ℕ × ℕ)
lead a =
    if ltb a 0x80
    then some (0, 0x80, 0xbf)
    else if leb 0xc2 a && leb a 0xdf
    then some (1, 0x80, 0xbf)
    else if a == 0xe0
    then some (2, 0xa0, 0xbf)
    else if a == 0xed
    then some (2, 0x80, 0x9f)
    else if leb 0xe1 a && leb a 0xef
    then some (2, 0x80, 0xbf)
    else if a == 0xf0
    then some (3, 0x90, 0xbf)
    else if leb 0xf1 a && leb a 0xf3
    then some (3, 0x80, 0xbf)
    else if a == 0xf4
    then some (3, 0x80, 0x8f)
    else none

-- The rest of the text, with `more` bytes of a character to come and the next between `lo` and `hi`.
unfoldable pub continues : ℕ → ℕ → ℕ → Bytes → Bool
unfolding lead
continues zero lo hi [] = true
continues (suc more) lo hi [] = false
continues zero lo hi (a ∷ s) = elim (lead a) [ none ↦ false | some (n, l, h) ↦ continues n l h s ]
continues (suc more) lo hi (a ∷ s) = leb lo a && leb a hi && continues more 0x80 0xbf s

unfoldable pub is_utf8 : Bytes → Bool
unfolding continues
is_utf8 s = continues 0 0x80 0xbf s
