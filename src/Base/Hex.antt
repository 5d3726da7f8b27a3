-- ===== src/Base/Hex.antt =====
-- Hexadecimal pairs: the loops of `parse_hex` in transport/libpq.rs and of `parse_text` in
-- digest/lthash.rs over `u8::from_str_radix(&input[i..i + 2], 16)`, and the loop of `to_hex`.
pub mod Laws
use Prim.Native.Nat.{ℕ, ◌+◌}
use mathlib.Core.Path.{◌≡◌, refl}
use mathlib.Core.Bool.{Bool, true, false}
use mathlib.Core.Option.{Option, none, some}
use mathlib.Core.List.{List, [], ◌∷◌, ◌++◌}
use native.Mathlib.Omega.{arith}
use pgl_validate.Base.Tests.{if◌then◌else◌}
use pgl_validate.Base.Lists.{length}
use pgl_validate.Base.Outcome.{Error, Result, ok, err, panic, ◌>>=◌, ok_or}
use pgl_validate.Base.Text.{Bytes, All, IsByte, begins_char}
use pgl_validate.Base.Digits.{from_str_radix, format_byte}

-- Slicing `str` in the middle of a character panics; the end of the text is a boundary.
unfoldable pub at_boundary : Bytes → Bool
unfolding begins_char
at_boundary [] = true
at_boundary (c ∷ cs) = begins_char c

-- One pair: the slice, then the number.
unfoldable pub hex_pair : Error → ℕ → ℕ → Bytes → Result ℕ
hex_pair e a b rest =
    if at_boundary rest then ok_or (from_str_radix 16 255 (a ∷ b ∷ [])) e else panic

-- The pairs of a text of even length from position `i`, which grows by `stride` at each pair.
unfoldable pub hex_pairs : (ℕ → Error) → ℕ → ℕ → Bytes → Result Bytes
hex_pairs e stride i [] = ok []
hex_pairs e stride i (a ∷ []) = panic
hex_pairs e stride i (a ∷ b ∷ rest) =
    hex_pair (e i) a b rest >>= λ x. hex_pairs e stride (i + stride) rest >>= λ xs. ok (x ∷ xs)

unfoldable pub hex_of : Bytes → Bytes
unfolding format_byte
hex_of [] = []
hex_of (b ∷ bs) = format_byte b ++ hex_of bs
