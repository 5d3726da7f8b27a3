-- ===== src/Digest/LtHash/Codec.antt =====
-- The byte and text forms of the accumulator.
use pgl_validate.Base.{◌≡◌, ◌↔◌, refl, sym, ◌∙◌, [], ◌∷◌, ◌++◌, arith}
use pgl_validate.Base.{length, ok, Error, true, false, none, ok_inj}
use pgl_validate.Base.Text.{Bytes, All, IsByte, codes, bytes_eq, strip_prefix}
use pgl_validate.Base.Digits.{lower_digit}
use pgl_validate.Base.Hex.{hex_of}
use pgl_validate.Base.Hex.Laws.{hex_pairs_iff, hex_of-IsHexText, length-hex_of}
use pgl_validate.Digest.LtHash.{
  LtHashCore, lanes_count, state_bytes, zeros, from_bytes, to_bytes, to_hex, parse_text,
  parse_state_hex, u16_lanes,
}
use pgl_validate.Digest.LtHash.Lanes.{
  length-zeros, assign_lanes-full, length-le_bytes, le_bytes-All, u16_lanes-le_bytes,
  length-u16_lanes, u16_lanes-All, le_bytes-u16_lanes,
}
use pgl_validate.Digest.LtHash.State.{IsState}

length-to_bytes : (s : LtHashCore) → IsState s → length (to_bytes s) ≡ state_bytes
unfolding to_bytes
length-to_bytes s h = omega (arith, length-le_bytes s.lanes, h.size)

pub to_bytes-All : (s : LtHashCore) → IsState s → All IsByte (to_bytes s)
unfolding to_bytes
to_bytes-All s h = le_bytes-All s.lanes h.words

from_bytes_lem :
    (bytes : Bytes)
    → length bytes ≡ state_bytes
    → from_bytes bytes ≡ ok (record { lanes = u16_lanes bytes })
unfolding from_bytes
from_bytes_lem bytes h = ground (
  arith,
  assign_lanes-full (zeros lanes_count) (u16_lanes bytes),
  length-zeros lanes_count,
  length-u16_lanes lanes_count bytes,
)

-- A state is read back from its bytes.
pub from_bytes-to_bytes : (s : LtHashCore) → IsState s → from_bytes (to_bytes s) ≡ ok s
from_bytes-to_bytes s h =
    from_bytes_lem (to_bytes s) (length-to_bytes s h)
    ∙ (unfold to_bytes in λ i. ok (record { lanes = u16_lanes-le_bytes s.lanes i }))

accepted_length :
    (bytes : Bytes) (s : LtHashCore) → from_bytes bytes ≡ ok s → length bytes ≡ state_bytes
unfolding from_bytes
accepted_length bytes s e = ground arith

sound :
    (bytes : Bytes)
    → All IsByte bytes
    → (s : LtHashCore) → from_bytes bytes ≡ ok s
    → length bytes ≡ state_bytes
    → IsState s × (to_bytes s ≡ bytes)
unfolding to_bytes
sound bytes h s e n = rw (← ok_inj (sym (from_bytes_lem bytes n) ∙ e)) (
  record { size = length-u16_lanes lanes_count bytes n; words = u16_lanes-All bytes h },
  le_bytes-u16_lanes lanes_count bytes n h,
)

-- Bytes, each below 256, are read as a value exactly when it is a state of 1024 lanes of 16 bits and
-- they are its bytes.
pub from_bytes_iff :
    (bytes : Bytes) (s : LtHashCore)
    → All IsByte bytes
    → (from_bytes bytes ≡ ok s) ↔ (IsState s × (to_bytes s ≡ bytes))
from_bytes_iff bytes s h = (
  λ e. sound bytes h s e (accepted_length bytes s e),
  λ p. rw (← p.1) (from_bytes-to_bytes s p.0),
)

parse_state_hex-to_hex : (s : LtHashCore) → IsState s → parse_state_hex (to_hex s) ≡ ok s
unfolding parse_state_hex to_hex
parse_state_hex-to_hex s h = ground (
  arith,
  length-hex_of (to_bytes s),
  length-to_bytes s h,
  (hex_pairs_iff Error.bad_state_hex 1 0 (hex_of (to_bytes s)) (to_bytes s)).1
      (hex_of-IsHexText (to_bytes s) (to_bytes-All s h)),
  from_bytes-to_bytes s h,
)

length_of_bytes_eq : (x y : Bytes) → bytes_eq x y ≡ true → length x ≡ length y
unfolding bytes_eq
length_of_bytes_eq [] [] h = refl
length_of_bytes_eq [] (b ∷ y) h = cc
length_of_bytes_eq (a ∷ x) [] h = cc
length_of_bytes_eq (a ∷ x) (b ∷ y) h = ground (arith, length_of_bytes_eq x y)

strip_prefix-hex_of : (bs : Bytes) → All IsByte bs → strip_prefix (codes "\\x") (hex_of bs) ≡ none
unfolding strip_prefix hex_of lower_digit
strip_prefix-hex_of [] h = refl
strip_prefix-hex_of (b ∷ bs) h = ground arith

strip_prefix-to_hex : (s : LtHashCore) → IsState s → strip_prefix (codes "\\x") (to_hex s) ≡ none
unfolding to_hex
strip_prefix-to_hex s h = strip_prefix-hex_of (to_bytes s) (to_bytes-All s h)

to_hex_ne_zero : (s : LtHashCore) → IsState s → bytes_eq (to_hex s) (codes "0") ≡ false
unfolding to_hex
to_hex_ne_zero s h = ground (
  arith,
  length_of_bytes_eq (hex_of (to_bytes s)) (codes "0"),
  length-hex_of (to_bytes s),
  length-to_bytes s h,
)

parse_text_plain : (s : LtHashCore) → IsState s → parse_text (to_hex s) ≡ ok s
unfolding parse_text
parse_text_plain s h = rw (to_hex_ne_zero s h, strip_prefix-to_hex s h) (parse_state_hex-to_hex s h)

parse_text_prefixed : (s : LtHashCore) → IsState s → parse_text (codes "\\x" ++ to_hex s) ≡ ok s
unfolding parse_text bytes_eq strip_prefix
parse_text_prefixed s h = parse_state_hex-to_hex s h

-- A state is read back from its text, with the prefix `\x` of a bytea or without.
pub parse_text-to_hex :
    (s : LtHashCore)
    → IsState s
    → (parse_text (to_hex s) ≡ ok s) × (parse_text (codes "\\x" ++ to_hex s) ≡ ok s)
parse_text-to_hex s h = (parse_text_plain s h, parse_text_prefixed s h)
