-- ===== src/Transport/Codec.antt =====
-- transport/libpq.rs: `parse_hex`, `parse_bool` and `validate_timeout`.
use mathlib.Core.Option
use pgl_validate.Base.{
  ◌%◌, ◌≡◌, ◌↔◌, ◌⊎◌, inl, inr, [], ◌∷◌, ◌++◌, none, Error, Result, ok, err, arith, ◌==◌, ◌||◌,
  if◌then◌else◌, length, Bool, true, false, Bool-cases,
}
use pgl_validate.Base.Int.{ℤ, is_positive}
use pgl_validate.Base.Text.{Bytes, codes, bytes_eq, strip_prefix}
use pgl_validate.Base.Text.Laws.{bytes_eq_sound}
use pgl_validate.Base.Hex.{hex_pairs}
use pgl_validate.Base.Hex.Laws.{IsHexText, hex_pairs_iff}

-- The text behind the optional `\x`.
unfoldable pub parse_hex_digits : Bytes → Result Bytes
parse_hex_digits input =
    if length input % 2 == 0
    then hex_pairs Error.bad_hex_byte 2 0 input
    else err (Error.odd_hex_length (length input))

unfoldable pub parse_hex : Bytes → Result Bytes
parse_hex input = parse_hex_digits (Option.get_or (strip_prefix (codes "\\x") input) input)

unfoldable pub parse_bool : Bytes → Result Bool
parse_bool input =
    if bytes_eq input (codes "t") || bytes_eq input (codes "true")
    then ok true
    else if bytes_eq input (codes "f") || bytes_eq input (codes "false")
    then ok false
    else err Error.bad_boolean

-- The label is part of the message only.
unfoldable pub validate_timeout : ℤ → Result ℤ
validate_timeout value = if is_positive value then ok value else err Error.timeout_not_positive

IsHexText-even : (s vs : Bytes) → IsHexText s vs → length s % 2 ≡ 0
IsHexText-even [] [] h = omega arith
IsHexText-even [] (v ∷ vs) h = absurd h
IsHexText-even (a ∷ []) vs h = absurd h
IsHexText-even (a ∷ b ∷ s) [] h = absurd h
IsHexText-even (a ∷ b ∷ s) (v ∷ vs) h = omega (arith, IsHexText-even s vs h.1)

digits_iff : (s vs : Bytes) → (parse_hex_digits s ≡ ok vs) ↔ IsHexText s vs
unfolding parse_hex_digits
digits_iff s vs = (
  λ h. elim (Bool-cases (length s % 2 == 0)) [
    | inl even ↦ (hex_pairs_iff Error.bad_hex_byte 2 0 s vs).0 (rw even at h)
    | inr odd ↦ absurd (ground arith)
  ],
  λ h. ground (arith, IsHexText-even s vs h, (hex_pairs_iff Error.bad_hex_byte 2 0 s vs).1 h),
)

-- A text without the prefix is accepted exactly when it is made of pairs of hexadecimal digits, or
-- of a plus sign and one digit, and the result is the bytes that they stand for; the prefix changes
-- nothing.
pub parse_hex_iff :
    (s vs : Bytes)
    → strip_prefix (codes "\\x") s ≡ none
    → ((parse_hex s ≡ ok vs) ↔ IsHexText s vs)
      × ((parse_hex (codes "\\x" ++ s) ≡ ok vs) ↔ IsHexText s vs)
unfolding parse_hex strip_prefix
parse_hex_iff s vs h = (rw h (digits_iff s vs), digits_iff s vs)

parse_bool_sound :
    (s : Bytes) (v : Bool)
    → parse_bool s ≡ ok v
    → ((v ≡ true) × ((s ≡ codes "t") ⊎ (s ≡ codes "true")))
      ⊎ ((v ≡ false) × ((s ≡ codes "f") ⊎ (s ≡ codes "false")))
unfolding parse_bool
parse_bool_sound s v h = ground (
  arith,
  bytes_eq_sound s (codes "t"),
  bytes_eq_sound s (codes "true"),
  bytes_eq_sound s (codes "f"),
  bytes_eq_sound s (codes "false"),
)

parse_bool_complete :
    (s : Bytes) (v : Bool)
    → ((v ≡ true) × ((s ≡ codes "t") ⊎ (s ≡ codes "true")))
      ⊎ ((v ≡ false) × ((s ≡ codes "f") ⊎ (s ≡ codes "false")))
    → parse_bool s ≡ ok v
unfolding parse_bool bytes_eq
parse_bool_complete s v (inl (e, inl p)) = rw (p, e)
parse_bool_complete s v (inl (e, inr p)) = rw (p, e)
parse_bool_complete s v (inr (e, inl p)) = rw (p, e)
parse_bool_complete s v (inr (e, inr p)) = rw (p, e)

-- `parse_bool` accepts four texts and no other.
pub parse_bool_iff :
    (s : Bytes) (v : Bool)
    → (parse_bool s ≡ ok v) ↔ (
        ((v ≡ true) × ((s ≡ codes "t") ⊎ (s ≡ codes "true")))
        ⊎ ((v ≡ false) × ((s ≡ codes "f") ⊎ (s ≡ codes "false"))))
parse_bool_iff s v = (parse_bool_sound s v, parse_bool_complete s v)
