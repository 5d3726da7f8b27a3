-- ===== src/Transport/Lsn/Laws.antt =====
-- The text of an LSN is read back, and every number that is read fits 64 bits.
use pgl_validate.Base.{
  ℕ, zero, suc, ◌+◌, ◌-◌, ◌*◌, ◌/◌, ◌%◌, ◌^◌, ◌<◌, ◌≡◌, ◌≢◌, refl, ap, ◌∙◌, [], ◌∷◌, ◌++◌, some,
  Error, ok, >>=-eq-ok, ok_or, ok_or_inj, arith, ltb, ◌==◌, length, replicate, Bool-cases, inl, inr,
  Option-cases,
}
use pgl_validate.Base.Text.{Bytes, All, All-append}
use pgl_validate.Base.Digits.{
  from_str_radix, format_radix, format_upper_hex, pad_zeros, upper_digit, scan_digits, to_digit,
  scan_digits-format_radix, scan_digits-cons,
}
use pgl_validate.Base.Bits.{bit_or-add, bit_and-mod}
use pgl_validate.Transport.Lsn.{max_u64, split_slash, join_words, parse_lsn, format_lsn}

-- An upper-case hexadecimal digit.
abbrev IsUpper : ℕ → Type 0
IsUpper c = (d : ℕ) × (d < 16) × (c ≡ upper_digit d)

-- A text of such digits that is not empty.
abbrev IsNumber : Bytes → Type 0
IsNumber s = (s ≢ []) × All IsUpper s

format_radix-IsUpper :
    (fuel n : ℕ) (out : Bytes)
    → All IsUpper out
    → All IsUpper (format_radix fuel 16 upper_digit n out)
unfolding format_radix
format_radix-IsUpper zero n out h = h
format_radix-IsUpper (suc fuel) n out h = elim (Bool-cases (ltb n 16)) [
  | inl last ↦ rw last ((n, ground arith, refl), h)
  | inr more ↦ rw more (format_radix-IsUpper fuel (n / 16) _ ((n % 16, omega arith, refl), h))
]

format_radix-ne-nil :
    (fuel n : ℕ) (out : Bytes) → out ≢ [] → format_radix fuel 16 upper_digit n out ≢ []
unfolding format_radix
format_radix-ne-nil zero n out h = h
format_radix-ne-nil (suc fuel) n out h =
    ground (arith, format_radix-ne-nil fuel (n / 16) (upper_digit (n % 16) ∷ out))

format_upper_hex-IsNumber : (n : ℕ) → IsNumber (format_upper_hex n)
unfolding format_upper_hex
format_upper_hex-IsNumber n = (nonempty, format_radix-IsUpper 16 n [] tt)
  where
    nonempty : format_radix 16 16 upper_digit n [] ≢ []
    nonempty = ground (arith, format_radix-ne-nil 15 (n / 16) (upper_digit (n % 16) ∷ []))

upper_plain : (c : ℕ) → IsUpper c → (c ≢ b'+') × (c ≢ b'/')
unfolding upper_digit
upper_plain c (d, h, e) = ground arith

from_str_radix-IsNumber :
    (max : ℕ) (s : Bytes) → IsNumber s → from_str_radix 16 max s ≡ scan_digits 16 max s 0
unfolding from_str_radix
from_str_radix-IsNumber max [] h = absurd (h.0 refl)
from_str_radix-IsNumber max (c ∷ s) h = ground (arith, (upper_plain c h.1.0).0)

split_slash-IsUpper :
    (s rest : Bytes) → All IsUpper s → split_slash (s ++ b'/' ∷ rest) ≡ some (s, rest)
unfolding split_slash
split_slash-IsUpper [] rest h = refl
split_slash-IsUpper (c ∷ s) rest h =
    ground (arith, (upper_plain c h.0).1, split_slash-IsUpper s rest h.1)

zeros-IsUpper : (k : ℕ) → All IsUpper (replicate k b'0')
zeros-IsUpper zero = tt
zeros-IsUpper (suc k) = ((0, omega arith, unfold upper_digit in refl), zeros-IsUpper k)

pad_zeros-IsNumber : (s : Bytes) → IsNumber s → IsNumber (pad_zeros 8 s)
unfolding pad_zeros
pad_zeros-IsNumber s h = (
  append_ne_nil (replicate (8 - length s) b'0') s h.0,
  All-append IsUpper (replicate (8 - length s) b'0') s (zeros-IsUpper (8 - length s)) h.1,
)
  where
    append_ne_nil : (x y : Bytes) → y ≢ [] → x ++ y ≢ []
    append_ne_nil [] y n e = n e
    append_ne_nil (c ∷ x) y n e = cc

digit_zero : to_digit 16 b'0' ≡ some 0
unfolding to_digit
digit_zero = refl

scan_zeros :
    (k max : ℕ) (s : Bytes) → scan_digits 16 max (replicate k b'0' ++ s) 0 ≡ scan_digits 16 max s 0
scan_zeros zero max s = refl
scan_zeros (suc k) max s =
    scan_digits-cons 16 max b'0' (replicate k b'0' ++ s) 0 0 digit_zero (omega arith)
    ∙ scan_zeros k max s

scan_word : (n : ℕ) → n < 2 ^ 64 → scan_digits 16 max_u64 (format_upper_hex n) 0 ≡ some n
unfolding format_upper_hex
scan_word n h =
    scan_digits-format_radix 16 16 max_u64 n [] (omega arith) (omega arith) h (omega arith)
    ∙ (unfold scan_digits in refl)

word_read : (n : ℕ) → n < 2 ^ 64 → from_str_radix 16 max_u64 (format_upper_hex n) ≡ some n
word_read n h =
    from_str_radix-IsNumber max_u64 (format_upper_hex n) (format_upper_hex-IsNumber n)
    ∙ scan_word n h

scan_padded : (s : Bytes) → scan_digits 16 max_u64 (pad_zeros 8 s) 0 ≡ scan_digits 16 max_u64 s 0
unfolding pad_zeros
scan_padded s = scan_zeros (8 - length s) max_u64 s

padded_read :
    (n : ℕ) → n < 2 ^ 64 → from_str_radix 16 max_u64 (pad_zeros 8 (format_upper_hex n)) ≡ some n
padded_read n h =
    from_str_radix-IsNumber max_u64 _ (pad_zeros-IsNumber _ (format_upper_hex-IsNumber n))
    ∙ scan_padded (format_upper_hex n)
    ∙ scan_word n h

join_words_lem :
    (high low : ℕ) → high < 2 ^ 32 → low < 2 ^ 32 → join_words high low ≡ ok (high * 2 ^ 32 + low)
unfolding join_words
join_words_lem high low h l = ground (arith, bit_or-add 32 high low)

-- Every LSN, a number below 2 ^ 64, is read back from its text.
pub parse_lsn-format_lsn : (lsn : ℕ) → lsn < 2 ^ 64 → parse_lsn (format_lsn lsn) ≡ ok lsn
unfolding parse_lsn format_lsn
parse_lsn-format_lsn lsn h =
    rw
      (
        bit_and-mod 32 lsn,
        split_slash-IsUpper (format_upper_hex (lsn / 2 ^ 32))
            (pad_zeros 8 (format_upper_hex (lsn % 2 ^ 32)))
            (format_upper_hex-IsNumber (lsn / 2 ^ 32)).1,
        word_read (lsn / 2 ^ 32) (omega arith),
        padded_read (lsn % 2 ^ 32) (omega arith),
      )
      (join_words_lem (lsn / 2 ^ 32) (lsn % 2 ^ 32) (omega arith) (omega arith)
        ∙ ap ok (omega arith))

split_slash_sound : (s high low : Bytes) → split_slash s ≡ some (high, low) → s ≡ high ++ b'/' ∷ low
unfolding split_slash
split_slash_sound [] high low h = cc
split_slash_sound (c ∷ s) high low h = elim (Bool-cases (c == b'/')) [
  | inl slash ↦ ground arith
  | inr other ↦ elim (Option-cases (split_slash s)) [
    | inl nothing ↦ absurd (ground arith)
    | inr ((left, right), e) ↦ ground (arith, split_slash_sound s left right e)
  ]
]

join_words_sound :
    (high low lsn : ℕ)
    → join_words high low ≡ ok lsn
    → (high < 2 ^ 32) × (low < 2 ^ 32) × (lsn ≡ high * 2 ^ 32 + low)
unfolding join_words
join_words_sound high low lsn h = ground (arith, bit_or-add 32 high low)

-- A text that is read is two numbers around a slash, each of at most 32 bits, and the result has
-- them as its two halves.
pub parse_lsn_sound :
    (input : Bytes) (lsn : ℕ)
    → parse_lsn input ≡ ok lsn
    → (left : Bytes) × (right : Bytes) × (high : ℕ) × (low : ℕ) × (input ≡ left ++ b'/' ∷ right)
      × (from_str_radix 16 max_u64 left ≡ some high)
      × (from_str_radix 16 max_u64 right ≡ some low)
      × (high < 2 ^ 32)
      × (low < 2 ^ 32)
      × (lsn ≡ high * 2 ^ 32 + low)
unfolding parse_lsn
parse_lsn_sound input lsn h =
    let (parts, p, h1) = >>=-eq-ok (ok_or (split_slash input) Error.lsn_without_slash) _ h in
    let (high, q, h2) =
      >>=-eq-ok (ok_or (from_str_radix 16 max_u64 parts.0) Error.bad_lsn_high) _ h1 in
    let (low, r, h3) =
      >>=-eq-ok (ok_or (from_str_radix 16 max_u64 parts.1) Error.bad_lsn_low) _ h2 in
    let (bh, bl, e) = join_words_sound high low lsn h3 in
    (
      parts.0,
      parts.1,
      high,
      low,
      split_slash_sound input parts.0 parts.1 (ok_or_inj _ _ p),
      ok_or_inj _ _ q,
      ok_or_inj _ _ r,
      bh,
      bl,
      e,
    )
