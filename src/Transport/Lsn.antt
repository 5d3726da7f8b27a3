-- ===== src/Transport/Lsn.antt =====
-- transport/libpq.rs: `parse_lsn` and `format_lsn`.
pub mod Laws
use Prim.Native.Nat.{bit_and, bit_or}
use pgl_validate.Base.{
  ℕ, zero, suc, ◌+◌, ◌-◌, ◌*◌, ◌/◌, ◌%◌, ◌^◌, ◌<◌, ◌≤◌, ◌≡◌, ◌≢◌, refl, sym, ap, ◌∙◌, List, [], ◌∷◌,
  ◌++◌, append_assoc, Option, none, some, Error, Result, ok, err, panic, ◌>>=◌, ok_or, arith, ltb,
  ◌==◌, ◌||◌, if◌then◌else◌, length, replicate, Bool, true, false,
}
use pgl_validate.Base.Text.{Bytes, codes, All}
use pgl_validate.Base.Digits.{
  from_str_radix, format_radix, format_upper_hex, pad_zeros, upper_digit, scan_digits, scan_all,
  to_digit, digit-upper_digit, scan_digits-format_radix, scan_digits-cons,
}
use pgl_validate.Base.Bits.{bit_or-add, bit_and-mod}

abbrev pub max_u64 : ℕ
max_u64 = 2 ^ 64 - 1

abbrev pub max_u32 : ℕ
max_u32 = 2 ^ 32 - 1

-- `str::split_once('/')`.
unfoldable pub split_slash : Bytes → Option (Bytes × Bytes)
split_slash [] = none
split_slash (c ∷ cs) =
    if c == b'/'
    then some ([], cs)
    else elim (split_slash cs) [ none ↦ none | some (high, low) ↦ some (c ∷ high, low) ]

-- The two words of the text, once both are numbers.
unfoldable pub join_words : ℕ → ℕ → Result ℕ
join_words high low =
    if ltb max_u32 high || ltb max_u32 low
    then err Error.lsn_word_out_of_range
    else ok (bit_or (high * 2 ^ 32 % 2 ^ 64) low)

unfoldable pub parse_lsn : Bytes → Result ℕ
parse_lsn input = do
  parts ← ok_or (split_slash input) Error.lsn_without_slash
  high ← ok_or (from_str_radix 16 max_u64 parts.0) Error.bad_lsn_high
  low ← ok_or (from_str_radix 16 max_u64 parts.1) Error.bad_lsn_low
  join_words high low

-- `format!("{:X}/{:08X}", lsn >> 32, lsn & u32::MAX as u64)`.
unfoldable pub format_lsn : ℕ → Bytes
format_lsn lsn =
    format_upper_hex (lsn / 2 ^ 32)
    ++ (codes "/" ++ pad_zeros 8 (format_upper_hex (bit_and lsn max_u32)))
