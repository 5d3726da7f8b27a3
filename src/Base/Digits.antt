-- ===== src/Base/Digits.antt =====
-- Numbers in text: `from_str_radix` and `str::parse` of Rust, and the formats `{:X}`, `{:08X}`,
-- `{:02x}` and `{}`.
use Prim.Native.Nat.{ℕ, zero, suc, ◌+◌, ◌-◌, ◌*◌, ◌/◌, ◌%◌, ◌^◌, ◌≤◌, ◌<◌}
use mathlib.Core.Path.{◌≡◌}
use mathlib.Core.Bool.{◌&&◌}
use mathlib.Core.Option
use mathlib.Core.Option.{Option, none, some}
use mathlib.Core.List.{[], ◌∷◌, ◌++◌}
use native.Mathlib.Omega.{arith}
use native.Mathlib.Nat.{pow-suc, div-lt_iff_lt-mul}
use Prim.Native.Nat.pow
use pgl_validate.Base.Tests.{◌==◌, ltb, leb, if◌then◌else◌}
use pgl_validate.Base.Lists.{length, replicate}
use pgl_validate.Base.Text.{Bytes}
use pgl_validate.Base.Int.{ℤ, pos, neg_ℕ}

-- The value of a letter or a digit, whatever the radix; 99 stands for any other byte.
unfoldable pub digit_value : ℕ → ℕ
digit_value c =
    if leb b'0' c && leb c b'9'
    then c - b'0'
    else if leb b'a' c && leb c b'z'
    then c - b'a' + 10
    else if leb b'A' c && leb c b'Z'
    then c - b'A' + 10
    else 99

-- `char::to_digit`.
unfoldable pub to_digit : ℕ → ℕ → Option ℕ
unfolding digit_value
to_digit radix c = if ltb (digit_value c) radix then some (digit_value c) else none

-- The digits after `acc`, with the checked multiplication and addition of `from_str_radix`.
unfoldable pub scan_digits : ℕ → ℕ → Bytes → ℕ → Option ℕ
scan_digits radix max [] acc = some acc
scan_digits radix max (c ∷ cs) acc = elim (to_digit radix c) [
  | none ↦ none
  | some d ↦ if leb (acc * radix + d) max then scan_digits radix max cs (acc * radix + d) else none
]

-- What follows the sign must be there.
unfoldable pub scan_all : ℕ → ℕ → Bytes → Option ℕ
scan_all radix max [] = none
scan_all radix max (c ∷ cs) = scan_digits radix max (c ∷ cs) 0

-- `from_str_radix` of an unsigned type with the given maximum: one leading `+` is accepted.
unfoldable pub from_str_radix : ℕ → ℕ → Bytes → Option ℕ
unfolding scan_all
from_str_radix radix max [] = none
from_str_radix radix max (c ∷ cs) =
    if c == b'+' then scan_all radix max cs else scan_all radix max (c ∷ cs)

-- The digits of `n` before `out`, the last one first; `fuel` bounds their number.
unfoldable pub format_radix : ℕ → ℕ → (ℕ → ℕ) → ℕ → Bytes → Bytes
format_radix zero radix digit n out = out
format_radix (suc fuel) radix digit n out =
    let rest = format_radix fuel radix digit (n / radix) (digit (n % radix) ∷ out) in
    if ltb n radix then digit n ∷ out else rest

unfoldable pub upper_digit : ℕ → ℕ
upper_digit d = if ltb d 10 then b'0' + d else b'A' + (d - 10)

unfoldable pub lower_digit : ℕ → ℕ
lower_digit d = if ltb d 10 then b'0' + d else b'a' + (d - 10)

-- A text filled up with zeros on the left.
unfoldable pub pad_zeros : ℕ → Bytes → Bytes
pad_zeros width s = replicate (width - length s) b'0' ++ s

-- `{:X}` of a number below 2 ^ 64.
unfoldable pub format_upper_hex : ℕ → Bytes
unfolding format_radix upper_digit
format_upper_hex n = format_radix 16 16 upper_digit n []

-- `{}` of a number below 2 ^ 64.
unfoldable pub format_decimal : ℕ → Bytes
unfolding format_radix upper_digit
format_decimal n = format_radix 20 10 upper_digit n []

-- `{:02x}` of a byte.
unfoldable pub format_byte : ℕ → Bytes
unfolding lower_digit
format_byte b = lower_digit (b / 16) ∷ lower_digit (b % 16) ∷ []

-- `str::parse` of a signed type with the given maximum; the minimum is one further from zero.
unfoldable pub parse_signed : ℕ → Bytes → Option ℤ
unfolding scan_all
parse_signed max [] = none
parse_signed max (c ∷ cs) =
    if c == b'-'
    then Option.map neg_ℕ (scan_all 10 (max + 1) cs)
    else Option.map pos (from_str_radix 10 max (c ∷ cs))

abbrev pub max_i32 : ℕ
max_i32 = 2 ^ 31 - 1

abbrev pub max_i64 : ℕ
max_i64 = 2 ^ 63 - 1

pub digit-upper_digit :
    (radix d : ℕ) → d < radix → radix ≤ 16 → to_digit radix (upper_digit d) ≡ some d
unfolding to_digit upper_digit
digit-upper_digit radix d h r = ground arith

pub digit-lower_digit : (d : ℕ) → d < 16 → to_digit 16 (lower_digit d) ≡ some d
unfolding to_digit lower_digit
digit-lower_digit d h = ground arith

pub scan_digits-cons :
    (radix max c : ℕ) (cs : Bytes) (acc d : ℕ)
    → to_digit radix c ≡ some d
    → acc * radix + d ≤ max
    → scan_digits radix max (c ∷ cs) acc ≡ scan_digits radix max cs (acc * radix + d)
unfolding scan_digits
scan_digits-cons radix max c cs acc d e h = ground arith

div-lt-pow : (n radix fuel : ℕ) → 0 < radix → n < radix ^ suc fuel → n / radix < radix ^ fuel
div-lt-pow n radix fuel r h = (div-lt_iff_lt-mul r).1 (rw (pow-suc radix fuel) at h)

-- Reading the digits that `format_radix` wrote.
pub scan_digits-format_radix :
    (fuel radix max n : ℕ) (out : Bytes)
    → 1 < radix
    → radix ≤ 16
    → n < radix ^ fuel
    → n ≤ max
    → scan_digits radix max (format_radix fuel radix upper_digit n out) 0
      ≡ scan_digits radix max out n
unfolding format_radix
scan_digits-format_radix zero radix max n out r s h m =
    let e : n ≡ 0 = omega (arith, pow.zero radix) in rw e
scan_digits-format_radix (suc fuel) radix max n out r s h m = ground (
  arith,
  div-lt-pow n radix fuel,
  digit-upper_digit radix n,
  digit-upper_digit radix (n % radix),
  scan_digits-cons radix max (upper_digit n) out 0 n,
  scan_digits-cons radix max (upper_digit (n % radix)) out (n / radix) (n % radix),
  scan_digits-format_radix fuel radix max (n / radix) (upper_digit (n % radix) ∷ out),
)
