-- ===== src/Transport/Replies/Printed.antt =====
-- transport/libpq.rs: `parse_checksum_result` on the reply to `checksum_wrapper_sql`, which prints
-- numbers as decimal texts and bytes as hexadecimal ones.
use pgl_validate.Base.{
  ℕ, zero, suc, ◌/◌, ◌%◌, ◌^◌, ◌≤◌, ◌<◌, ltb, ◌≡◌, ◌≢◌, refl, true, false, Bool-cases, [], ◌∷◌,
  Option, none, some, ok, inl, inr, arith, length, take, ◌>>=◌,
}
use pgl_validate.Base.Int.{pos}
use pgl_validate.Base.Text.{Bytes, All, IsByte, codes, strip_prefix}
use pgl_validate.Base.Digits.{
  format_decimal, format_radix, format_byte, upper_digit, lower_digit, parse_signed, from_str_radix,
  scan_digits, max_i32, max_i64, scan_digits-format_radix,
}
use pgl_validate.Base.Hex.{hex_of}
use pgl_validate.Base.Hex.Laws.{hex_of-IsHexText}
use pgl_validate.Base.Utf8.{lead, continues, is_utf8}
use pgl_validate.Transport.Codec.{parse_hex, parse_hex_iff}
use pgl_validate.Transport.QueryResult.{
  PgResult, tuples_ok, same_int, require_status, one_row, value_bytes, value, value_opt, as_i32,
  as_i64_text,
}
use pgl_validate.Transport.Replies.{parse_opt}
use pgl_validate.Transport.Replies.Digest.{RemoteChecksum, parse_checksum_result}

-- A decimal digit.
abbrev pub IsDigit : ℕ → Type 0
IsDigit c = (b'0' ≤ c) × (c ≤ b'9')

abbrev IsAscii : ℕ → Type 0
IsAscii c = c < 128

format_radix-Digits :
    (fuel n : ℕ) (out : Bytes)
    → All IsDigit out
    → All IsDigit (format_radix fuel 10 upper_digit n out)
unfolding format_radix upper_digit
format_radix-Digits zero n out h = h
format_radix-Digits (suc fuel) n out h = elim (Bool-cases (ltb n 10)) [
  | inl last ↦ rw last (ground arith, h)
  | inr more ↦ rw more (format_radix-Digits fuel (n / 10) _ (ground arith, h))
]

format_radix-ne-nil :
    (fuel n : ℕ) (out : Bytes) → out ≢ [] → format_radix fuel 10 upper_digit n out ≢ []
unfolding format_radix
format_radix-ne-nil zero n out h = h
format_radix-ne-nil (suc fuel) n out h =
    ground (arith, format_radix-ne-nil fuel (n / 10) (upper_digit (n % 10) ∷ out))

decimal-ne-nil : (n : ℕ) → format_decimal n ≢ []
unfolding format_decimal format_radix
decimal-ne-nil n = ground (arith, format_radix-ne-nil 19 (n / 10) (upper_digit (n % 10) ∷ []))

Digits-IsAscii : (s : Bytes) → All IsDigit s → All IsAscii s
Digits-IsAscii [] h = tt
Digits-IsAscii (c ∷ s) h = (omega (arith, h.0.1), Digits-IsAscii s h.1)

-- Digits are read without a sign.
parse_signed-Digits :
    (max : ℕ) (s : Bytes) (n : ℕ)
    → s ≢ []
    → All IsDigit s
    → scan_digits 10 max s 0 ≡ some n
    → parse_signed max s ≡ some (pos n)
unfolding parse_signed from_str_radix
parse_signed-Digits max [] n ne h e = absurd (ne refl)
parse_signed-Digits max (c ∷ s) n ne h e = ground (arith, h.0, e)

pub parse_signed-format_decimal :
    (max n : ℕ) → n ≤ max → max < 10 ^ 20 → parse_signed max (format_decimal n) ≡ some (pos n)
unfolding format_decimal scan_digits
parse_signed-format_decimal max n h small =
    parse_signed-Digits max (format_decimal n) n (decimal-ne-nil n) (format_radix-Digits 20 n [] tt)
      (scan_digits-format_radix 20 10 max n [] (omega arith) (omega arith) (omega arith) h)

continues-IsAscii : (s : Bytes) → All IsAscii s → continues 0 0x80 0xbf s ≡ true
unfolding continues lead
continues-IsAscii [] h = refl
continues-IsAscii (c ∷ s) h = ground (arith, h.0, continues-IsAscii s h.1)

hex_of-IsAscii : (bs : Bytes) → All IsByte bs → All IsAscii (hex_of bs)
unfolding hex_of format_byte lower_digit
hex_of-IsAscii [] h = tt
hex_of-IsAscii (b ∷ bs) h = (ground arith, (ground arith, hex_of-IsAscii bs h.1))

hex_of-strip_prefix : (bs : Bytes) → All IsByte bs → strip_prefix (codes "\\x") (hex_of bs) ≡ none
unfolding hex_of format_byte lower_digit strip_prefix
hex_of-strip_prefix [] h = refl
hex_of-strip_prefix (b ∷ bs) h = ground arith

pub parse_hex-hex_of : (bs : Bytes) → All IsByte bs → parse_hex (hex_of bs) ≡ ok bs
parse_hex-hex_of bs h =
    (parse_hex_iff (hex_of bs) bs (hex_of-strip_prefix bs h)).0.1 (hex_of-IsHexText bs h)

-- The value at a place of the result is the text.
pub record Holds (r : PgResult) (column : ℕ) (text : Bytes) : Type 0 where
  pub not_null : r.getisnull 0 column ≡ false
  pub memory : Bytes
  pub stored : r.getvalue 0 column ≡ some memory
  pub long : r.getlength 0 column ≡ pos (length text)
  pub begins : take (length text) memory ≡ text

-- The row that the query returns, before it is printed.
pub record QueryRow : Type 0 where
  pub version : ℕ
  pub n_rows : ℕ
  pub lthash : Bytes
  pub set_hash : Option Bytes

-- A NULL, or the bytes in hexadecimal.
abbrev pub HoldsHex : PgResult → ℕ → Option Bytes → Type 0
HoldsHex r column none = r.getisnull 0 column ≡ true
HoldsHex r column (some bytes) = Holds r column (hex_of bytes)

-- The result of a query that returned the row, as `checksum_wrapper_sql` prints it.
pub record Prints (r : PgResult) (row : QueryRow) : Type 0 where
  pub returned : same_int r.status tuples_ok ≡ true
  pub tuples : r.ntuples ≡ 1
  pub fields : r.nfields ≡ 4
  pub version_text : Holds r 0 (format_decimal row.version)
  pub n_rows_text : Holds r 1 (format_decimal row.n_rows)
  pub lthash_text : Holds r 2 (hex_of row.lthash)
  pub set_hash_text : HoldsHex r 3 row.set_hash

abbrev pub AreBytes : Option Bytes → Type 0
AreBytes none = Unit
AreBytes (some bytes) = All IsByte bytes

-- The numbers fit their SQL types, and the others are bytes.
pub record FitsSql (row : QueryRow) : Type 0 where
  pub version_fits : row.version ≤ max_i32
  pub n_rows_fits : row.n_rows ≤ max_i64
  pub lthash_bytes : All IsByte row.lthash
  pub set_hash_bytes : AreBytes row.set_hash

abbrev pub checksum_of : QueryRow → RemoteChecksum
checksum_of row = record {
  pg_version = pos row.version;
  n_rows = pos row.n_rows;
  lthash = row.lthash;
  set_hash = row.set_hash;
}

value-Holds :
    (r : PgResult) (column : ℕ) (text : Bytes)
    → Holds r column text
    → All IsAscii text
    → value r 0 column ≡ ok text
unfolding value value_bytes is_utf8
value-Holds r column text h ascii =
    rw (h.not_null, h.stored, h.long, h.begins, continues-IsAscii text ascii) refl

pub decimal-Digits : (n : ℕ) → All IsDigit (format_decimal n)
unfolding format_decimal
decimal-Digits n = format_radix-Digits 20 n [] tt

decimal-IsAscii : (n : ℕ) → All IsAscii (format_decimal n)
decimal-IsAscii n = Digits-IsAscii (format_decimal n) (decimal-Digits n)

value_opt-HoldsHex :
    (r : PgResult) (column : ℕ) (o : Option Bytes)
    → HoldsHex r column o
    → AreBytes o
    → (value_opt r 0 column >>= parse_opt parse_hex) ≡ ok o
unfolding value_opt parse_opt
value_opt-HoldsHex r column none h bytes = rw h refl
value_opt-HoldsHex r column (some bs) h bytes =
    rw
      (
        h.not_null,
        value-Holds r column (hex_of bs) h (hex_of-IsAscii bs bytes),
        parse_hex-hex_of bs bytes,
      )
      refl

-- What the query returned is what `parse_checksum_result` reads from its printed result, when the
-- numbers fit their SQL types.
pub parse_checksum_result-Prints :
    (r : PgResult) (row : QueryRow)
    → Prints r row
    → FitsSql row
    → parse_checksum_result r ≡ ok (checksum_of row)
unfolding parse_checksum_result require_status one_row as_i32 as_i64_text value value_opt
parse_checksum_result-Prints r row p fits =
    rw
      (
        p.returned,
        p.tuples,
        p.fields,
        value-Holds r 0 _ p.version_text (decimal-IsAscii row.version),
        parse_signed-format_decimal max_i32 row.version fits.version_fits (omega arith),
        value-Holds r 1 _ p.n_rows_text (decimal-IsAscii row.n_rows),
        parse_signed-format_decimal max_i64 row.n_rows fits.n_rows_fits (omega arith),
        value-Holds r 2 _ p.lthash_text (hex_of-IsAscii row.lthash fits.lthash_bytes),
        parse_hex-hex_of row.lthash fits.lthash_bytes,
        value_opt-HoldsHex r 3 row.set_hash p.set_hash_text fits.set_hash_bytes,
      )
      refl
