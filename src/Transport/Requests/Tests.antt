-- ===== src/Transport/Requests/Tests.antt =====
-- Results that print a row, and the theorems on the reading of a checksum applied to them.
use pgl_validate.Base.{
  ℕ, zero, suc, ◌≡◌, refl, Bool, true, false, Bool-cases, inl, inr, [], ◌∷◌, Option, none, some, ok,
  length, take, arith, if◌then◌else◌,
}
use pgl_validate.Base.Int.{pos}
use pgl_validate.Base.Text.{Bytes, codes, bytes_eq, contains_char}
use pgl_validate.Base.Text.Laws.{bytes_eq_refl, bytes_eq_sound}
use pgl_validate.Base.Digits.{format_decimal}
use pgl_validate.Base.Hex.{hex_of}
use pgl_validate.Transport.QueryResult.{PgResult, same_int}
use pgl_validate.Transport.Session.{Libpq}
use pgl_validate.Transport.Target.{Target}
use pgl_validate.Transport.Requests.Digest.{checksum_wrapper_sql, fetch_checksum}
use pgl_validate.Transport.Requests.Answers.{Serves, fetch_checksum-Serves}
use pgl_validate.Transport.Replies.Digest.{parse_checksum_result}
use pgl_validate.Transport.Replies.Printed.{
  QueryRow, HoldsHex, Prints, FitsSql, checksum_of, parse_checksum_result-Prints,
}

-- The result of `checksum_wrapper_sql` for a row.
abbrev field_text : QueryRow → ℕ → Option Bytes
field_text row zero = some (format_decimal row.version)
field_text row (suc zero) = some (format_decimal row.n_rows)
field_text row (suc (suc zero)) = some (hex_of row.lthash)
field_text row _ = hex_text row.set_hash
  where
    hex_text : Option Bytes → Option Bytes
    hex_text none = none
    hex_text (some bytes) = some (hex_of bytes)

abbrev text_length : Option Bytes → ℕ
text_length none = 0
text_length (some text) = length text

abbrev is_null : Option Bytes → Bool
is_null none = true
is_null (some text) = false

abbrev pub print_row : QueryRow → PgResult
print_row row = record {
  status = pos 2;
  ntuples = 1;
  nfields = 4;
  getisnull = λ r column. is_null (field_text row column);
  getvalue = λ r column. field_text row column;
  getlength = λ r column. pos (text_length (field_text row column));
}

take-length : (text : Bytes) → take (length text) text ≡ text
take-length [] = refl
take-length (c ∷ text) = rw (take-length text)

set_hash-HoldsHex :
    (v n : ℕ) (h : Bytes) (o : Option Bytes)
    → HoldsHex (print_row (record { version = v; n_rows = n; lthash = h; set_hash = o })) 3 o
set_hash-HoldsHex v n h none = refl
set_hash-HoldsHex v n h (some bytes) = record {
  not_null = refl;
  memory = hex_of bytes;
  stored = refl;
  long = refl;
  begins = take-length _;
}

pub print_row-Prints : (row : QueryRow) → Prints (print_row row) row
unfolding same_int
print_row-Prints row = record {
  returned = refl;
  tuples = refl;
  fields = refl;
  version_text = record {
    not_null = refl;
    memory = _;
    stored = refl;
    long = refl;
    begins = take-length _;
  };
  n_rows_text = record {
    not_null = refl;
    memory = _;
    stored = refl;
    long = refl;
    begins = take-length _;
  };
  lthash_text = record {
    not_null = refl;
    memory = _;
    stored = refl;
    long = refl;
    begins = take-length _;
  };
  set_hash_text = set_hash-HoldsHex row.version row.n_rows row.lthash row.set_hash;
}

abbrev small_row : QueryRow
small_row = record { version = 170002; n_rows = 3; lthash = 0 ∷ 255 ∷ []; set_hash = some (7 ∷ []) }

small_row-FitsSql : FitsSql small_row
small_row-FitsSql = record {
  version_fits = omega arith;
  n_rows_fits = omega arith;
  lthash_bytes = (omega arith, (omega arith, tt));
  set_hash_bytes = (omega arith, tt);
}

parse_checksum_result-Prints_example :
    parse_checksum_result (print_row small_row) ≡ ok (checksum_of small_row)
parse_checksum_result-Prints_example =
    parse_checksum_result-Prints (print_row small_row) small_row (print_row-Prints small_row)
      small_row-FitsSql

abbrev done_result : PgResult
done_result = record {
  status = pos 1;
  ntuples = 0;
  nfields = 0;
  getisnull = λ r column. true;
  getvalue = λ r column. none;
  getlength = λ r column. pos 0;
}

abbrev asked : Bytes
asked = checksum_wrapper_sql (codes "SELECT 1")

abbrev serving : Libpq
serving = record {
  on_connectdb = λ t dsn. some (pos 0);
  on_exec = λ t sql. some (if bytes_eq sql asked then print_row small_row else done_result);
  on_setnonblocking = λ t enabled. pos 0;
  on_send_query = λ t sql. pos 0;
  on_socket = λ t. pos 0;
  on_consume_input = λ t. pos 0;
  on_is_busy = λ t. pos 0;
  on_get_result = λ t. none;
}

serving-Serves : Serves serving asked (print_row small_row)
unfolding same_int
serving-Serves = record {
  accepts = λ t dsn. refl;
  does = λ t command other. elim (Bool-cases (bytes_eq command asked)) [
    | inl e ↦ absurd (other (bytes_eq_sound command asked e))
    | inr e ↦ (done_result, rw e refl, refl)
  ];
  answers = λ t. rw (bytes_eq_refl asked) refl;
}

abbrev host : Target
host = record {
  dsn = codes "host=a";
  connect_timeout_seconds = pos 5;
  statement_timeout_ms = pos 7;
  lock_timeout_ms = pos 7;
}

fetch_checksum-Serves_example :
    (fetch_checksum serving host (codes "SELECT 1") []).0 ≡ ok (checksum_of small_row)
unfolding contains_char
fetch_checksum-Serves_example =
    fetch_checksum-Serves serving (codes "SELECT 1") (print_row small_row) serving-Serves host []
      small_row refl refl refl refl refl (print_row-Prints small_row) small_row-FitsSql
