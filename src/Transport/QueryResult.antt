-- ===== src/Transport/QueryResult.antt =====
-- transport/libpq.rs: `QueryResult`, the reading of a result that libpq returned.
use pgl_validate.Base.{
  ℕ, ◌==◌, ◌&&◌, Bool, false, Option, none, some, Error, Result, ok, err, ◌>>=◌, ◌>>◌, ok_or, guard,
  if◌then◌else◌, take,
}
use pgl_validate.Base.Int.{ℤ, pos, negsuc}
use pgl_validate.Base.Text.{Bytes}
use pgl_validate.Base.Utf8.{is_utf8}
use pgl_validate.Base.Digits.{parse_signed, max_i32, max_i64}

-- What the accessors of libpq say of one `PGresult`, which never changes.
pub record PgResult : Type 0 where
  -- `PQresultStatus`
  pub status : ℤ
  -- `PQntuples` and `PQnfields`
  pub ntuples : ℕ
  pub nfields : ℕ
  -- `PQgetisnull`, `PQgetvalue` with the memory behind the pointer, `PQgetlength`
  pub getisnull : ℕ → ℕ → Bool
  pub getvalue : ℕ → ℕ → Option Bytes
  pub getlength : ℕ → ℕ → ℤ

abbrev pub command_ok : ℤ
command_ok = pos 1

abbrev pub tuples_ok : ℤ
tuples_ok = pos 2

unfoldable pub same_int : ℤ → ℤ → Bool
same_int (pos m) (pos n) = m == n
same_int (negsuc m) (negsuc n) = m == n
same_int _ _ = false

unfoldable pub require_status : PgResult → ℤ → Result (Unit {0})
unfolding same_int
require_status r expected = guard (same_int r.status expected) Error.unexpected_status

-- The bytes at the pointer, of the length that libpq gives.
unfoldable pub value_bytes : Bytes → ℤ → ℕ → Result Bytes
unfolding is_utf8
value_bytes memory (negsuc n) column = err (Error.value_negative_length column)
value_bytes memory (pos len) column =
    if is_utf8 (take len memory) then ok (take len memory) else err (Error.value_not_utf8 column)

unfoldable pub value : PgResult → ℕ → ℕ → Result Bytes
unfolding value_bytes
value r row column =
    if r.getisnull row column
    then err (Error.value_null column)
    else (ok_or (r.getvalue row column) (Error.value_no_storage column) >>= λ memory.
        value_bytes memory (r.getlength row column) column)

unfoldable pub value_opt : PgResult → ℕ → ℕ → Result (Option Bytes)
value_opt r row column =
    if r.getisnull row column then ok none else (value r row column >>= λ v. ok (some v))

-- `result.ntuples() != 1 || result.nfields() != columns`.
unfoldable pub one_row : PgResult → ℕ → Result (Unit {0})
one_row r columns =
    guard (r.ntuples == 1 && r.nfields == columns) (Error.unexpected_shape r.ntuples r.nfields)

-- `result.nfields() != columns`.
unfoldable pub has_columns : PgResult → ℕ → Result (Unit {0})
has_columns r columns = guard (r.nfields == columns) (Error.unexpected_shape r.ntuples r.nfields)

unfoldable pub single_value : PgResult → Result Bytes
single_value r = require_status r tuples_ok >> one_row r 1 >> value r 0 0

-- `value.parse::<i32>()` and `value.parse::<i64>()` with their error.
unfoldable pub as_i32 : Bytes → Result ℤ
as_i32 text = ok_or (parse_signed max_i32 text) Error.bad_integer

unfoldable pub as_i64_text : Bytes → Result ℤ
as_i64_text text = ok_or (parse_signed max_i64 text) Error.bad_integer
