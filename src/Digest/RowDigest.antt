-- ===== src/Digest/RowDigest.antt =====
-- digest/row_digest.rs: `row_digest(enc int[], VARIADIC "any")`.
pub mod Laws
use pgl_validate.Base.{
  ℕ, ◌==◌, Bool, true, false, List, [], ◌∷◌, Option, none, some, Result, ok, err, panic, ◌>>=◌,
  if◌then◌else◌, length,
}
use pgl_validate.Base.Int.{ℤ}
use pgl_validate.Base.Text.{Bytes}
use pgl_validate.Digest.Blake3.{Blake3}
use pgl_validate.Digest.Algorithm.{HashAlgorithm, finalize_blake3}
use pgl_validate.Digest.Frame.{frame_value}
use pgl_validate.Digest.Encode.{EncodingMode, try_from, Postgres, FloatPolicy, encode_datum, expect}

-- One variadic argument.
pub record Argument (Datum : Type 0) : Type 0 where
  pub is_null : Bool
  pub datum : Datum
  pub type_oid : ℕ

-- The function-call information: no argument at all, or the array `enc`, which may be NULL and may
-- hold NULLs, and the variadic arguments.
pub data CallInfo (Datum : Type 0) : Type 0 where
  no_arguments : CallInfo Datum
  call : Option (List (Option ℤ)) → List (Argument Datum) → CallInfo Datum

-- One entry of `enc`: `expect`, `try_into` and `pgrx::error!`.
unfoldable pub to_mode : Option ℤ → Result EncodingMode
to_mode none = panic
to_mode (some value) = elim (try_from value) [ ok mode ↦ ok mode | err e ↦ panic | panic ↦ panic ]

unfoldable pub to_modes : List (Option ℤ) → Result (List EncodingMode)
unfolding to_mode
to_modes [] = ok []
to_modes (m ∷ ms) = do mode ← to_mode m; modes ← to_modes ms; ok (mode ∷ modes)

module _ (pg : Postgres) (policy : FloatPolicy) where
  open pg use {Datum, invalid_oid}

  -- The value that is framed for one argument.
  unfoldable pub encode_argument : Argument Datum → EncodingMode → Result (Option Bytes)
  encode_argument arg mode =
      if arg.is_null
      then ok none
      else if arg.type_oid == invalid_oid
      then panic
      else (encode_datum pg policy arg.type_oid arg.datum mode >>= λ encoded. ok (some encoded))

  -- The loop over the arguments; `modes[idx]` is in range since the lengths agree.
  unfoldable pub row_loop : Bytes → List EncodingMode → List (Argument Datum) → Result Bytes
  row_loop hasher modes [] = ok hasher
  row_loop hasher [] (arg ∷ args) = panic
  row_loop hasher (mode ∷ modes) (arg ∷ args) =
      encode_argument arg mode >>= λ value. row_loop (frame_value hasher value) modes args

  unfoldable pub row_digest : Blake3 → HashAlgorithm → CallInfo Datum → Result Bytes
  row_digest b algorithm no_arguments = panic
  row_digest b algorithm (call enc args) = do
    entries ← expect enc
    modes ← to_modes entries
    hasher ← (if length modes == length args then row_loop [] modes args else panic)
    ok (finalize_blake3 b algorithm hasher)
