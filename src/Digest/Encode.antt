-- ===== src/Digest/Encode.antt =====
-- digest/encode.rs: the encoding of a PostgreSQL value for the row digest. `panic` is an ERROR that
-- `pgrx::error!` raises or a Rust panic, which pgrx turns into one.
pub mod Floats
pub mod Layout
pub mod Arrays
pub mod Tests
use pgl_validate.Base.{
  ℕ, zero, suc, ◌==◌, ◌&&◌, not, Bool, true, false, List, [], ◌∷◌, ◌++◌, Option, none, some, Error,
  Result, ok, err, panic, ◌>>=◌, if◌then◌else◌, take, drop, get_or, length, ◌%◌, ◌^◌,
}
use pgl_validate.Base.Int.{ℤ, pos, negsuc}
use pgl_validate.Base.Text.{Bytes, codes, contains_char}
use pgl_validate.Base.Words.{to_le, i32_bits}
use pgl_validate.Digest.Floats.{normalize_f32_with_policy, normalize_f64_with_policy}

pub data EncodingMode : Type 0 where
  send text jsonb_normalize : EncodingMode

-- `TryFrom<i32>`.
unfoldable pub try_from : ℤ → Result EncodingMode
try_from (pos n) =
    if n == 1
    then ok send
    else if n == 2
    then ok text
    else if n == 3
    then ok jsonb_normalize
    else err Error.unknown_encoding_mode
try_from (negsuc n) = err Error.unknown_encoding_mode

-- What `deconstruct_array` and the header of a detoasted array give.
pub record FloatArray (Datum : Type 0) : Type 0 where
  pub elemtype : ℕ
  pub ndim : ℤ
  -- the words of memory behind the header: the dimensions, then the lower bounds
  pub words : List ℤ
  pub elements : List Datum
  -- `none` is the null pointer
  pub nulls : Option (List Bool)

-- The functions and constants of PostgreSQL and pgrx that the encoders call.
pub record Postgres : Type 1 where
  pub Datum : Type 0
  pub json_oid : ℕ
  pub jsonb_oid : ℕ
  pub float4_oid : ℕ
  pub float8_oid : ℕ
  pub float4_array_oid : ℕ
  pub float8_array_oid : ℕ
  pub invalid_oid : ℕ
  -- `getTypeBinaryOutputInfo`, `getTypeOutputInfo`, `getTypeInputInfo`: the function's OID, and for
  -- the last one its parameter
  pub binary_output_info : ℕ → ℕ
  pub output_info : ℕ → ℕ
  pub input_info : ℕ → ℕ × ℕ
  -- the calls of such functions; `none` is a null result
  pub send_call : ℕ → Datum → Option Bytes
  pub output_call : ℕ → Datum → Option Bytes
  pub input_call : ℕ → Bytes → ℕ → Datum
  -- `from_datum` and `into_datum` of the floats, by their bits
  pub f32_from_datum : Datum → Option ℕ
  pub f32_into_datum : ℕ → Option Datum
  pub f64_from_datum : Datum → Option ℕ
  pub f64_into_datum : ℕ → Option Datum
  -- `pg_detoast_datum_copy` as an array
  pub detoast : Datum → Option (FloatArray Datum)

-- The two settings that the normalization reads.
pub record FloatPolicy : Type 0 where
  pub signed_zero_distinct : Bool
  pub nan_distinct : Bool

-- `expect`, and `unwrap_or_else` with `pgrx::error!`.
abbrev pub expect {ℓ} : {A : Type ℓ} → Option A → Result A
expect none = panic
expect (some a) = ok a

unfoldable pub normalize_f32 : FloatPolicy → ℕ → ℕ
normalize_f32 p value = normalize_f32_with_policy value p.signed_zero_distinct p.nan_distinct

unfoldable pub normalize_f64 : FloatPolicy → ℕ → ℕ
normalize_f64 p value = normalize_f64_with_policy value p.signed_zero_distinct p.nan_distinct

-- `usize::try_from(n).expect(..)`.
unfoldable pub to_usize : ℤ → Result ℕ
to_usize (pos n) = ok n
to_usize (negsuc n) = panic

-- `to_le_bytes` of each `i32`.
unfoldable pub i32_words : List ℤ → Bytes
i32_words [] = []
i32_words (z ∷ zs) = to_le 4 (i32_bits z) ++ i32_words zs

-- `!nulls.is_null() && *nulls.add(index)`.
unfoldable pub null_at : Option (List Bool) → ℕ → Bool
null_at none index = false
null_at (some flags) index = get_or flags index false

-- One element: a tag, and the bytes of an element that is not null.
unfoldable pub encode_element : {D : Type 0} → (D → Result Bytes) → Bool → D → Result Bytes
encode_element encode true d = ok (0x00 ∷ [])
encode_element encode false d = encode d >>= λ bytes. ok (0x01 ∷ bytes)

-- The element loop from `index`.
unfoldable pub encode_elements :
    {D : Type 0} → (D → Result Bytes) → Option (List Bool) → ℕ → List D → Result Bytes
encode_elements encode nulls index [] = ok []
encode_elements encode nulls index (d ∷ ds) = do
  first ← encode_element encode (null_at nulls index) d
  rest ← encode_elements encode nulls (suc index) ds
  ok (first ++ rest)

-- The bytes of the detoasted array.
unfoldable pub encode_float_array_with :
    {D : Type 0} → Option (FloatArray D) → ℕ → Bytes → (D → Result Bytes) → Result Bytes
encode_float_array_with none element_oid tag encode = panic
encode_float_array_with (some array) element_oid tag encode =
    if array.elemtype == element_oid
    then (to_usize array.ndim >>= λ ndim.
        let dims = take ndim array.words in
        let lower_bounds = take ndim (drop ndim array.words) in
        encode_elements encode array.nulls 0 array.elements >>= λ elements. ok (
          codes "pgl_validate.float_array.v1"
          ++ (tag
              ++ (to_le 4 (i32_bits array.ndim)
                  ++ (to_le 4 (length array.elements % 2 ^ 32)
                      ++ (i32_words dims ++ (i32_words lower_bounds ++ elements)))))))
    else panic

module _ (pg : Postgres) (policy : FloatPolicy) where
  open pg use {
    Datum, json_oid, jsonb_oid, float4_oid, float8_oid, float4_array_oid, float8_array_oid,
    invalid_oid, binary_output_info, output_info, input_info, send_call, output_call, input_call,
    f32_from_datum, f32_into_datum, f64_from_datum, f64_into_datum, detoast,
  }

  unfoldable pub encode_float4_array_element : Datum → Result Bytes
  encode_float4_array_element datum =
      expect (f32_from_datum datum) >>= λ value. ok (to_le 4 (normalize_f32 policy value))

  unfoldable pub encode_float8_array_element : Datum → Result Bytes
  encode_float8_array_element datum =
      expect (f64_from_datum datum) >>= λ value. ok (to_le 8 (normalize_f64 policy value))

  -- `none` for a type that is no array of floats.
  unfoldable pub encode_float_array : ℕ → Datum → Option (Result Bytes)
  encode_float_array type_oid datum =
      if type_oid == float4_array_oid
      then some (
          encode_float_array_with (detoast datum) float4_oid (codes "f4")
            encode_float4_array_element)
      else if type_oid == float8_array_oid
      then some (
          encode_float_array_with (detoast datum) float8_oid (codes "f8")
            encode_float8_array_element)
      else none

  unfoldable pub normalize_float_datum : ℕ → Datum → Result Datum
  normalize_float_datum type_oid datum =
      if type_oid == float4_oid
      then (expect (f32_from_datum datum) >>= λ v. expect (f32_into_datum (normalize_f32 policy v)))
      else if type_oid == float8_oid
      then (expect (f64_from_datum datum) >>= λ v. expect (f64_into_datum (normalize_f64 policy v)))
      else ok datum

  unfoldable pub encode_send : ℕ → Datum → Result Bytes
  encode_send type_oid datum =
      let send_oid = binary_output_info type_oid in
      if send_oid == invalid_oid then panic else expect (send_call send_oid datum)

  unfoldable pub encode_text : ℕ → Datum → Result Bytes
  encode_text type_oid datum =
      let output_oid = output_info type_oid in
      if output_oid == invalid_oid then panic else expect (output_call output_oid datum)

  unfoldable pub encode_json_as_jsonb : ℕ → Datum → Result Bytes
  encode_json_as_jsonb type_oid datum =
      if type_oid == json_oid
      then (encode_text json_oid datum >>= λ json_text.
          if contains_char 0 json_text
          then panic
          else let (input_oid, type_io_param) = input_info jsonb_oid in
            if input_oid == invalid_oid
            then panic
            else encode_send jsonb_oid (input_call input_oid json_text type_io_param))
      else panic

  -- The encoders that follow the normalization.
  unfoldable pub encode_normalized : ℕ → EncodingMode → Datum → Result Bytes
  encode_normalized type_oid send datum = encode_send type_oid datum
  encode_normalized type_oid text datum = encode_text type_oid datum
  encode_normalized type_oid jsonb_normalize datum = encode_json_as_jsonb type_oid datum

  -- `mode == EncodingMode::Send`.
  unfoldable pub array_first : EncodingMode → ℕ → Datum → Option (Result Bytes)
  array_first send type_oid datum = encode_float_array type_oid datum
  array_first _ type_oid datum = none

  unfoldable pub encode_datum : ℕ → Datum → EncodingMode → Result Bytes
  encode_datum type_oid datum mode = elim (array_first mode type_oid datum) [
    | some encoded ↦ encoded
    | none ↦ normalize_float_datum type_oid datum >>= encode_normalized type_oid mode
  ]
