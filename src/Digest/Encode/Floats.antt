-- ===== src/Digest/Encode/Floats.antt =====
-- Floating-point values that the policy takes for one have one encoding.
use pgl_validate.Base.{ℕ, ◌≡◌, ◌≢◌, refl, sym, ap, ◌∙◌, none, some, ◌>>=◌, arith}
use pgl_validate.Digest.Floats.{SameF32, SameF64, normalize_f32_iff, normalize_f64_iff}
use pgl_validate.Digest.Encode.{
  EncodingMode, send, text, jsonb_normalize, Postgres, FloatPolicy, encode_datum, normalize_f32,
  normalize_f64, normalize_float_datum, encode_normalized, array_first, encode_float_array,
}

-- The OIDs of the float types and of their arrays are different.
pub record HasFloatTypes (pg : Postgres) : Type 0 where
  pub float4_ne_array4 : pg.float4_oid ≢ pg.float4_array_oid
  pub float4_ne_array8 : pg.float4_oid ≢ pg.float8_array_oid
  pub float8_ne_array4 : pg.float8_oid ≢ pg.float4_array_oid
  pub float8_ne_array8 : pg.float8_oid ≢ pg.float8_array_oid
  pub float4_ne_float8 : pg.float4_oid ≢ pg.float8_oid

module _ (pg : Postgres) (policy : FloatPolicy) (types : HasFloatTypes pg) where
  open pg use {Datum, float4_oid, float8_oid, f32_from_datum, f64_from_datum}

  no_array4 : (mode : EncodingMode) (d : Datum) → array_first pg policy mode float4_oid d ≡ none
  unfolding array_first encode_float_array
  no_array4 send d = ground (arith, types.float4_ne_array4, types.float4_ne_array8)
  no_array4 text d = refl
  no_array4 jsonb_normalize d = refl

  no_array8 : (mode : EncodingMode) (d : Datum) → array_first pg policy mode float8_oid d ≡ none
  unfolding array_first encode_float_array
  no_array8 send d = ground (arith, types.float8_ne_array4, types.float8_ne_array8)
  no_array8 text d = refl
  no_array8 jsonb_normalize d = refl

  normalized4 :
      (d e : Datum) (u v : ℕ)
      → f32_from_datum d ≡ some u
      → f32_from_datum e ≡ some v
      → normalize_f32 policy u ≡ normalize_f32 policy v
      → normalize_float_datum pg policy float4_oid d ≡ normalize_float_datum pg policy float4_oid e
  unfolding normalize_float_datum
  normalized4 d e u v hd he same = ground arith

  normalized8 :
      (d e : Datum) (u v : ℕ)
      → f64_from_datum d ≡ some u
      → f64_from_datum e ≡ some v
      → normalize_f64 policy u ≡ normalize_f64 policy v
      → normalize_float_datum pg policy float8_oid d ≡ normalize_float_datum pg policy float8_oid e
  unfolding normalize_float_datum
  normalized8 d e u v hd he same = ground (arith, types.float4_ne_float8)

  scalar :
      (t : ℕ) (mode : EncodingMode) (d : Datum)
      → array_first pg policy mode t d ≡ none
      → encode_datum pg policy t d mode
        ≡ (normalize_float_datum pg policy t d >>= encode_normalized pg policy t mode)
  unfolding encode_datum
  scalar t mode d h = ground arith

  -- Two `float4` values that the policy takes for one are encoded alike in every mode, given that the
  -- OIDs of the float types and of their arrays are different.
  pub encode_datum-SameF32 :
      (mode : EncodingMode) (d e : Datum) (u v : ℕ)
      → f32_from_datum d ≡ some u
      → f32_from_datum e ≡ some v
      → SameF32 policy.signed_zero_distinct policy.nan_distinct u v
      → encode_datum pg policy float4_oid d mode ≡ encode_datum pg policy float4_oid e mode
  unfolding normalize_f32
  encode_datum-SameF32 mode d e u v hd he same =
      scalar float4_oid mode d (no_array4 mode d)
      ∙ ap (λ r. r >>= encode_normalized pg policy float4_oid mode)
          (normalized4 d e u v hd he ((normalize_f32_iff _ _ u v).1 same))
      ∙ sym (scalar float4_oid mode e (no_array4 mode e))

  -- Two `float8` values that the policy takes for one are encoded alike in every mode, given that the
  -- OIDs of the float types and of their arrays are different.
  pub encode_datum-SameF64 :
      (mode : EncodingMode) (d e : Datum) (u v : ℕ)
      → f64_from_datum d ≡ some u
      → f64_from_datum e ≡ some v
      → SameF64 policy.signed_zero_distinct policy.nan_distinct u v
      → encode_datum pg policy float8_oid d mode ≡ encode_datum pg policy float8_oid e mode
  unfolding normalize_f64
  encode_datum-SameF64 mode d e u v hd he same =
      scalar float8_oid mode d (no_array8 mode d)
      ∙ ap (λ r. r >>= encode_normalized pg policy float8_oid mode)
          (normalized8 d e u v hd he ((normalize_f64_iff _ _ u v).1 same))
      ∙ sym (scalar float8_oid mode e (no_array8 mode e))
