-- ===== src/Digest/Floats.antt =====
-- digest/encode.rs: the normalization of `float4` and `float8` values, on their bit patterns.
use pgl_validate.Base.{
  ℕ, ◌%◌, ◌^◌, ◌≡◌, ◌↔◌, ◌⊎◌, Bool, true, false, ◌&&◌, not, arith, ltb, ◌==◌, if◌then◌else◌,
}

-- `is_nan`: the exponent is all ones and the fraction is not zero, whatever the sign.
unfoldable pub is_nan_f32 : ℕ → Bool
is_nan_f32 bits = ltb 0x7f80_0000 (bits % 2 ^ 31)

unfoldable pub is_nan_f64 : ℕ → Bool
is_nan_f64 bits = ltb 0x7ff0_0000_0000_0000 (bits % 2 ^ 63)

-- `value == 0.0`, which holds of both zeros.
unfoldable pub is_zero_f32 : ℕ → Bool
is_zero_f32 bits = bits % 2 ^ 31 == 0

unfoldable pub is_zero_f64 : ℕ → Bool
is_zero_f64 bits = bits % 2 ^ 63 == 0

unfoldable pub normalize_f32_with_policy : ℕ → Bool → Bool → ℕ
normalize_f32_with_policy value signed_zero_distinct nan_distinct =
    if is_nan_f32 value && not nan_distinct
    then 0x7fc0_0000
    else if is_zero_f32 value && not signed_zero_distinct
    then 0
    else value

unfoldable pub normalize_f64_with_policy : ℕ → Bool → Bool → ℕ
normalize_f64_with_policy value signed_zero_distinct nan_distinct =
    if is_nan_f64 value && not nan_distinct
    then 0x7ff8_0000_0000_0000
    else if is_zero_f64 value && not signed_zero_distinct
    then 0
    else value

-- The values that the policy takes for one: equal bits, two zeros unless signed zeros are distinct,
-- and two NaNs unless NaNs are distinct.
abbrev pub SameF32 : Bool → Bool → ℕ → ℕ → Type 0
SameF32 signed_zero_distinct nan_distinct u v =
    (u ≡ v)
    ⊎ ((signed_zero_distinct ≡ false) × (is_zero_f32 u ≡ true) × (is_zero_f32 v ≡ true))
    ⊎ ((nan_distinct ≡ false) × (is_nan_f32 u ≡ true) × (is_nan_f32 v ≡ true))

abbrev pub SameF64 : Bool → Bool → ℕ → ℕ → Type 0
SameF64 signed_zero_distinct nan_distinct u v =
    (u ≡ v)
    ⊎ ((signed_zero_distinct ≡ false) × (is_zero_f64 u ≡ true) × (is_zero_f64 v ≡ true))
    ⊎ ((nan_distinct ≡ false) × (is_nan_f64 u ≡ true) × (is_nan_f64 v ≡ true))

-- Two `float4` values have the same normalized bits exactly when the policy takes them for one.
pub normalize_f32_iff :
    (z n : Bool) (u v : ℕ)
    → (normalize_f32_with_policy u z n ≡ normalize_f32_with_policy v z n) ↔ SameF32 z n u v
unfolding normalize_f32_with_policy is_nan_f32 is_zero_f32
normalize_f32_iff true true u v = (λ h. ground arith, λ h. ground arith)
normalize_f32_iff true false u v = (λ h. ground arith, λ h. ground arith)
normalize_f32_iff false true u v = (λ h. ground arith, λ h. ground arith)
normalize_f32_iff false false u v = (λ h. ground arith, λ h. ground arith)

-- Two `float8` values have the same normalized bits exactly when the policy takes them for one.
pub normalize_f64_iff :
    (z n : Bool) (u v : ℕ)
    → (normalize_f64_with_policy u z n ≡ normalize_f64_with_policy v z n) ↔ SameF64 z n u v
unfolding normalize_f64_with_policy is_nan_f64 is_zero_f64
normalize_f64_iff true true u v = (λ h. ground arith, λ h. ground arith)
normalize_f64_iff true false u v = (λ h. ground arith, λ h. ground arith)
normalize_f64_iff false true u v = (λ h. ground arith, λ h. ground arith)
normalize_f64_iff false false u v = (λ h. ground arith, λ h. ground arith)

-- Two `float4` values have the same normalized bits exactly when the policy takes them for one, and
-- so have two `float8` values.
pub normalize_iff :
    (z n : Bool) (u v : ℕ)
    → ((normalize_f32_with_policy u z n ≡ normalize_f32_with_policy v z n) ↔ SameF32 z n u v)
      × ((normalize_f64_with_policy u z n ≡ normalize_f64_with_policy v z n) ↔ SameF64 z n u v)
normalize_iff z n u v = (normalize_f32_iff z n u v, normalize_f64_iff z n u v)
