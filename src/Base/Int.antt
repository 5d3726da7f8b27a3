-- ===== src/Base/Int.antt =====
-- Signed integers over the native numbers, and the conversions of Rust between `u64`, `i64` and
-- `i32`.
use Prim.Native.Nat.{ℕ, zero, suc, ◌+◌, ◌-◌, ◌^◌, ◌≤◌, ◌<◌}
use mathlib.Core.Path.{◌≡◌}
use mathlib.Core.Bool.{Bool, true}
use mathlib.Core.Option.{Option, none, some}
use native.Mathlib.Omega.{arith}
use pgl_validate.Base.Tests.{ltb, if◌then◌else◌}

-- `negsuc n` is -(n + 1).
pub data ℤ : Type 0 where
  pos : ℕ → ℤ
  negsuc : ℕ → ℤ

abbrev pub pos_part : ℤ → ℕ
pos_part (pos n) = n
pos_part (negsuc n) = 0

abbrev pub neg_part : ℤ → ℕ
neg_part (pos n) = 0
neg_part (negsuc n) = suc n

infix 50 ◌≤ℤ◌
abbrev pub ◌≤ℤ◌ : ℤ → ℤ → Type 0
a ≤ℤ b = pos_part a + neg_part b ≤ pos_part b + neg_part a

abbrev pub ltb_ℤ : ℤ → ℤ → Bool
ltb_ℤ a b = ltb (pos_part a + neg_part b) (pos_part b + neg_part a)

-- -m.
abbrev pub neg_ℕ : ℕ → ℤ
neg_ℕ zero = pos 0
neg_ℕ (suc m) = negsuc m

-- `value > 0`.
abbrev pub is_positive : ℤ → Bool
is_positive (pos n) = ltb 0 n
is_positive (negsuc n) = ltb 0 0

-- `x as i64` of a `u64`: the same 64 bits, read with a sign.
unfoldable pub as_i64 : ℕ → ℤ
as_i64 w = if ltb w (2 ^ 63) then pos w else negsuc (2 ^ 64 - w - 1)

-- `u64::try_from` of an `i64`.
unfoldable pub u64_try_from : ℤ → Option ℕ
u64_try_from (pos n) = some n
u64_try_from (negsuc n) = none

-- A value of `i32`, and one of `i64`.
abbrev pub IsI32 : ℤ → Type 0
IsI32 z = (pos_part z < 2 ^ 31) × (neg_part z ≤ 2 ^ 31)

abbrev pub IsI64 : ℤ → Type 0
IsI64 z = (pos_part z < 2 ^ 63) × (neg_part z ≤ 2 ^ 63)

-- The cast keeps every number below 2 ^ 63 and makes every other one negative.
pub u64_try_from-as_i64 :
    (w : ℕ) → w < 2 ^ 64 → u64_try_from (as_i64 w) ≡ (if ltb w (2 ^ 63) then some w else none)
unfolding as_i64 u64_try_from
u64_try_from-as_i64 w h = ground arith

pub is_positive-pos_part : (n : ℤ) → is_positive n ≡ true → 0 < pos_part n
is_positive-pos_part (pos n) h = ground arith
is_positive-pos_part (negsuc n) h = ground arith
