-- ===== src/Base/Bits.antt =====
-- `|` of two disjoint fields and `&` with a mask of low ones, as sums and remainders.
use Prim.Native.Nat.{min, max, digits, bit_and, bit_or, bit_and-bitwise, bit_or-bitwise}
use Prim.Native.Nat.pow
use native.Mathlib.Nat.{pow-suc, le_refl, one-le-pow, div-add-mod}
use mathlib.Core.Path.{◌≡◌, refl, ap}
use native.Mathlib.Omega.{arith}
use Prim.Native.Nat.{ℕ, zero, suc, ◌+◌, ◌-◌, ◌*◌, ◌/◌, ◌%◌, ◌^◌, ◌≤◌, ◌<◌}

-- The digit recursion does not depend on its fuel, if there is enough of it.
module _ (z : ℕ → ℕ) (f : ℕ → ℕ → ℕ) where
  enough_fuel : (j k a b : ℕ) → a ≤ j → a ≤ k → digits z f j a b ≡ digits z f k a b
  enough_fuel zero zero a b hj hk = refl
  enough_fuel (suc j) zero zero b hj hk = refl
  enough_fuel (suc j) zero (suc a) b hj hk = absurd (omega arith)
  enough_fuel zero (suc k) zero b hj hk = refl
  enough_fuel zero (suc k) (suc a) b hj hk = absurd (omega arith)
  enough_fuel (suc j) (suc k) zero b hj hk = refl
  enough_fuel (suc j) (suc k) (suc a) b hj hk =
      let half = enough_fuel j k (suc a / 2) (b / 2) (omega arith) (omega arith) in
      ap (λ (t : ℕ). t * 2 + f (suc a % 2) (b % 2)) half

or_low : (a b : ℕ) → bit_or a b ≡ bit_or (a / 2) (b / 2) * 2 + max (a % 2) (b % 2)
or_low zero b = omega (arith, bit_or-bitwise 0 b, bit_or-bitwise 0 (b / 2))
or_low (suc a) b = omega (
  arith,
  bit_or-bitwise (suc a) b,
  bit_or-bitwise (suc a / 2) (b / 2),
  enough_fuel (λ y. y) max a (suc a / 2) (suc a / 2) (b / 2) (omega arith) (le_refl _),
)

and_low : (a b : ℕ) → bit_and a b ≡ bit_and (a / 2) (b / 2) * 2 + min (a % 2) (b % 2)
and_low zero b = omega (arith, bit_and-bitwise 0 b, bit_and-bitwise 0 (b / 2))
and_low (suc a) b = omega (
  arith,
  bit_and-bitwise (suc a) b,
  bit_and-bitwise (suc a / 2) (b / 2),
  enough_fuel (λ y. 0) min a (suc a / 2) (suc a / 2) (b / 2) (omega arith) (le_refl _),
)

or_none : (fuel a : ℕ) → a ≤ fuel → bit_or a 0 ≡ a
or_none fuel zero h = refl
or_none zero (suc a) h = absurd (omega arith)
or_none (suc fuel) (suc a) h =
    omega (arith, or_low (suc a) 0, or_none fuel (suc a / 2) (omega arith))

and_none : (fuel a : ℕ) → a ≤ fuel → bit_and a 0 ≡ 0
and_none fuel zero h = refl
and_none zero (suc a) h = absurd (omega arith)
and_none (suc fuel) (suc a) h =
    omega (arith, and_low (suc a) 0, and_none fuel (suc a / 2) (omega arith))

-- A field above `k` bits and one of `k` bits.
pub bit_or-add : (k high low : ℕ) → low < 2 ^ k → bit_or (high * 2 ^ k) low ≡ high * 2 ^ k + low
bit_or-add zero high low h = ground (arith, pow.zero 2, or_none high high)
bit_or-add (suc k) high low h = ground (
  arith,
  or_low (high * 2 ^ suc k) low,
  ap (λ (t : ℕ). high * t) (pow-suc 2 k),
  pow-suc 2 k,
  bit_or-add k high (low / 2),
)

mod_halves : (a p : ℕ) → 0 < p → a % (p * 2) ≡ a / 2 % p * 2 + a % 2
mod_halves a p h = grind (arith, div-add-mod (a / 2) p)

-- The lowest `k` bits.
pub bit_and-mod : (k a : ℕ) → bit_and a (2 ^ k - 1) ≡ a % 2 ^ k
bit_and-mod zero a = ground (arith, pow.zero 2, and_none a a)
bit_and-mod (suc k) a = ground (
  arith,
  and_low a (2 ^ suc k - 1),
  pow-suc 2 k,
  one-le-pow k 2,
  bit_and-mod k (a / 2),
  mod_halves a (2 ^ k),
)
