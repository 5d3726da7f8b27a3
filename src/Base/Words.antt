-- ===== src/Base/Words.antt =====
-- `to_le_bytes` of the unsigned and signed integers of Rust.
use Prim.Native.Nat.pow
use native.Mathlib.Nat.{pow-suc, div-lt_iff_lt-mul}
use pgl_validate.Base.{
  ℕ, zero, suc, ◌-◌, ◌/◌, ◌%◌, ◌^◌, ◌<◌, ◌≡◌, refl, ap, [], ◌∷◌, arith, length, cons_inj,
}
use pgl_validate.Base.Int.{ℤ, pos, negsuc, IsI32}
use pgl_validate.Base.Text.{Bytes}

-- The `k` bytes of `n`, the lowest first.
unfoldable pub to_le : ℕ → ℕ → Bytes
to_le zero n = []
to_le (suc k) n = n % 256 ∷ to_le k (n / 256)

-- `x as u32` of an `i32`: the same 32 bits.
unfoldable pub i32_bits : ℤ → ℕ
i32_bits (pos n) = n % 2 ^ 32
i32_bits (negsuc n) = (2 ^ 32 - 1 - n) % 2 ^ 32

pub length-to_le : (k n : ℕ) → length (to_le k n) ≡ k
unfolding to_le
length-to_le zero n = refl
length-to_le (suc k) n = ap suc (length-to_le k (n / 256))

div-lt-pow_256 : (k n : ℕ) → n < 256 ^ suc k → n / 256 < 256 ^ k
div-lt-pow_256 k n h = (div-lt_iff_lt-mul (omega arith)).1 (rw (pow-suc 256 k) at h)

pub to_le_inj : (k n m : ℕ) → n < 256 ^ k → m < 256 ^ k → to_le k n ≡ to_le k m → n ≡ m
unfolding to_le
to_le_inj zero n m hn hm e = omega (arith, pow.zero 256)
to_le_inj (suc k) n m hn hm e =
    let (p, q) = cons_inj e in
    omega
      (arith, p, to_le_inj k (n / 256) (m / 256) (div-lt-pow_256 k n hn) (div-lt-pow_256 k m hm) q)

pub i32_bits-lt : (z : ℤ) → i32_bits z < 2 ^ 32
unfolding i32_bits
i32_bits-lt (pos n) = omega arith
i32_bits-lt (negsuc n) = omega arith

pub i32_bits_inj : (y z : ℤ) → IsI32 y → IsI32 z → i32_bits y ≡ i32_bits z → y ≡ z
unfolding i32_bits
i32_bits_inj y z hy hz e = ground arith
