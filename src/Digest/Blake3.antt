-- ===== src/Digest/Blake3.antt =====
-- The crate `blake3`, of which the program uses the incremental hasher and its extendable output.
-- A hasher is the list of the bytes that it has absorbed: `update` appends to it.
use pgl_validate.Base.{ℕ, ◌≡◌}
use pgl_validate.Base.{length, ◌++◌}
use pgl_validate.Base.Text.{Bytes, All, IsByte}

pub record Blake3 : Type 0 where
  -- `finalize` of a hasher that absorbed the bytes.
  pub finalize : Bytes → Bytes
  -- `finalize_xof` of such a hasher, with the first bytes of its output taken by `fill`.
  pub finalize_xof : Bytes → ℕ → Bytes

-- What the documentation of the crate says of the outputs' lengths.
pub record IsBlake3 (b : Blake3) : Type 0 where
  pub length_hash : (m : Bytes) → length (b.finalize m) ≡ 32
  pub bytes_hash : (m : Bytes) → All IsByte (b.finalize m)
  pub length_xof : (m : Bytes) (n : ℕ) → length (b.finalize_xof m n) ≡ n
  pub bytes_xof : (m : Bytes) (n : ℕ) → All IsByte (b.finalize_xof m n)

-- `Hasher::update`.
abbrev pub update : Bytes → Bytes → Bytes
update hasher bytes = hasher ++ bytes
