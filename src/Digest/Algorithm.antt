-- ===== src/Digest/Algorithm.antt =====
-- digest/algorithm.rs: the digest algorithms, and the confirmation digest of digest/lthash.rs.
pub mod Laws
use pgl_validate.Base.{ℕ, List, [], ◌∷◌, ◌++◌, Error, Result, ok, err, if◌then◌else◌}
use pgl_validate.Base.Text.{Bytes, codes, bytes_eq}
use pgl_validate.Digest.Blake3.{Blake3, update}

pub data HashAlgorithm : Type 0 where
  blake3_256 blake3_512 : HashAlgorithm

unfoldable pub parse : Bytes → Result HashAlgorithm
parse name =
    if bytes_eq name (codes "blake3_256")
    then ok blake3_256
    else if bytes_eq name (codes "blake3_512")
    then ok blake3_512
    else err Error.unknown_algorithm

unfoldable pub output_bytes : HashAlgorithm → ℕ
output_bytes blake3_256 = 32
output_bytes blake3_512 = 64

-- The digest of what the hasher absorbed, at the width of the algorithm.
unfoldable pub finalize_blake3 : Blake3 → HashAlgorithm → Bytes → Bytes
finalize_blake3 b blake3_256 hasher = b.finalize hasher
finalize_blake3 b blake3_512 hasher = b.finalize_xof hasher (output_bytes blake3_512)

-- The loop of `hash_digest_array`: one `update` for each digest.
unfoldable pub absorb_digests : Bytes → List Bytes → Bytes
absorb_digests hasher [] = hasher
absorb_digests hasher (d ∷ ds) = absorb_digests (update hasher d) ds

unfoldable pub hash_digest_array : Blake3 → List Bytes → HashAlgorithm → Bytes
hash_digest_array b digests algorithm = finalize_blake3 b algorithm (absorb_digests [] digests)
