-- ===== src/Digest/Algorithm/Laws.antt =====
-- Facts about the digest algorithms.
use pgl_validate.Base.{
  ℕ, ◌≡◌, ◌≢◌, ◌↔◌, ◌⊎◌, inl, inr, refl, sym, ap, ◌∙◌, List, [], ◌∷◌, ◌++◌, append_assoc,
  append-nil, append_split, arith, ◌≤◌, ◌<◌, length, length-append, ok, Bool-cases,
}
use pgl_validate.Base.Text.{Bytes, codes, bytes_eq, All}
use pgl_validate.Base.Text.Laws.{bytes_eq_sound, bytes_ne}
use pgl_validate.Digest.Blake3.{Blake3, IsBlake3}
use pgl_validate.Digest.Algorithm.{
  HashAlgorithm, blake3_256, blake3_512, parse, output_bytes, finalize_blake3, absorb_digests,
  hash_digest_array,
}

-- The name of an algorithm in the setting.
abbrev pub name_of : HashAlgorithm → Bytes
name_of blake3_256 = codes "blake3_256"
name_of blake3_512 = codes "blake3_512"

parse-name_of : (a : HashAlgorithm) → parse (name_of a) ≡ ok a
unfolding parse bytes_eq
parse-name_of blake3_256 = refl
parse-name_of blake3_512 = refl

parse_sound : (name : Bytes) (a : HashAlgorithm) → parse name ≡ ok a → name ≡ name_of a
unfolding parse
parse_sound name blake3_256 h = bytes_eq_sound name (name_of blake3_256) (ground arith)
parse_sound name blake3_512 h = bytes_eq_sound name (name_of blake3_512) (ground arith)

-- `parse` accepts exactly the names of the two algorithms.
pub parse_iff : (name : Bytes) (a : HashAlgorithm) → (parse name ≡ ok a) ↔ (name ≡ name_of a)
parse_iff name a = (parse_sound name a, λ e. rw e (parse-name_of a))

pub length-finalize_blake3 :
    (b : Blake3) (a : HashAlgorithm) (hasher : Bytes)
    → IsBlake3 b
    → length (finalize_blake3 b a hasher) ≡ output_bytes a
unfolding finalize_blake3 output_bytes
length-finalize_blake3 b blake3_256 hasher h = h.length_hash hasher
length-finalize_blake3 b blake3_512 hasher h = h.length_xof hasher 64

-- Two messages are a collision: they are different and have one digest of the algorithm's width.
abbrev pub Collide : Blake3 → HashAlgorithm → Bytes → Bytes → Type 0
Collide b a m n = (m ≢ n) × (finalize_blake3 b a m ≡ finalize_blake3 b a n)

-- Equal digests come from equal messages, or the messages are a collision.
pub equal_or_Collide :
    (b : Blake3) (a : HashAlgorithm) (m n : Bytes)
    → finalize_blake3 b a m ≡ finalize_blake3 b a n
    → (m ≡ n) ⊎ Collide b a m n
equal_or_Collide b a m n e = elim (Bool-cases (bytes_eq m n)) [
  | inl same ↦ inl (bytes_eq_sound m n same)
  | inr other ↦ inr (bytes_ne m n other, e)
]

abbrev pub HasWidth : ℕ → Bytes → Type 0
HasWidth w d = length d ≡ w

-- All digests one after the other.
abbrev pub flat : List Bytes → Bytes
flat [] = []
flat (d ∷ ds) = d ++ flat ds

absorb_digests-flat :
    (hasher : Bytes) (ds : List Bytes) → absorb_digests hasher ds ≡ hasher ++ flat ds
unfolding absorb_digests
absorb_digests-flat hasher [] = sym (append-nil hasher)
absorb_digests-flat hasher (d ∷ ds) =
    absorb_digests-flat (hasher ++ d) ds ∙ append_assoc hasher d (flat ds)

length-cons-flat : (w : ℕ) (d : Bytes) (ds : List Bytes) → HasWidth w d → w ≤ length (flat (d ∷ ds))
length-cons-flat w d ds h = omega (arith, length-append d (flat ds))

flat_inj :
    (w : ℕ) (ds es : List Bytes)
    → 0 < w
    → All (HasWidth w) ds
    → All (HasWidth w) es
    → flat ds ≡ flat es
    → ds ≡ es
flat_inj w [] [] pos hd he e = refl
flat_inj w [] (y ∷ es) pos hd he e =
    absurd (omega (arith, length-cons-flat w y es he.0, ap length e))
flat_inj w (x ∷ ds) [] pos hd he e =
    absurd (omega (arith, length-cons-flat w x ds hd.0, ap length e))
flat_inj w (x ∷ ds) (y ∷ es) pos hd he e =
    let (p, q) = append_split x y (flat ds) (flat es) (hd.0 ∙ sym he.0) e in
    cc (p, flat_inj w ds es pos hd.1 he.1 q)

-- Two arrays of digests of one positive width with the same confirmation digest are the same
-- array in the same order, or else what was hashed for them is a collision of BLAKE3.
pub hash_digest_array_inj :
    (b : Blake3) (a : HashAlgorithm) (w : ℕ) (ds es : List Bytes)
    → 0 < w
    → All (HasWidth w) ds
    → All (HasWidth w) es
    → hash_digest_array b ds a ≡ hash_digest_array b es a
    → (ds ≡ es) ⊎ Collide b a (absorb_digests [] ds) (absorb_digests [] es)
unfolding hash_digest_array
hash_digest_array_inj b a w ds es pos hd he e =
    elim (equal_or_Collide b a (absorb_digests [] ds) (absorb_digests [] es) e) [
      | inl same ↦ inl (
          flat_inj w ds es pos hd he
            (sym (absorb_digests-flat [] ds) ∙ same ∙ absorb_digests-flat [] es))
      | inr found ↦ inr found
    ]
