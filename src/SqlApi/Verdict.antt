-- ===== src/SqlApi/Verdict.antt =====
-- What the comparison of two checksums says of the rows of two nodes.
use mathlib.Core.List.{Perm}
use mathlib.Core.List.Perm
use mathlib.Core.Path.{subst}
use pgl_validate.Base.{
  arith, ℕ, ◌≤◌, ◌<◌, ◌≡◌, refl, sym, ap, ◌∙◌, ◌⊎◌, inl, inr, Bool, true, false, not, ◌&&◌, ◌||◌,
  List, [], Option, none, some, ok, ok_inj, length,
}
use pgl_validate.Base.Int.{pos}
use pgl_validate.Base.Text.{Bytes, All, bytes_eq}
use pgl_validate.Base.Text.Laws.{bytes_eq_refl, bytes_eq_sound}
use pgl_validate.Base.Digits.{max_i32, max_i64}
use pgl_validate.Digest.Blake3.{Blake3, IsBlake3}
use pgl_validate.Digest.Algorithm.{HashAlgorithm, absorb_digests, hash_digest_array}
use pgl_validate.Digest.Algorithm.Laws.{Collide, HasWidth, hash_digest_array_inj}
use pgl_validate.SqlApi.Aggregate.{present, hash_digest_array_of_nullable, Plan, rows}
use pgl_validate.SqlApi.Permuted.{present-Perm}
use pgl_validate.SqlApi.Checksum.{
  confirmation, chunk_row, row_of, chunk_row_lem, chunk_row-parsed, row_of-Perm,
}
use pgl_validate.Transport.QueryResult.{PgResult, same_int}
use pgl_validate.Transport.Replies.Digest.{RemoteChecksum, parse_checksum_result}
use pgl_validate.Transport.Replies.Printed.{QueryRow, Prints, checksum_of}

-- A node's query over the rows of a plan returned a row, and its result prints it.
pub record Replied (b : Blake3) (a : HashAlgorithm)
    (ordered : List (Option Bytes) → List (Option Bytes)) (include_set_hash : Bool) (p : Plan)
    (r : PgResult) : Type 0 where
  pub version : ℕ
  pub row : QueryRow
  pub answered : chunk_row b a ordered version include_set_hash p ≡ ok row
  pub printed : Prints r row
  pub version_fits : version ≤ max_i32
  pub rows_fit : length (rows p) ≤ max_i64

-- `IS NOT DISTINCT FROM`.
unfoldable pub same_bytes : Option Bytes → Option Bytes → Bool
same_bytes none none = true
same_bytes (some x) (some y) = bytes_eq x y
same_bytes _ _ = false

-- The condition of `compare_table` on a peer's checksum and the local one.
unfoldable pub differs : Bool → RemoteChecksum → QueryRow → Bool
differs paranoid_confirm remote local =
    not (same_int remote.n_rows (pos local.n_rows))
    || (not (bytes_eq remote.lthash local.lthash)
        || (paranoid_confirm && not (same_bytes remote.set_hash local.set_hash)))

some_inj : {x y : Bytes} → some x ≡ some y → x ≡ y
some_inj e = cc

same_bytes_refl : (o : Option Bytes) → same_bytes o o ≡ true
unfolding same_bytes
same_bytes_refl none = refl
same_bytes_refl (some x) = bytes_eq_refl x

same_bytes_sound : (o p : Option Bytes) → same_bytes o p ≡ true → o ≡ p
unfolding same_bytes
same_bytes_sound none none h = refl
same_bytes_sound none (some y) h = cc
same_bytes_sound (some x) none h = cc
same_bytes_sound (some x) (some y) h = ap some (bytes_eq_sound x y h)

differs_self :
    (paranoid : Bool) (version : ℕ) (row : QueryRow)
    → differs paranoid (checksum_of (record row { version = version })) row ≡ false
unfolding differs same_int
differs_self paranoid version row =
    ground (arith, bytes_eq_refl row.lthash, same_bytes_refl row.set_hash)

module _ (b : Blake3) (a : HashAlgorithm) (ordered : List (Option Bytes) → List (Option Bytes))
    (hb : IsBlake3 b) where
  -- A peer whose rows have the same digests as the local ones, in whatever order and however the
  -- plans split them, sends a checksum that is read and that does not differ from the local one. BLAKE3
  -- is assumed to have the output widths that it documents, and `ORDER BY` to give one order for all
  -- orders of the same rows.
  pub same_rows-match :
      (include_set_hash paranoid_confirm : Bool) (local_version : ℕ) (p q : Plan) (local : QueryRow)
      (r : PgResult)
      → ((xs ys : List (Option Bytes)) → Perm xs ys → ordered xs ≡ ordered ys)
      → Perm (rows p) (rows q)
      → chunk_row b a ordered local_version include_set_hash p ≡ ok local
      → Replied b a ordered include_set_hash q r
      → (remote : RemoteChecksum) × (parse_checksum_result r ≡ ok remote)
        × (differs paranoid_confirm remote local ≡ false)
  same_rows-match include paranoid version p q local r canonical same here there =
      let local_eq : local ≡ row_of b a ordered version include p =
        ok_inj (sym here ∙ chunk_row_lem b a ordered hb version include p) in
      let rows_eq : row_of b a ordered version include p ≡ row_of b a ordered version include q =
        row_of-Perm b a ordered hb version include p q canonical same in
      (
        checksum_of (row_of b a ordered there.version include q),
        chunk_row-parsed b a ordered hb there.version include q there.row r there.answered
            there.printed there.version_fits there.rows_fit,
        subst
            (λ x.
              differs paranoid (checksum_of (row_of b a ordered there.version include q)) x ≡ false)
            (sym (local_eq ∙ rows_eq))
            (differs_self paranoid there.version (row_of b a ordered version include q)),
      )

  -- When a peer's checksum is confirmed and does not differ from the local one, the rows of both have
  -- the same digests, up to the order, or else what was hashed to confirm it is a collision of BLAKE3.
  -- The row digests are of one positive width, and `ORDER BY` only changes the order of the rows.
  pub match-Perm :
      (w local_version : ℕ) (p q : Plan) (local : QueryRow) (r : PgResult) (remote : RemoteChecksum)
      → ((xs : List (Option Bytes)) → Perm xs (ordered xs))
      → 0 < w
      → All (HasWidth w) (present (ordered (rows p)))
      → All (HasWidth w) (present (ordered (rows q)))
      → chunk_row b a ordered local_version true p ≡ ok local
      → Replied b a ordered true q r
      → parse_checksum_result r ≡ ok remote
      → differs true remote local ≡ false
      → Perm (present (rows q)) (present (rows p))
        ⊎ Collide b a
            (absorb_digests [] (present (ordered (rows q))))
            (absorb_digests [] (present (ordered (rows p))))
  unfolding confirmation hash_digest_array_of_nullable differs
  match-Perm w version p q local r remote reorders positive hp hq here there read same =
      let local_eq : local ≡ row_of b a ordered version true p =
        ok_inj (sym here ∙ chunk_row_lem b a ordered hb version true p) in
      let remote_eq : remote ≡ checksum_of (row_of b a ordered there.version true q) = ok_inj (
        sym read
        ∙ chunk_row-parsed b a ordered hb there.version true q there.row r there.answered
            there.printed there.version_fits there.rows_fit) in
      let confirmed : remote.set_hash ≡ local.set_hash =
        same_bytes_sound remote.set_hash local.set_hash (ground arith) in
      let digests : hash_digest_array b (present (ordered (rows q))) a
          ≡ hash_digest_array b (present (ordered (rows p))) a =
        some_inj (
          sym (ap (λ (x : RemoteChecksum). x.set_hash) remote_eq)
          ∙ confirmed
          ∙ ap (λ (x : QueryRow). x.set_hash) local_eq) in
      elim (hash_digest_array_inj b a w (present (ordered (rows q))) (present (ordered (rows p)))
        positive hq hp digests) [
          | inl equal ↦ inl (
              Perm.trans (present-Perm _ _ (reorders (rows q))) (
                subst (λ x. Perm x (present (rows p))) (sym equal)
                  (Perm.symm (present-Perm _ _ (reorders (rows p))))))
          | inr found ↦ inr found
        ]
