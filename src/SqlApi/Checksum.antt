-- ===== src/SqlApi/Checksum.antt =====
-- From the row digests of a table to the checksum that another node reads: the query that
-- `plan_chunk_sql` in sql/bootstrap/040_planning.sql writes, over the aggregate of sql_api.rs,
-- printed and read by transport/libpq.rs.
use mathlib.Core.List.{Perm}
use mathlib.Core.Path.{subst}
use pgl_validate.Base.{
  ℕ, ◌≤◌, ◌≡◌, refl, sym, ◌∙◌, Bool, true, false, List, Option, none, some, Result, ok, ◌>>=◌,
  ok_inj, length,
}
use pgl_validate.Base.Text.{Bytes, All, IsByte}
use pgl_validate.Base.Digits.{max_i32, max_i64}
use pgl_validate.Digest.Blake3.{Blake3, IsBlake3}
use pgl_validate.Digest.Algorithm.{
  HashAlgorithm, blake3_256, blake3_512, finalize_blake3, hash_digest_array,
}
use pgl_validate.Digest.LtHash.{default, add_all, to_bytes}
use pgl_validate.Digest.LtHash.State.{default-IsState, add_all-IsState}
use pgl_validate.Digest.LtHash.Multiset.{add_all-Perm}
use pgl_validate.Digest.LtHash.Codec.{to_bytes-All}
use pgl_validate.SqlApi.State.{lthash_bytes}
use pgl_validate.SqlApi.Aggregate.{present, hash_digest_array_of_nullable, Plan, rows, run, run_lem}
use pgl_validate.SqlApi.Permuted.{present-Perm, length-Perm}
use pgl_validate.Transport.QueryResult.{PgResult}
use pgl_validate.Transport.Replies.Digest.{parse_checksum_result}
use pgl_validate.Transport.Replies.Printed.{
  QueryRow, Prints, FitsSql, AreBytes, checksum_of, parse_checksum_result-Prints,
}

-- `ordered` is `ORDER BY rd` in `array_agg`.
module _ (b : Blake3) (a : HashAlgorithm)
    (ordered : List (Option Bytes) → List (Option Bytes)) where
  unfoldable pub confirmation : Bool → Plan → Option Bytes
  confirmation false p = none
  confirmation true p = some (hash_digest_array_of_nullable b (ordered (rows p)) a)

  -- The row of the query, on a server of the version.
  unfoldable pub chunk_row : ℕ → Bool → Plan → Result QueryRow
  chunk_row version include_set_hash p = run b p >>= λ s. ok (record {
    version = version;
    n_rows = length (rows p);
    lthash = lthash_bytes s;
    set_hash = confirmation include_set_hash p;
  })

  -- The row without the plan.
  abbrev pub row_of : ℕ → Bool → Plan → QueryRow
  row_of version include_set_hash p = record {
    version = version;
    n_rows = length (rows p);
    lthash = to_bytes (add_all b default (present (rows p)));
    set_hash = confirmation include_set_hash p;
  }

  module _ (hb : IsBlake3 b) where
    pub chunk_row_lem :
        (version : ℕ) (include : Bool) (p : Plan)
        → chunk_row version include p ≡ ok (row_of version include p)
    unfolding chunk_row lthash_bytes
    chunk_row_lem version include p = let (s, ran, core) = run_lem b p hb in rw (ran, core) refl

    finalize-All :
        (m : Bytes) (algorithm : HashAlgorithm) → All IsByte (finalize_blake3 b algorithm m)
    unfolding finalize_blake3
    finalize-All m blake3_256 = hb.bytes_hash m
    finalize-All m blake3_512 = hb.bytes_xof m _

    confirmation-Fits : (include : Bool) (p : Plan) → AreBytes (confirmation include p)
    unfolding confirmation hash_digest_array_of_nullable hash_digest_array
    confirmation-Fits false p = tt
    confirmation-Fits true p = finalize-All _ a

    row_of-FitsSql :
        (version : ℕ) (include : Bool) (p : Plan)
        → version ≤ max_i32
        → length (rows p) ≤ max_i64
        → FitsSql (row_of version include p)
    row_of-FitsSql version include p hv hn = record {
      version_fits = hv;
      n_rows_fits = hn;
      lthash_bytes =
          to_bytes-All (add_all b default (present (rows p)))
            (add_all-IsState b default (present (rows p)) default-IsState);
      set_hash_bytes = confirmation-Fits include p;
    }

    -- What is read of the printed row.
    pub chunk_row-parsed :
        (version : ℕ) (include : Bool) (p : Plan) (row : QueryRow) (r : PgResult)
        → chunk_row version include p ≡ ok row
        → Prints r row
        → version ≤ max_i32
        → length (rows p) ≤ max_i64
        → parse_checksum_result r ≡ ok (checksum_of (row_of version include p))
    chunk_row-parsed version include p row r e prints hv hn =
        let same : row ≡ row_of version include p =
          ok_inj (sym e ∙ chunk_row_lem version include p) in
        parse_checksum_result-Prints r (row_of version include p)
          (subst (λ x. Prints r x) same prints) (row_of-FitsSql version include p hv hn)

    pub row_of-Perm :
        (version : ℕ) (include : Bool) (p q : Plan)
        → ((xs ys : List (Option Bytes)) → Perm xs ys → ordered xs ≡ ordered ys)
        → Perm (rows p) (rows q)
        → row_of version include p ≡ row_of version include q
    unfolding confirmation
    row_of-Perm version false p q canonical same = cc (
      length-Perm (rows p) (rows q) same,
      add_all-Perm b default _ _ (present-Perm (rows p) (rows q) same),
    )
    row_of-Perm version true p q canonical same = cc (
      length-Perm (rows p) (rows q) same,
      add_all-Perm b default _ _ (present-Perm (rows p) (rows q) same),
      canonical (rows p) (rows q) same,
    )
