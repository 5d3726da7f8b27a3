-- ===== src/SqlApi/VerdictTests.antt =====
-- The theorems on the verdict applied to two nodes with two rows.
use mathlib.Core.List.{Perm, perm_append_comm}
use pgl_validate.Base.{◌≡◌, ◌⊎◌, refl, true, false, [], ◌∷◌, some, ok, arith}
use pgl_validate.Base.Text.{All}
use pgl_validate.Digest.Algorithm.{blake3_256, absorb_digests}
use pgl_validate.Digest.Algorithm.Laws.{Collide, HasWidth}
use pgl_validate.SqlApi.Aggregate.{Plan, scan, gather, rows, present}
use pgl_validate.SqlApi.Checksum.{row_of, chunk_row_lem}
use pgl_validate.SqlApi.Sorting.{
  sort_rows, insert_row, row_at_most, at_most, sort-Perm, sort_rows-Perm,
}
use pgl_validate.SqlApi.Verdict.{Replied, differs, same_rows-match, match-Perm}
use pgl_validate.SqlApi.Tests.{length_hash, length_hash-IsBlake3}
use pgl_validate.Transport.Requests.Tests.{print_row, print_row-Prints}
use pgl_validate.Transport.Replies.Digest.{RemoteChecksum, parse_checksum_result}
use pgl_validate.Transport.Replies.Printed.{QueryRow}

-- The same two rows, scanned by one process and by two.
abbrev here : Plan
here = scan (some (1 ∷ []) ∷ some (2 ∷ []) ∷ [])

abbrev there : Plan
there = gather (scan (some (2 ∷ []) ∷ [])) (scan (some (1 ∷ []) ∷ []))

abbrev row_here : QueryRow
row_here = row_of length_hash blake3_256 sort_rows 170002 true here

abbrev row_there : QueryRow
row_there = row_of length_hash blake3_256 sort_rows 150008 true there

there-Replied : Replied length_hash blake3_256 sort_rows true there (print_row row_there)
unfolding rows
there-Replied = record {
  version = 150008;
  row = row_there;
  answered = chunk_row_lem length_hash blake3_256 sort_rows length_hash-IsBlake3 150008 true there;
  printed = print_row-Prints row_there;
  version_fits = omega arith;
  rows_fit = omega arith;
}

rows-Perm : Perm (rows here) (rows there)
unfolding rows
rows-Perm = perm_append_comm (some (1 ∷ []) ∷ []) (some (2 ∷ []) ∷ [])

matching :
    (remote : RemoteChecksum) × (parse_checksum_result (print_row row_there) ≡ ok remote)
    × (differs true remote row_here ≡ false)
matching =
    same_rows-match length_hash blake3_256 sort_rows length_hash-IsBlake3 true true 170002 here
      there row_here (print_row row_there) sort-Perm rows-Perm
      (chunk_row_lem length_hash blake3_256 sort_rows length_hash-IsBlake3 170002 true here)
      there-Replied

same_rows-match_example :
    (remote : RemoteChecksum) × (parse_checksum_result (print_row row_there) ≡ ok remote)
    × (differs true remote row_here ≡ false)
same_rows-match_example =
    same_rows-match length_hash blake3_256 sort_rows length_hash-IsBlake3 true true 170002 here
      there row_here (print_row row_there) sort-Perm rows-Perm
      (chunk_row_lem length_hash blake3_256 sort_rows length_hash-IsBlake3 170002 true here)
      there-Replied

widths_here : All (HasWidth 1) (present (sort_rows (rows here)))
unfolding present sort_rows insert_row row_at_most at_most rows
widths_here = (refl, (refl, tt))

widths_there : All (HasWidth 1) (present (sort_rows (rows there)))
unfolding present sort_rows insert_row row_at_most at_most rows
widths_there = (refl, (refl, tt))

match-Perm_example :
    Perm (present (rows there)) (present (rows here))
    ⊎ Collide length_hash blake3_256
        (absorb_digests [] (present (sort_rows (rows there))))
        (absorb_digests [] (present (sort_rows (rows here))))
match-Perm_example =
    match-Perm length_hash blake3_256 sort_rows length_hash-IsBlake3 1 170002 here there row_here
      (print_row row_there) matching.0 sort_rows-Perm (omega arith) widths_here widths_there
      (chunk_row_lem length_hash blake3_256 sort_rows length_hash-IsBlake3 170002 true here)
      there-Replied matching.1 matching.2
