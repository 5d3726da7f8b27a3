-- ===== src/Digest/LtHash.antt =====
-- digest/lthash.rs: the LtHash accumulator of 1024 lanes of 16 bits.
pub mod Lanes
pub mod State
pub mod Multiset
pub mod Codec
use pgl_validate.Base.{ℕ, zero, suc, ◌+◌, ◌*◌, ◌/◌, ◌%◌, ◌^◌, ◌<◌, ◌≡◌, List, [], ◌∷◌, ◌++◌}
use pgl_validate.Base.{Bool, true, false, Option, none, some, Error, Result, ok, err, panic, ◌>>=◌}
use pgl_validate.Base.{length, replicate, ◌==◌, if◌then◌else◌}
use pgl_validate.Base.Text.{Bytes, codes, All, bytes_eq, strip_prefix}
use pgl_validate.Base.Hex.{hex_pairs, hex_of}
use pgl_validate.Digest.Blake3.{Blake3, update}
use mathlib.Core.Option

abbrev pub lanes_count : ℕ
lanes_count = 1024

abbrev pub state_bytes : ℕ
state_bytes = 2048

pub record LtHashCore : Type 0 where
  pub lanes : List ℕ

-- `[0; n]`.
unfoldable pub zeros : ℕ → List ℕ
zeros n = replicate n 0

unfoldable pub default : LtHashCore
default = record { lanes = zeros lanes_count }

-- `chunks_exact(2)` and `u16::from_le_bytes`.
unfoldable pub u16_lanes : Bytes → List ℕ
u16_lanes (lo ∷ hi ∷ rest) = (lo + 256 * hi) ∷ u16_lanes rest
u16_lanes _ = []

-- `*lane = lane.wrapping_add(addend)` over the zipped lanes and addends.
unfoldable pub add_lanes : List ℕ → List ℕ → List ℕ
add_lanes [] xs = []
add_lanes (l ∷ ls) [] = l ∷ ls
add_lanes (l ∷ ls) (x ∷ xs) = ((l + x) % 2 ^ 16) ∷ add_lanes ls xs

-- The addends of one row digest: the extendable output of BLAKE3 over it.
unfoldable pub expand : Blake3 → Bytes → List ℕ
expand b digest = u16_lanes (b.finalize_xof (update [] digest) state_bytes)

unfoldable pub add_row_digest : Blake3 → LtHashCore → Bytes → LtHashCore
unfolding add_lanes
add_row_digest b s [] = s
add_row_digest b s (d ∷ ds) = record { lanes = add_lanes s.lanes (expand b (d ∷ ds)) }

-- `*dst = l.wrapping_add(r)` over the three zipped arrays.
unfoldable pub combine_lanes : List ℕ → List ℕ → List ℕ → List ℕ
combine_lanes (d ∷ ds) (l ∷ ls) (r ∷ rs) = ((l + r) % 2 ^ 16) ∷ combine_lanes ds ls rs
combine_lanes ds _ _ = ds

unfoldable pub combine : LtHashCore → LtHashCore → LtHashCore
combine left right =
    let out = default in record { lanes = combine_lanes out.lanes left.lanes right.lanes }

-- `u16::to_le_bytes` of each lane.
unfoldable pub le_bytes : List ℕ → Bytes
le_bytes [] = []
le_bytes (l ∷ ls) = l % 256 ∷ l / 256 ∷ le_bytes ls

unfoldable pub to_bytes : LtHashCore → Bytes
unfolding le_bytes
to_bytes s = le_bytes s.lanes

-- `*lane = value` over the zipped lanes and values.
unfoldable pub assign_lanes : List ℕ → List ℕ → List ℕ
assign_lanes [] xs = []
assign_lanes (l ∷ ls) [] = l ∷ ls
assign_lanes (l ∷ ls) (x ∷ xs) = x ∷ assign_lanes ls xs

unfoldable pub from_bytes : Bytes → Result LtHashCore
from_bytes bytes =
    if length bytes == state_bytes
    then ok (record { lanes = assign_lanes (zeros lanes_count) (u16_lanes bytes) })
    else err (Error.bad_state_length (length bytes))

unfoldable pub to_hex : LtHashCore → Bytes
to_hex s = hex_of (to_bytes s)

-- The text behind the optional `\x`.
unfoldable pub parse_state_hex : Bytes → Result LtHashCore
parse_state_hex input =
    if length input == state_bytes * 2
    then (hex_pairs Error.bad_state_hex 1 0 input >>= from_bytes)
    else err (Error.bad_state_hex_length (length input))

unfoldable pub parse_text : Bytes → Result LtHashCore
parse_text input =
    if bytes_eq input (codes "0")
    then ok default
    else parse_state_hex (Option.get_or (strip_prefix (codes "\\x") input) input)

-- The state after adding the digests in order.
unfoldable pub add_all : Blake3 → LtHashCore → List Bytes → LtHashCore
add_all b s [] = s
add_all b s (d ∷ ds) = add_all b (add_row_digest b s d) ds
