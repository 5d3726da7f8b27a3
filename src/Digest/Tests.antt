-- ===== src/Digest/Tests.antt =====
-- The theorems on src/digest/ applied to concrete values, with a stand-in for BLAKE3 that cuts or
-- pads its input, and with a small stand-in for the functions of PostgreSQL.
use pgl_validate.Base.{
  ℕ, zero, suc, ◌%◌, ◌≡◌, ◌↔◌, ◌⊎◌, inl, inr, refl, ap, true, false, List, [], ◌∷◌, ◌++◌, Option,
  none, some, ok, arith, length,
}
use pgl_validate.Base.Int.{pos}
use pgl_validate.Base.Text.{Bytes, codes, All, IsByte}
use pgl_validate.Digest.Blake3.{Blake3, IsBlake3}
use pgl_validate.Digest.LtHash.{
  LtHashCore, lanes_count, zeros, default, expand, add_row_digest, combine, add_all, to_bytes,
  from_bytes, to_hex, parse_text,
}
use pgl_validate.Digest.LtHash.State.{IsState, default-IsState, add_row_digest-IsState}
use pgl_validate.Digest.LtHash.Multiset.{combine-add_all, add_row_digest_inj}
use pgl_validate.Digest.LtHash.Codec.{from_bytes_iff, parse_text-to_hex}
use pgl_validate.Digest.Algorithm.{blake3_256, finalize_blake3}
use pgl_validate.Digest.Algorithm.Laws.{Collide}
use pgl_validate.Digest.Frame.{frame_values, Fits, frame_values_inj}
use pgl_validate.Digest.Floats.{
  normalize_f32_with_policy, normalize_f64_with_policy, SameF32, SameF64, normalize_iff,
  is_zero_f32,
}
use pgl_validate.Digest.Encode.{
  send, Postgres, FloatPolicy, encode_datum, array_first, encode_float_array, normalize_float_datum,
  encode_normalized, encode_send, try_from,
}
use pgl_validate.Digest.Encode.Floats.{HasFloatTypes, encode_datum-SameF32}
use pgl_validate.Digest.RowDigest.{
  CallInfo, call, row_digest, row_loop, encode_argument, to_mode, to_modes,
}
use pgl_validate.Digest.RowDigest.Laws.{call_values, encode_row, row_digest_inj}

abbrev cut : ℕ → Bytes → Bytes
cut zero m = []
cut (suc n) [] = 0 ∷ cut n []
cut (suc n) (x ∷ m) = (x % 256) ∷ cut n m

length-cut : (n : ℕ) (m : Bytes) → length (cut n m) ≡ n
length-cut zero m = refl
length-cut (suc n) [] = ap suc (length-cut n [])
length-cut (suc n) (x ∷ m) = ap suc (length-cut n m)

cut-All : (n : ℕ) (m : Bytes) → All IsByte (cut n m)
cut-All zero m = tt
cut-All (suc n) [] = (omega arith, cut-All n [])
cut-All (suc n) (x ∷ m) = (omega arith, cut-All n m)

abbrev toy : Blake3
toy = record { finalize = cut 32; finalize_xof = λ m n. cut n m }

toy-IsBlake3 : IsBlake3 toy
toy-IsBlake3 = record {
  length_hash = length-cut 32;
  bytes_hash = cut-All 32;
  length_xof = λ m n. length-cut n m;
  bytes_xof = λ m n. cut-All n m;
}

abbrev one : Bytes
one = 1 ∷ []

abbrev two : Bytes
two = 2 ∷ 3 ∷ []

abbrev state : LtHashCore
state = add_row_digest toy default one

state-IsState : IsState state
state-IsState = add_row_digest-IsState toy default one default-IsState

combine-add_all_example :
    combine (add_all toy default (one ∷ [])) (add_all toy default (two ∷ []))
    ≡ add_all toy default (one ∷ two ∷ [])
combine-add_all_example = combine-add_all toy (one ∷ []) (two ∷ []) toy-IsBlake3

add_row_digest_inj_example :
    ((add_row_digest toy state one ≡ add_row_digest toy state two)
      ↔ (expand toy one ≡ expand toy two))
    × ((add_row_digest toy state one ≡ state) ↔ (expand toy one ≡ zeros lanes_count))
add_row_digest_inj_example =
    add_row_digest_inj toy state one two toy-IsBlake3 state-IsState (λ e. cc) (λ e. cc)

from_bytes_iff_example :
    (from_bytes (cut 2048 two) ≡ ok state) ↔ (IsState state × (to_bytes state ≡ cut 2048 two))
from_bytes_iff_example = from_bytes_iff (cut 2048 two) state (cut-All 2048 two)

parse_text-to_hex_example :
    (parse_text (to_hex state) ≡ ok state) × (parse_text (codes "\\x" ++ to_hex state) ≡ ok state)
parse_text-to_hex_example = parse_text-to_hex state state-IsState

abbrev row : List (Option Bytes)
row = some one ∷ none ∷ some [] ∷ []

row-Fits : All Fits row
row-Fits = (omega arith, (tt, (omega arith, tt)))

frame_values_inj_example : row ≡ row
frame_values_inj_example = frame_values_inj row row row-Fits row-Fits refl

normalize_iff_example :
    ((normalize_f32_with_policy 0x8000_0000 true false ≡ normalize_f32_with_policy 0 true false)
      ↔ SameF32 true false 0x8000_0000 0)
    × ((normalize_f64_with_policy 0x8000_0000 true false ≡ normalize_f64_with_policy 0 true false)
        ↔ SameF64 true false 0x8000_0000 0)
normalize_iff_example = normalize_iff true false 0x8000_0000 0

-- A value is a number; it is sent as one byte and has the empty text.
abbrev toy_pg : Postgres
toy_pg = record {
  Datum = ℕ;
  json_oid = 114;
  jsonb_oid = 3802;
  float4_oid = 700;
  float8_oid = 701;
  float4_array_oid = 1021;
  float8_array_oid = 1022;
  invalid_oid = 0;
  binary_output_info = λ t. suc t;
  output_info = λ t. suc t;
  input_info = λ t. (suc t, t);
  send_call = λ f d. some (d % 256 ∷ []);
  output_call = λ f d. some [];
  input_call = λ f s p. p;
  f32_from_datum = λ d. some d;
  f32_into_datum = λ u. some u;
  f64_from_datum = λ d. some d;
  f64_into_datum = λ u. some u;
  detoast = λ d. none;
}

abbrev policy : FloatPolicy
policy = record { signed_zero_distinct = false; nan_distinct = false }

types : HasFloatTypes toy_pg
types = record {
  float4_ne_array4 = omega arith;
  float4_ne_array8 = omega arith;
  float8_ne_array4 = omega arith;
  float8_ne_array8 = omega arith;
  float4_ne_float8 = omega arith;
}

encode_datum-SameF32_example :
    encode_datum toy_pg policy 700 0x8000_0000 send ≡ encode_datum toy_pg policy 700 0 send
encode_datum-SameF32_example =
    encode_datum-SameF32 toy_pg policy types send 0x8000_0000 0 0x8000_0000 0 refl refl
      (inr (inl (refl, zero_test, zero_test_0)))
  where
    zero_test : is_zero_f32 0x8000_0000 ≡ true
    zero_test = unfold is_zero_f32 in refl

    zero_test_0 : is_zero_f32 0 ≡ true
    zero_test_0 = unfold is_zero_f32 in refl

-- Two rows of a number and a NULL, the NULL under another mode in the second row.
abbrev first_call : CallInfo ℕ
first_call = call (some (some (pos 1) ∷ some (pos 2) ∷ [])) (
    record { is_null = false; datum = 65; type_oid = 25 }
    ∷ record { is_null = true; datum = 0; type_oid = 25 }
    ∷ [])

abbrev second_call : CallInfo ℕ
second_call = call (some (some (pos 1) ∷ some (pos 1) ∷ [])) (
    record { is_null = false; datum = 65; type_oid = 25 }
    ∷ record { is_null = true; datum = 7; type_oid = 23 }
    ∷ [])

abbrev values : List (Option Bytes)
values = some (65 ∷ []) ∷ none ∷ []

values-Fits : All Fits values
values-Fits = (omega arith, (tt, tt))

first_values : call_values toy_pg policy first_call ≡ ok values
unfolding call_values encode_row encode_argument encode_datum array_first encode_float_array
    normalize_float_datum encode_normalized encode_send to_modes to_mode try_from
first_values = refl

second_values : call_values toy_pg policy second_call ≡ ok values
unfolding call_values encode_row encode_argument encode_datum array_first encode_float_array
    normalize_float_datum encode_normalized encode_send to_modes to_mode try_from
second_values = refl

abbrev digest : Bytes
digest = finalize_blake3 toy blake3_256 (frame_values [] values)

first_digest : row_digest toy_pg policy toy blake3_256 first_call ≡ ok digest
unfolding row_digest row_loop frame_values encode_argument encode_datum array_first
    encode_float_array normalize_float_datum encode_normalized encode_send to_modes to_mode try_from
first_digest = refl

second_digest : row_digest toy_pg policy toy blake3_256 second_call ≡ ok digest
unfolding row_digest row_loop frame_values encode_argument encode_datum array_first
    encode_float_array normalize_float_datum encode_normalized encode_send to_modes to_mode try_from
second_digest = refl

row_digest_inj_example :
    (values ≡ values) ⊎ Collide toy blake3_256 (frame_values [] values) (frame_values [] values)
row_digest_inj_example =
    row_digest_inj toy_pg policy toy blake3_256 first_call second_call values values digest
      first_values second_values values-Fits values-Fits first_digest second_digest
