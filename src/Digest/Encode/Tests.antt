-- ===== src/Digest/Encode/Tests.antt =====
-- The theorem on arrays of floats applied to a concrete array.
use pgl_validate.Base.{
  ℕ, ◌≡◌, refl, ok_inj, sym, ap, ◌∙◌, true, false, [], ◌∷◌, ◌++◌, some, Result, ok, arith, length,
  take, drop,
}
use pgl_validate.Base.Int.{pos, negsuc}
use pgl_validate.Base.Text.{Bytes, codes}
use pgl_validate.Base.Words.{to_le, length-to_le, i32_bits}
use pgl_validate.Digest.Encode.{
  FloatArray, null_at, encode_element, encode_elements, encode_float_array_with, i32_words,
  to_usize,
}
use pgl_validate.Digest.Encode.Layout.{IsFloatArray}
use pgl_validate.Digest.Encode.Arrays.{EncodesTo, element_values, encode_float_array_with_inj}

abbrev bits : ℕ → Result Bytes
bits u = ok (to_le 4 u)

bits-EncodesTo : EncodesTo 4 bits
bits-EncodesTo u bytes h = ap length (sym (ok_inj h)) ∙ length-to_le 4 u

-- The array `[-1:0]={1, NULL}`, by its bits.
abbrev array : FloatArray ℕ
array = record {
  elemtype = 700;
  ndim = pos 1;
  words = pos 2 ∷ negsuc 0 ∷ [];
  elements = 0x3f80_0000 ∷ 0 ∷ [];
  nulls = some (false ∷ true ∷ []);
}

array-IsFloatArray : IsFloatArray array
array-IsFloatArray = record {
  ndim_fits = (omega arith, omega arith);
  words_fit = ((omega arith, omega arith), ((omega arith, omega arith), tt));
  words_stored = omega arith;
}

abbrev message : Bytes
message =
    codes "pgl_validate.float_array.v1f4"
    ++ (1 ∷ 0 ∷ 0 ∷ 0 ∷ 2 ∷ 0 ∷ 0 ∷ 0 ∷ 2 ∷ 0 ∷ 0 ∷ 0 ∷ 255 ∷ 255 ∷ 255 ∷ 255 ∷ 1 ∷ 0 ∷ 0 ∷ 0x80
        ∷ 0x3f ∷ 0 ∷ [])

array_encoded : encode_float_array_with (some array) 700 (codes "f4") bits ≡ ok message
unfolding encode_float_array_with to_usize encode_elements encode_element null_at i32_words i32_bits
    to_le
array_encoded = refl

encode_float_array_with_inj_example :
    (n : ℕ) × (array.ndim ≡ pos n)
    × (array.ndim ≡ pos n)
    × (take n array.words ≡ take n array.words)
    × (take n (drop n array.words) ≡ take n (drop n array.words))
    × (element_values bits array.nulls 0 array.elements
        ≡ element_values bits array.nulls 0 array.elements)
encode_float_array_with_inj_example =
    encode_float_array_with_inj 4 bits bits-EncodesTo array array 700 (codes "f4") message
      array-IsFloatArray array-IsFloatArray array_encoded array_encoded
