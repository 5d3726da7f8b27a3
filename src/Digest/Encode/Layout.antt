-- ===== src/Digest/Encode/Layout.antt =====
-- digest/encode.rs: the words with which an array of floats is stored and encoded.
use pgl_validate.Base.{
  ℕ, zero, suc, ◌≡◌, ◌*◌, ◌≤◌, ◌^◌, ◌%◌, refl, sym, ap, ◌∙◌, List, [], ◌∷◌, ◌++◌, ok, ok_inj, arith,
  length, take, drop, append_split, length-append, length-take, length-drop,
}
use pgl_validate.Base.Int.{ℤ, pos, negsuc, pos_part, IsI32}
use pgl_validate.Base.Text.{Bytes, All}
use pgl_validate.Base.Words.{to_le, length-to_le, to_le_inj, i32_bits, i32_bits-lt, i32_bits_inj}
use pgl_validate.Digest.Encode.{FloatArray, i32_words, to_usize}

length-i32_words : (zs : List ℤ) → length (i32_words zs) ≡ 4 * length zs
unfolding i32_words
length-i32_words [] = omega arith
length-i32_words (z ∷ zs) = omega (
  arith,
  length-append (to_le 4 (i32_bits z)) (i32_words zs),
  length-to_le 4 (i32_bits z),
  length-i32_words zs,
)

word_inj : (y z : ℤ) → IsI32 y → IsI32 z → to_le 4 (i32_bits y) ≡ to_le 4 (i32_bits z) → y ≡ z
word_inj y z hy hz e =
    i32_bits_inj y z hy hz (to_le_inj 4 (i32_bits y) (i32_bits z) (i32_bits-lt y) (i32_bits-lt z) e)

i32_words_inj :
    (ys zs : List ℤ) → All IsI32 ys → All IsI32 zs → i32_words ys ≡ i32_words zs → ys ≡ zs
unfolding i32_words
i32_words_inj [] [] hy hz e = refl
i32_words_inj [] (z ∷ zs) hy hz e = absurd (omega (arith, ap length e, length-i32_words (z ∷ zs)))
i32_words_inj (y ∷ ys) [] hy hz e = absurd (omega (arith, ap length e, length-i32_words (y ∷ ys)))
i32_words_inj (y ∷ ys) (z ∷ zs) hy hz e =
    let (p, q) =
      append_split (to_le 4 (i32_bits y)) (to_le 4 (i32_bits z)) (i32_words ys) (i32_words zs)
        (length-to_le 4 _ ∙ sym (length-to_le 4 _)) e in
    cc (word_inj y z hy.0 hz.0 p, i32_words_inj ys zs hy.1 hz.1 q)

pub to_usize_ok : (z : ℤ) (n : ℕ) → to_usize z ≡ ok n → z ≡ pos n
unfolding to_usize
to_usize_ok (pos m) n h = ap pos (ok_inj h)
to_usize_ok (negsuc m) n h = cc

-- What PostgreSQL keeps true of an array: the fields fit their C types, and a dimension and a lower
-- bound stand behind the header for each of the dimensions.
pub record IsFloatArray {D : Type 0} (array : FloatArray D) : Type 0 where
  pub ndim_fits : IsI32 array.ndim
  pub words_fit : All IsI32 array.words
  pub words_stored : 2 * pos_part array.ndim ≤ length array.words

-- The message behind the tag.
unfoldable pub body : {D : Type 0} → FloatArray D → ℕ → Bytes → Bytes
body array n elements =
    to_le 4 (i32_bits array.ndim)
    ++ (to_le 4 (length array.elements % 2 ^ 32)
        ++ (i32_words (take n array.words)
            ++ (i32_words (take n (drop n array.words)) ++ elements)))

All-take : (n : ℕ) (zs : List ℤ) → All IsI32 zs → All IsI32 (take n zs)
All-take zero zs h = tt
All-take (suc n) [] h = tt
All-take (suc n) (z ∷ zs) h = (h.0, All-take n zs h.1)

All-drop : (n : ℕ) (zs : List ℤ) → All IsI32 zs → All IsI32 (drop n zs)
All-drop zero zs h = h
All-drop (suc n) [] h = h
All-drop (suc n) (z ∷ zs) h = All-drop n zs h.1

-- Words of the same number in front of a rest.
words_split :
    (ys zs : List ℤ) (r s : Bytes)
    → length ys ≡ length zs
    → All IsI32 ys
    → All IsI32 zs
    → i32_words ys ++ r ≡ i32_words zs ++ s
    → (ys ≡ zs) × (r ≡ s)
words_split ys zs r s len hy hz e =
    let (p, q) =
      append_split (i32_words ys) (i32_words zs) r s
        (omega (arith, length-i32_words ys, length-i32_words zs, len)) e in
    (i32_words_inj ys zs hy hz p, q)

pub body_inj :
    {D : Type 0} (x y : FloatArray D) (n m : ℕ) (r s : Bytes)
    → IsFloatArray x
    → IsFloatArray y
    → x.ndim ≡ pos n
    → y.ndim ≡ pos m
    → body x n r ≡ body y m s
    → (n ≡ m)
      × (take n x.words ≡ take n y.words)
      × (take n (drop n x.words) ≡ take n (drop n y.words))
      × (r ≡ s)
unfolding body
body_inj x y n m r s hx hy nx ny e =
    let (p, e1) =
      append_split (to_le 4 (i32_bits x.ndim)) (to_le 4 (i32_bits y.ndim)) _ _
        (length-to_le 4 _ ∙ sym (length-to_le 4 _)) e in
    let same : n ≡ m = pos_inj (sym nx ∙ word_inj x.ndim y.ndim hx.ndim_fits hy.ndim_fits p ∙ ny) in
    let (q, e2) =
      append_split (to_le 4 (length x.elements % 2 ^ 32)) (to_le 4 (length y.elements % 2 ^ 32)) _ _
        (length-to_le 4 _ ∙ sym (length-to_le 4 _)) e1 in
    let e3 = rw (← same) at e2 in
    let x_len : 2 * n ≤ length x.words = rw nx at hx.words_stored in
    let y_len : 2 * n ≤ length y.words = rw (ny ∙ ap pos (sym same)) at hy.words_stored in
    let (dims, e4) =
      words_split (take n x.words) (take n y.words) _ _
        (omega (arith, length-take n x.words, length-take n y.words))
        (All-take n x.words hx.words_fit) (All-take n y.words hy.words_fit) e3 in
    let (bounds, e5) =
      words_split (take n (drop n x.words)) (take n (drop n y.words)) r s
        (omega (
          arith,
          length-take n (drop n x.words),
          length-take n (drop n y.words),
          length-drop n x.words,
          length-drop n y.words,
        ))
        (All-take n (drop n x.words) (All-drop n x.words hx.words_fit))
        (All-take n (drop n y.words) (All-drop n y.words hy.words_fit)) e4 in
    (same, dims, bounds, e5)
  where
    pos_inj : {a b : ℕ} → ◌≡◌ {A = ℤ} (pos a) (pos b) → a ≡ b
    pos_inj h = cc
