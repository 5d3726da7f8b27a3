-- ===== src/Digest/Encode/Arrays.antt =====
-- digest/encode.rs: the encoding of an array of floats loses nothing.
use pgl_validate.Base.{
  ℕ, suc, ◌==◌, ◌≡◌, refl, sym, ap, ◌∙◌, Bool, true, false, List, [], ◌∷◌, ◌++◌, Option, none, some,
  Result, ok, ◌>>=◌, >>=-eq-ok, ok_inj, arith, length, take, drop, cons_inj, append_split,
  Bool-cases, inl, inr,
}
use pgl_validate.Base.Int.{pos}
use pgl_validate.Base.Text.{Bytes, All, codes}
use pgl_validate.Digest.Encode.{
  FloatArray, null_at, encode_element, encode_elements, encode_float_array_with, to_usize,
}
use pgl_validate.Digest.Encode.Layout.{IsFloatArray, to_usize_ok, body, body_inj}

-- What is encoded of each element from `index` on: nothing for a NULL.
unfoldable pub element_value : {D : Type 0} → (D → Result Bytes) → Bool → D → Result (Option Bytes)
element_value encode true d = ok none
element_value encode false d = encode d >>= λ bytes. ok (some bytes)

unfoldable pub element_values :
    {D : Type 0}
    → (D → Result Bytes)
    → Option (List Bool)
    → ℕ
    → List D
    → Result (List (Option Bytes))
element_values encode nulls index [] = ok []
element_values encode nulls index (d ∷ ds) = do
  first ← element_value encode (null_at nulls index) d
  rest ← element_values encode nulls (suc index) ds
  ok (first ∷ rest)

tagged : List (Option Bytes) → Bytes
tagged [] = []
tagged (none ∷ vs) = 0 ∷ tagged vs
tagged (some b ∷ vs) = 1 ∷ (b ++ tagged vs)

abbrev Wide : ℕ → Option Bytes → Type 0
Wide w none = Unit
Wide w (some b) = length b ≡ w

-- Every element has an encoding of `w` bytes.
abbrev pub EncodesTo : ℕ → {D : Type 0} → (D → Result Bytes) → Type 0
EncodesTo w {D} encode = (d : D) (bytes : Bytes) → encode d ≡ ok bytes → length bytes ≡ w

tagged_inj :
    (w : ℕ) (vs us : List (Option Bytes))
    → All (Wide w) vs
    → All (Wide w) us
    → tagged vs ≡ tagged us
    → vs ≡ us
unfolding tagged
tagged_inj w [] [] hv hu e = refl
tagged_inj w [] (none ∷ us) hv hu e = cc
tagged_inj w [] (some b ∷ us) hv hu e = cc
tagged_inj w (none ∷ vs) [] hv hu e = cc
tagged_inj w (some b ∷ vs) [] hv hu e = cc
tagged_inj w (none ∷ vs) (none ∷ us) hv hu e = cc (tagged_inj w vs us hv.1 hu.1 (cons_inj e).1)
tagged_inj w (none ∷ vs) (some b ∷ us) hv hu e = absurd (ground (arith, (cons_inj e).0))
tagged_inj w (some b ∷ vs) (none ∷ us) hv hu e = absurd (ground (arith, (cons_inj e).0))
tagged_inj w (some b ∷ vs) (some c ∷ us) hv hu e =
    let (p, q) = append_split b c (tagged vs) (tagged us) (hv.0 ∙ sym hu.0) (cons_inj e).1 in
    cc (p, tagged_inj w vs us hv.1 hu.1 q)

module _ {D : Type 0} (w : ℕ) (encode : D → Result Bytes) (wide : EncodesTo w encode) where
  -- The bytes of one element, and the value that they stand for.
  element_sound :
      (null : Bool) (d : D) (first : Bytes)
      → encode_element encode null d ≡ ok first
      → (v : Option Bytes) × (element_value encode null d ≡ ok v)
        × ((vs : List (Option Bytes)) → first ++ tagged vs ≡ tagged (v ∷ vs))
        × Wide w v
  unfolding encode_element element_value tagged
  element_sound true d first h =
      (none, refl, λ vs. ap (λ (x : Bytes). x ++ tagged vs) (sym (ok_inj h)), tt)
  element_sound false d first h =
      let (bytes, h0, h1) = >>=-eq-ok (encode d) _ h in
      (
        some bytes,
        ap (λ (r : Result Bytes). r >>= λ b. ok (some b)) h0,
        λ vs. ap (λ (x : Bytes). x ++ tagged vs) (sym (ok_inj h1)),
        wide d bytes h0,
      )

  -- The bytes of the elements, and the values that they stand for.
  elements_sound :
      (nulls : Option (List Bool)) (index : ℕ) (ds : List D) (out : Bytes)
      → encode_elements encode nulls index ds ≡ ok out
      → (vs : List (Option Bytes)) × (element_values encode nulls index ds ≡ ok vs)
        × (out ≡ tagged vs)
        × All (Wide w) vs
  unfolding encode_elements element_values
  elements_sound nulls index [] out h = ([], refl, (unfold tagged in sym (ok_inj h)), tt)
  elements_sound nulls index (d ∷ ds) out h =
      let (first, h0, h1) = >>=-eq-ok (encode_element encode (null_at nulls index) d) _ h in
      let (rest, h2, h3) = >>=-eq-ok (encode_elements encode nulls (suc index) ds) _ h1 in
      let (vs, ev, e, aw) = elements_sound nulls (suc index) ds rest h2 in
      let (v, ev0, e0, aw0) = element_sound (null_at nulls index) d first h0 in
      let values : element_values encode nulls index (d ∷ ds) ≡ ok (v ∷ vs) = rw ev0 (rw ev refl) in
      let bytes : out ≡ tagged (v ∷ vs) =
        sym (ok_inj h3) ∙ ap (λ (x : Bytes). first ++ x) e ∙ e0 vs in
      (v ∷ vs, values, bytes, (aw0, aw))

  array_sound :
      (array : FloatArray D) (oid : ℕ) (tag out : Bytes)
      → encode_float_array_with (some array) oid tag encode ≡ ok out
      → (n : ℕ) × (vs : List (Option Bytes)) × (array.ndim ≡ pos n)
        × (element_values encode array.nulls 0 array.elements ≡ ok vs)
        × All (Wide w) vs
        × (out ≡ codes "pgl_validate.float_array.v1" ++ (tag ++ body array n (tagged vs)))
  unfolding encode_float_array_with body
  array_sound array oid tag out h = elim (Bool-cases (array.elemtype == oid)) [
    | inr other ↦ let h0 = rw other at h in cc
    | inl same ↦
        let (n, h1, h2) = >>=-eq-ok (to_usize array.ndim) _ (rw same at h) in
        let (es, h3, h4) = >>=-eq-ok (encode_elements encode array.nulls 0 array.elements) _ h2 in
        let (vs, values, bytes, aw) = elements_sound array.nulls 0 array.elements es h3 in
        (
          n,
          vs,
          to_usize_ok array.ndim n h1,
          values,
          aw,
          sym (ok_inj h4)
              ∙ ap (λ (x : Bytes). codes "pgl_validate.float_array.v1" ++ (tag ++ body array n x))
                  bytes,
        )
  ]

  -- Two arrays of one element type with the same encoding have the same dimensions and lower
  -- bounds, and element by element the same encoded values, NULLs included. Both must be stored the way PostgreSQL stores
  -- an array, and every element that is encoded must have the same number of bytes.
  pub encode_float_array_with_inj :
      (x y : FloatArray D) (oid : ℕ) (tag out : Bytes)
      → IsFloatArray x
      → IsFloatArray y
      → encode_float_array_with (some x) oid tag encode ≡ ok out
      → encode_float_array_with (some y) oid tag encode ≡ ok out
      → (n : ℕ) × (x.ndim ≡ pos n)
        × (y.ndim ≡ pos n)
        × (take n x.words ≡ take n y.words)
        × (take n (drop n x.words) ≡ take n (drop n y.words))
        × (element_values encode x.nulls 0 x.elements ≡ element_values encode y.nulls 0 y.elements)
  encode_float_array_with_inj x y oid tag out hx hy ex ey =
      let (n, vs, nx, vx, wx, mx) = array_sound x oid tag out ex in
      let (m, us, ny, vy, wy, my) = array_sound y oid tag out ey in
      let (p, q) =
        append_split (codes "pgl_validate.float_array.v1") (codes "pgl_validate.float_array.v1") _ _
          refl (sym mx ∙ my) in
      let (r, bodies) = append_split tag tag _ _ refl q in
      let (same, dims, bounds, rest) =
        body_inj x y n m (tagged vs) (tagged us) hx hy nx ny bodies in
      (
        n,
        nx,
        ny ∙ ap pos (sym same),
        dims,
        bounds,
        vx ∙ ap ok (tagged_inj w vs us wx wy rest) ∙ sym vy,
      )
