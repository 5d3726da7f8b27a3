-- ===== src/Base/Hex/Laws.antt =====
-- What the loop over hexadecimal pairs accepts, and that it reads what the formats write.
use Prim.Native.Nat.{ℕ, ◌+◌, ◌*◌, ◌/◌, ◌%◌, ◌<◌}
use mathlib.Core.Path.{◌≡◌, refl}
use mathlib.Core.Logic.{◌≢◌, ◌↔◌, ◌⊎◌, inl, inr}
use mathlib.Core.Bool.{true}
use mathlib.Core.Option.{some}
use mathlib.Core.List.{[], ◌∷◌}
use native.Mathlib.Omega.{arith}
use pgl_validate.Base.Tests.{◌==◌, Bool-cases, Option-cases}
use pgl_validate.Base.Lists.{length}
use pgl_validate.Base.Outcome.{Error, ok, >>=-eq-ok, ok_inj}
use pgl_validate.Base.Text.{Bytes, All, IsByte, begins_char}
use pgl_validate.Base.Digits.{to_digit, scan_digits, from_str_radix, lower_digit, digit-lower_digit}
use pgl_validate.Base.Hex.{at_boundary, hex_pair, hex_pairs, hex_of}

-- Two hexadecimal digits, or a plus sign and one digit, and the byte that they stand for.
abbrev pub IsPair : ℕ → ℕ → ℕ → Type 0
IsPair a b v =
    ((x : ℕ) × (y : ℕ) × (to_digit 16 a ≡ some x) × (to_digit 16 b ≡ some y) × (v ≡ x * 16 + y))
    ⊎ ((a ≡ b'+') × (to_digit 16 b ≡ some v))

-- A text made of such pairs, and the bytes that it stands for.
abbrev pub IsHexText : Bytes → Bytes → Type 0
IsHexText [] [] = Unit
IsHexText [] (v ∷ vs) = ⊥
IsHexText (a ∷ []) vs = ⊥
IsHexText (a ∷ b ∷ s) [] = ⊥
IsHexText (a ∷ b ∷ s) (v ∷ vs) = IsPair a b v × IsHexText s vs

pub digit-lt : (radix c d : ℕ) → to_digit radix c ≡ some d → d < radix
unfolding to_digit
digit-lt radix c d h = ground arith

digit_ne_plus : (c d : ℕ) → to_digit 16 c ≡ some d → c ≢ b'+'
unfolding to_digit
digit_ne_plus c d h = ground arith

IsPair-sound : (a b v : ℕ) → from_str_radix 16 255 (a ∷ b ∷ []) ≡ some v → IsPair a b v
unfolding from_str_radix scan_digits
IsPair-sound a b v h = elim (Option-cases (to_digit 16 b)) [
  | inl nb ↦ absurd (ground arith)
  | inr (y, q) ↦ elim (Bool-cases (a == b'+')) [
    | inl plus ↦ inr (ground arith, ground (arith, digit-lt 16 b y q))
    | inr other ↦ elim (Option-cases (to_digit 16 a)) [
      | inl na ↦ absurd (ground arith)
      | inr (x, p) ↦ inl (x, y, p, q, ground (arith, digit-lt 16 a x p, digit-lt 16 b y q))
    ]
  ]
]

pair_complete : (a b v : ℕ) → IsPair a b v → from_str_radix 16 255 (a ∷ b ∷ []) ≡ some v
unfolding from_str_radix scan_digits
pair_complete a b v (inl (x, y, p, q, e)) =
    ground (arith, digit-lt 16 a x p, digit-lt 16 b y q, digit_ne_plus a x p)
pair_complete a b v (inr (p, q)) = ground (arith, digit-lt 16 b v q)

pair-begins_char : (a b v : ℕ) → IsPair a b v → begins_char a ≡ true
unfolding begins_char to_digit
pair-begins_char a b v h = ground arith

hex_pair_iff :
    (e : Error) (a b v : ℕ) (rest : Bytes)
    → (hex_pair e a b rest ≡ ok v) ↔ ((at_boundary rest ≡ true) × IsPair a b v)
unfolding hex_pair
hex_pair_iff e a b v rest = (
  λ h. (ground arith, IsPair-sound a b v (ground arith)),
  λ h. ground (arith, h.0, pair_complete a b v h.1),
)

IsHexText-at_boundary : (s vs : Bytes) → IsHexText s vs → at_boundary s ≡ true
unfolding at_boundary
IsHexText-at_boundary [] vs h = refl
IsHexText-at_boundary (a ∷ []) vs h = absurd h
IsHexText-at_boundary (a ∷ b ∷ s) [] h = absurd h
IsHexText-at_boundary (a ∷ b ∷ s) (v ∷ vs) h = pair-begins_char a b v h.0

hex_pairs_sound :
    (e : ℕ → Error) (stride i : ℕ) (s vs : Bytes) → hex_pairs e stride i s ≡ ok vs → IsHexText s vs
unfolding hex_pairs
hex_pairs_sound e stride i [] [] h = tt
hex_pairs_sound e stride i [] (v ∷ vs) h = cc
hex_pairs_sound e stride i (a ∷ []) vs h = cc
hex_pairs_sound e stride i (a ∷ b ∷ s) vs h =
    let (x, px, rest) = >>=-eq-ok (hex_pair (e i) a b s) _ h in
    let (xs, pxs, done) = >>=-eq-ok (hex_pairs e stride (i + stride) s) _ rest in
    rw (← ok_inj done)
      (((hex_pair_iff (e i) a b x s).0 px).1, hex_pairs_sound e stride (i + stride) s xs pxs)

hex_pairs_complete :
    (e : ℕ → Error) (stride i : ℕ) (s vs : Bytes) → IsHexText s vs → hex_pairs e stride i s ≡ ok vs
unfolding hex_pairs
hex_pairs_complete e stride i [] [] h = refl
hex_pairs_complete e stride i [] (v ∷ vs) h = absurd h
hex_pairs_complete e stride i (a ∷ []) vs h = absurd h
hex_pairs_complete e stride i (a ∷ b ∷ s) [] h = absurd h
hex_pairs_complete e stride i (a ∷ b ∷ s) (v ∷ vs) h = rw (
  (hex_pair_iff (e i) a b v s).1 (IsHexText-at_boundary s vs h.1, h.0),
  hex_pairs_complete e stride (i + stride) s vs h.1,
)

-- A text is accepted exactly when it is made of pairs, and then its bytes are returned.
pub hex_pairs_iff :
    (e : ℕ → Error) (stride i : ℕ) (s vs : Bytes)
    → (hex_pairs e stride i s ≡ ok vs) ↔ IsHexText s vs
hex_pairs_iff e stride i s vs =
    (hex_pairs_sound e stride i s vs, hex_pairs_complete e stride i s vs)

lower-IsPair : (b : ℕ) → IsByte b → IsPair (lower_digit (b / 16)) (lower_digit (b % 16)) b
lower-IsPair b h = inl (
  b / 16,
  b % 16,
  digit-lower_digit _ (omega arith),
  digit-lower_digit _ (omega arith),
  omega arith,
)

pub hex_of-IsHexText : (bs : Bytes) → All IsByte bs → IsHexText (hex_of bs) bs
unfolding hex_of
hex_of-IsHexText [] h = tt
hex_of-IsHexText (b ∷ bs) h = (lower-IsPair b h.0, hex_of-IsHexText bs h.1)

pub length-hex_of : (bs : Bytes) → length (hex_of bs) ≡ 2 * length bs
unfolding hex_of
length-hex_of [] = omega arith
length-hex_of (b ∷ bs) = omega (arith, length-hex_of bs)
