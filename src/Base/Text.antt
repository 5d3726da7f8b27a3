-- ===== src/Base/Text.antt =====
-- Text as the list of its bytes, and what the code uses of Rust's `str`.
pub mod Laws
pub mod Trim
use Prim.Native.Nat.{ℕ, ◌+◌, ◌<◌}
use Prim.Native.Char.{code}
use Prim.Native.String.{String}
use mathlib.Core.Bool.{Bool, true, false, ◌&&◌, ◌||◌}
use mathlib.Core.Option.{Option, none, some}
use mathlib.Core.List.{List, [], ◌∷◌, ◌++◌}
use pgl_validate.Base.Tests.{◌==◌, ltb, leb, if◌then◌else◌}

abbrev pub Bytes : Type 0
Bytes = List ℕ

-- The code points of a literal, which are its bytes when the text is ASCII.
abbrev pub codes : String → Bytes
codes String.[] = []
codes (String.◌∷◌ c s) = code c ∷ codes s

abbrev pub concat : List Bytes → Bytes
concat [] = []
concat (x ∷ xs) = x ++ concat xs

module _ {ℓ κ} {A : Type ℓ} (P : A → Type κ) where
  abbrev pub All : List A → Type κ
  All [] = Unit
  All (x ∷ xs) = P x × All xs

  pub All-append : (xs ys : List A) → All xs → All ys → All (xs ++ ys)
  All-append [] ys hx hy = hy
  All-append (x ∷ xs) ys hx hy = (hx.0, All-append xs ys hx.1 hy)

abbrev pub IsByte : ℕ → Type 0
IsByte b = b < 256

-- Equality of two texts.
unfoldable pub bytes_eq : Bytes → Bytes → Bool
bytes_eq [] [] = true
bytes_eq (x ∷ xs) (y ∷ ys) = (x == y) && bytes_eq xs ys
bytes_eq _ _ = false

-- `str::strip_prefix`.
unfoldable pub strip_prefix : Bytes → Bytes → Option Bytes
strip_prefix [] s = some s
strip_prefix (p ∷ ps) [] = none
strip_prefix (p ∷ ps) (c ∷ cs) = if p == c then strip_prefix ps cs else none

-- `str::starts_with`.
unfoldable pub starts_with : Bytes → Bytes → Bool
starts_with [] s = true
starts_with (p ∷ ps) [] = false
starts_with (p ∷ ps) (c ∷ cs) = (p == c) && starts_with ps cs

-- `str::contains`: `p` begins at some position of the text.
unfoldable pub contains : Bytes → Bytes → Bool
unfolding starts_with
contains p [] = starts_with p []
contains p (c ∷ cs) = starts_with p (c ∷ cs) || contains p cs

-- `str::contains` of one character.
unfoldable pub contains_char : ℕ → Bytes → Bool
contains_char x [] = false
contains_char x (c ∷ cs) = (x == c) || contains_char x cs

-- `str::to_ascii_lowercase`.
unfoldable pub ascii_lower : ℕ → ℕ
ascii_lower c = if leb b'A' c && leb c b'Z' then c + 32 else c

-- A byte that may follow a boundary of characters, as `str::is_char_boundary` tests it.
unfoldable pub begins_char : ℕ → Bool
begins_char c = ltb c 128 || leb 192 c

-- `str::trim` takes the characters with the Unicode property White_Space away. `trim_start` takes
-- those at the front: in ASCII 9 to 13 and 32, in two bytes U+0085 and U+00A0, in three bytes
-- U+1680, U+2000 to U+200A, U+2028, U+2029, U+202F, U+205F and U+3000.
abbrev pub ascii_space : ℕ → Bool
ascii_space c = (leb 9 c && leb c 13) || (c == 32)

abbrev pub space_of_two : ℕ → ℕ → Bool
space_of_two c d = (c == 0xc2) && ((d == 0x85) || (d == 0xa0))

abbrev pub space_of_three : ℕ → ℕ → ℕ → Bool
space_of_three c d e =
    ((c == 0xe1) && ((d == 0x9a) && (e == 0x80)))
    || (((c == 0xe2)
          && ((d == 0x80)
              && ((leb 0x80 e && leb e 0x8a) || ((e == 0xa8) || ((e == 0xa9) || (e == 0xaf))))))
        || (((c == 0xe2) && ((d == 0x81) && (e == 0x9f)))
            || ((c == 0xe3) && ((d == 0x80) && (e == 0x80)))))

unfoldable pub trim_start : Bytes → Bytes
trim_start [] = []
trim_start (c ∷ []) = if ascii_space c then [] else c ∷ []
trim_start (c ∷ d ∷ []) =
    let rest = trim_start (d ∷ []) in
    if ascii_space c then rest else if space_of_two c d then [] else c ∷ d ∷ []
trim_start (c ∷ d ∷ e ∷ s) =
    let rest = trim_start (d ∷ e ∷ s) in
    let rest_of_two = trim_start (e ∷ s) in
    let rest_of_three = trim_start s in
    if ascii_space c
    then rest
    else if space_of_two c d
    then rest_of_two
    else if space_of_three c d e
    then rest_of_three
    else c ∷ d ∷ e ∷ s

abbrev pub is_empty : Bytes → Bool
is_empty [] = true
is_empty (c ∷ s) = false

-- `value.trim().is_empty()`.
unfoldable pub is_blank : Bytes → Bool
is_blank s = is_empty (trim_start s)

-- The spaces at the end; on UTF-8 no space starts inside a character.
unfoldable pub trim_end : Bytes → Bytes
trim_end [] = []
trim_end (c ∷ s) = let rest = c ∷ trim_end s in if is_blank (c ∷ s) then [] else rest

unfoldable pub trim : Bytes → Bytes
trim s = trim_end (trim_start s)
