-- ===== src/Transport/Dsn.antt =====
-- transport/libpq.rs: `dsn_with_connect_timeout`.
use pgl_validate.Base.{
  ℕ, suc, ◌≡◌, refl, [], ◌∷◌, ◌++◌, map, arith, ◌||◌, if◌then◌else◌, Bool, true, Bool-cases, inl,
  inr,
}
use mathlib.Core.List.{map-append}
use pgl_validate.Base.Int.{ℤ, pos, negsuc}
use pgl_validate.Base.Text.{Bytes, codes, contains, contains_char, starts_with, ascii_lower}
use pgl_validate.Base.Digits.{format_decimal}

-- `{}` of an `i32`.
unfoldable pub format_i32 : ℤ → Bytes
format_i32 (pos n) = format_decimal n
format_i32 (negsuc n) = b'-' ∷ format_decimal (suc n)

unfoldable pub dsn_with_connect_timeout : Bytes → ℤ → Bytes
dsn_with_connect_timeout dsn seconds =
    if contains (codes "connect_timeout") (map ascii_lower dsn)
    then dsn
    else if starts_with (codes "postgresql://") dsn || starts_with (codes "postgres://") dsn
    then (dsn
        ++ ((if contains_char b'?' dsn then b'&' else b'?')
            ∷ (codes "connect_timeout=" ++ format_i32 seconds)))
    else (dsn ++ (codes " connect_timeout=" ++ format_i32 seconds))

abbrev keyword : Bytes
keyword = codes "connect_timeout"

starts_with-append : (p s : Bytes) → starts_with p (p ++ s) ≡ true
unfolding starts_with
starts_with-append [] s = refl
starts_with-append (c ∷ p) s = ground (arith, starts_with-append p s)

contains-append : (p x s : Bytes) → contains p s ≡ true → contains p (x ++ s) ≡ true
unfolding contains
contains-append p [] s h = h
contains-append p (c ∷ x) s h = ground (arith, contains-append p x s h)

contains_here : (c : ℕ) (p s : Bytes) → contains (c ∷ p) (c ∷ (p ++ s)) ≡ true
contains_here c p s = contains_first (c ∷ p) (c ∷ (p ++ s)) (starts_with-append (c ∷ p) s)
  where
    contains_first : (q t : Bytes) → starts_with q t ≡ true → contains q t ≡ true
    contains_first q [] h = unfold contains in h
    contains_first q (d ∷ t) h = unfold contains in ground arith

-- A text with the keyword somewhere behind it has the keyword, in lower case too.
keyword_behind :
    (x : Bytes) (c : ℕ) (s : Bytes)
    → contains keyword (map ascii_lower (x ++ c ∷ (codes "connect_timeout=" ++ s))) ≡ true
unfolding ascii_lower
keyword_behind x c s = rw map-append (
    contains-append keyword (map ascii_lower x) _ (
      contains-append keyword (ascii_lower c ∷ []) _
        (contains_here b'c' (codes "onnect_timeout") (b'=' ∷ map ascii_lower s))))

abbrev is_uri : Bytes → Bool
is_uri dsn = starts_with (codes "postgresql://") dsn || starts_with (codes "postgres://") dsn

dsn_named :
    (dsn : Bytes) (seconds : ℤ)
    → contains keyword (map ascii_lower dsn) ≡ true
    → dsn_with_connect_timeout dsn seconds ≡ dsn
unfolding dsn_with_connect_timeout
dsn_named dsn seconds h = rw h

dsn_names_timeout :
    (dsn : Bytes) (seconds : ℤ)
    → contains keyword (map ascii_lower (dsn_with_connect_timeout dsn seconds)) ≡ true
unfolding dsn_with_connect_timeout
dsn_names_timeout dsn seconds = elim (Bool-cases (contains keyword (map ascii_lower dsn))) [
  | inl named ↦ rw named named
  | inr bare ↦ elim (Bool-cases (is_uri dsn)) [
    | inl uri ↦
        rw (bare, uri)
          (keyword_behind dsn (if contains_char b'?' dsn then b'&' else b'?') (format_i32 seconds))
    | inr pairs ↦ rw (bare, pairs) (keyword_behind dsn b' ' (format_i32 seconds))
  ]
]

-- A connection string that was given a timeout names one and is not changed again, whatever the
-- second timeout.
pub dsn_with_connect_timeout_idem :
    (dsn : Bytes) (first second : ℤ)
    → (contains (codes "connect_timeout") (map ascii_lower (dsn_with_connect_timeout dsn first))
        ≡ true)
      × (dsn_with_connect_timeout (dsn_with_connect_timeout dsn first) second
          ≡ dsn_with_connect_timeout dsn first)
dsn_with_connect_timeout_idem dsn first second = (
  dsn_names_timeout dsn first,
  dsn_named (dsn_with_connect_timeout dsn first) second (dsn_names_timeout dsn first),
)
