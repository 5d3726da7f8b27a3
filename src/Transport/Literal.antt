-- ===== src/Transport/Literal.antt =====
-- `sql_literal` of transport/libpq.rs and of worker.rs: a text as a quoted SQL constant.
use pgl_validate.Base.{
  ℕ, ◌≡◌, ◌≢◌, refl, ap, ◌∙◌, sym, [], ◌∷◌, ◌++◌, append_assoc, Option, none, some, arith, ◌==◌,
  if◌then◌else◌, Bool-cases, inl, inr, ==_iff,
}
use pgl_validate.Base.Text.{Bytes}

abbrev pub quote : ℕ
quote = 39

-- `value.replace('\'', "''")`.
unfoldable pub double_quotes : Bytes → Bytes
double_quotes [] = []
double_quotes (c ∷ cs) =
    if c == quote then quote ∷ quote ∷ double_quotes cs else c ∷ double_quotes cs

unfoldable pub sql_literal : Bytes → Bytes
sql_literal value = quote ∷ (double_quotes value ++ quote ∷ [])

-- How PostgreSQL reads a quoted constant under `standard_conforming_strings`: a doubled quote
-- stands for one, and any other quote ends the constant. The result is the value and what follows.
-- The value with one more byte before it.
abbrev prepend : ℕ → Option (Bytes × Bytes) → Option (Bytes × Bytes)
prepend c none = none
prepend c (some (value, rest)) = some (c ∷ value, rest)

unfoldable pub read_body : Bytes → Option (Bytes × Bytes)
read_body [] = none
read_body (c ∷ []) = if c == quote then some ([], []) else none
read_body (c ∷ d ∷ s) =
    let doubled = prepend quote (read_body s) in
    let plain = prepend c (read_body (d ∷ s)) in
    if c == quote then (if d == quote then doubled else some ([], d ∷ s)) else plain

unfoldable pub read_literal : Bytes → Option (Bytes × Bytes)
read_literal [] = none
read_literal (c ∷ s) = if c == quote then read_body s else none

-- The text does not go on with a quote.
abbrev pub NoQuote : Bytes → Type 0
NoQuote [] = Unit
NoQuote (c ∷ s) = c ≢ quote

read_body-plain : (c : ℕ) (s : Bytes) → c ≢ quote → read_body (c ∷ s) ≡ prepend c (read_body s)
unfolding read_body
read_body-plain c [] h = ground arith
read_body-plain c (d ∷ s) h = ground arith

read_body-double_quotes :
    (value rest : Bytes)
    → NoQuote rest
    → read_body (double_quotes value ++ quote ∷ rest) ≡ some (value, rest)
unfolding read_body double_quotes
read_body-double_quotes [] [] h = refl
read_body-double_quotes [] (d ∷ rest) h = ground arith
read_body-double_quotes (c ∷ value) rest h = elim (Bool-cases (c == quote)) [
  | inl is ↦
      rw (is, read_body-double_quotes value rest h)
        (ap (λ (x : ℕ). some (x ∷ value, rest)) (sym ((==_iff c quote).0 is)))
  | inr other ↦ rw other (
      read_body-plain c (double_quotes value ++ quote ∷ rest) (ground arith)
      ∙ ap (prepend c) (read_body-double_quotes value rest h))
]

-- A constant that `sql_literal` wrote is read back as the value, whatever bytes the value holds,
-- and nothing of the value is taken for the text after the constant, when that text does not start
-- with a quote and backslashes stand for themselves in constants.
pub read_literal-sql_literal :
    (value rest : Bytes)
    → NoQuote rest
    → read_literal (sql_literal value ++ rest) ≡ some (value, rest)
unfolding read_literal sql_literal
read_literal-sql_literal value rest h =
    rw (append_assoc (double_quotes value) (quote ∷ []) rest) (read_body-double_quotes value rest h)
