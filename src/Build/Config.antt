-- ===== src/Build/Config.antt =====
-- build.rs: the host of the build, and the text of pgrx's configuration file.
use pgl_validate.Base.{ℕ, ◌==◌, ◌&&◌, Bool, List, [], ◌∷◌, Option, none, some, if◌then◌else◌}
use pgl_validate.Base.Text.{Bytes, bytes_eq, trim}
use pgl_validate.Base.Steps.{Steps}

-- The output of a process that ran: whether it succeeded, and its standard output.
pub record Output : Type 0 where
  pub success : Bool
  pub stdout : Bytes

pub record Host : Type 0 where
  -- `env::var_os`, and `env::var`, which is none for a value that is no text, too
  pub var_os : Bytes → Option Bytes
  pub var : Bytes → Option Bytes
  -- `PathBuf::exists` and `PathBuf::join`, and `fs::read_to_string` without its error
  pub exists : Bytes → Bool
  pub join : Bytes → Bytes → Bytes
  pub read_to_string : Bytes → Option Bytes
  -- `Command::output` of a program with one argument
  pub output : Bytes → Bytes → Option Output

abbrev pub Printed : Type 0 → Type 0
Printed = Steps Bytes

-- `unwrap_or_default`.
abbrev pub or_empty : Option Bytes → Bytes
or_empty none = []
or_empty (some s) = s

-- `filter(|p| p.exists())`.
unfoldable pub existing : Host → Option Bytes → Option Bytes
existing host none = none
existing host (some path) = if host.exists path then some path else none

-- `str::lines`: the lines end with a line feed, and a carriage return before it belongs to the end.
unfoldable pub begin_line : ℕ → List Bytes → List Bytes
begin_line c [] = (c ∷ []) ∷ []
begin_line c (l ∷ ls) = (c ∷ l) ∷ ls

unfoldable pub lines : Bytes → List Bytes
lines [] = []
lines (c ∷ []) = if c == 10 then [] ∷ [] else (c ∷ []) ∷ []
lines (c ∷ d ∷ s) =
    let rest = lines (d ∷ s) in
    if c == 10 then [] ∷ rest else if (c == 13) && (d == 10) then rest else begin_line c rest

-- `split_once('=')`.
unfoldable pub split_equals : Bytes → Option (Bytes × Bytes)
split_equals [] = none
split_equals (c ∷ s) =
    let rest = split_equals s in if c == b'=' then some ([], s) else prepend c rest
  where
    prepend : ℕ → Option (Bytes × Bytes) → Option (Bytes × Bytes)
    prepend c none = none
    prepend c (some (key, value)) = some (c ∷ key, value)

-- `trim_matches` of one character: `strip_start` at the front, and the same at the end.
unfoldable pub strip_start : ℕ → Bytes → Bytes
strip_start q [] = []
strip_start q (c ∷ s) = let rest = strip_start q s in if c == q then rest else c ∷ s

unfoldable pub strip_end : ℕ → Bytes → Bytes
strip_end q [] = []
strip_end q (c ∷ s) = drop_last q c (strip_end q s)
  where
    drop_last : ℕ → ℕ → Bytes → Bytes
    drop_last q c [] = if c == q then [] else c ∷ []
    drop_last q c (d ∷ rest) = c ∷ d ∷ rest

unfoldable pub trim_matches : ℕ → Bytes → Bytes
trim_matches q s = strip_end q (strip_start q s)

-- The value of a line, without the white space and the quotes around it.
unfoldable pub unquoted : Bytes → Bytes
unquoted value = trim_matches 34 (trim_matches 39 (trim value))

module _ (host : Host) (prefix : Bytes) where
  -- `some` path of a line `prefix = path` whose path exists.
  unfoldable pub line_path : Bytes → Option Bytes
  line_path line = elim (split_equals (trim line)) [
    | none ↦ none
    | some (key, value) ↦
        if bytes_eq (trim key) prefix then existing host (some (unquoted value)) else none
  ]

  unfoldable pub first_path : List Bytes → Option Bytes
  first_path [] = none
  first_path (line ∷ ls) = elim (line_path line) [ none ↦ first_path ls | some path ↦ some path ]
