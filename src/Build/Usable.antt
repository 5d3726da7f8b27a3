-- ===== src/Build/Usable.antt =====
-- build.rs: what the search for `pg_config` and the linker's lines rely on: a `pg_config` that is
-- there or that answers.
use pgl_validate.Base.{
  ◌≡◌, refl, ◌⊎◌, inl, inr, Bool, true, false, List, [], ◌∷◌, ◌++◌, Option, none, some, Result, ok,
  err, panic, if◌then◌else◌,
}
use pgl_validate.Base.Text.{Bytes, codes, bytes_eq, trim}
use pgl_validate.Base.Steps.{next, lift}
use pgl_validate.Build.Config.{Host, existing, lines, unquoted, split_equals, line_path, first_path}
use pgl_validate.Build.Search.{
  or_else, config_program, config_variables, active_pg_major, command_output, first_variable,
  search_file, search_home, pg_config_from_pgrx_config, default_pg_config, or_default, search_major,
  search_version, after_variables, find_pg_config,
}

module _ (host : Host) where
  -- A program that exists, or `pg_config` of the search path, which told its version.
  abbrev pub Usable : Bytes → Type 0
  Usable p =
      (host.exists p ≡ true)
      ⊎ ((p ≡ config_program)
          × (v : Bytes) × (command_output host config_program (codes "--version") ≡ some v))

  abbrev pub UsableIfAny : Option Bytes → Type 0
  UsableIfAny none = command_output host config_program (codes "--version") ≡ none
  UsableIfAny (some p) = Usable p

  abbrev ExistsIfAny : Option Bytes → Type 0
  ExistsIfAny none = Unit {0}
  ExistsIfAny (some p) = host.exists p ≡ true

  -- A variable that names no path that exists.
  abbrev pub Absent : Bytes → Type 0
  Absent name =
      (host.var_os name ≡ none)
      ⊎ ((path : Bytes) × (host.var_os name ≡ some path) × (host.exists path ≡ false))

  unfoldable pub AllAbsent : List Bytes → Type 0
  AllAbsent [] = Unit
  AllAbsent (name ∷ rest) = (Absent name) × (AllAbsent rest)

  -- The path is that of the first of the variables which names a path that exists.
  unfoldable pub IsFirst : Bytes → List Bytes → Type 0
  IsFirst p [] = ⊥
  IsFirst p (name ∷ rest) =
      ((host.var_os name ≡ some p) × (host.exists p ≡ true)) ⊎ ((Absent name) × (IsFirst p rest))

  -- A search that ended, in a path that can be used or without one.
  abbrev pub Searched : Result (Option Bytes) × List Bytes → Type 0
  Searched (ok found, t) = UsableIfAny found
  Searched (err e, t) = ⊥
  Searched (panic, t) = ⊥

  if-Exists : (b : Bool) (p : Bytes) → host.exists p ≡ b → ExistsIfAny (if b then some p else none)
  if-Exists true p h = h
  if-Exists false p h = tt

  existing-Exists : (o : Option Bytes) → ExistsIfAny (existing host o)
  unfolding existing
  existing-Exists none = tt
  existing-Exists (some p) = if-Exists (host.exists p) p refl

  or_else-Exists : (o k : Option Bytes) → ExistsIfAny o → ExistsIfAny k → ExistsIfAny (or_else o k)
  or_else-Exists none k ho hk = hk
  or_else-Exists (some p) k ho hk = ho

  first_variable-Exists : (names : List Bytes) → ExistsIfAny (first_variable host names)
  unfolding first_variable
  first_variable-Exists [] = tt
  first_variable-Exists (name ∷ rest) =
      or_else-Exists (existing host (host.var_os name)) _ (existing-Exists (host.var_os name))
        (first_variable-Exists rest)

  choice-Exists :
      (b : Bool) (o : Option Bytes) → ExistsIfAny o → ExistsIfAny (if b then o else none)
  choice-Exists true o h = h
  choice-Exists false o h = tt

  line_path-Exists : (prefix line : Bytes) → ExistsIfAny (line_path host prefix line)
  unfolding line_path
  line_path-Exists prefix line = with_pair (split_equals (trim line))
    where
      with_pair :
          (o : Option (Bytes × Bytes))
          → ExistsIfAny (elim o [
            | none ↦ none
            | some (key, value) ↦
                if bytes_eq (trim key) prefix then existing host (some (unquoted value)) else none
          ])
      with_pair none = tt
      with_pair (some (key, value)) = choice-Exists _ _ (existing-Exists (some (unquoted value)))

  first_path-Exists : (prefix : Bytes) (ls : List Bytes) → ExistsIfAny (first_path host prefix ls)
  unfolding first_path
  first_path-Exists prefix [] = tt
  first_path-Exists prefix (line ∷ ls) =
      or_rest (line_path host prefix line) _ (line_path-Exists prefix line)
        (first_path-Exists prefix ls)
    where
      or_rest :
          (o k : Option Bytes)
          → ExistsIfAny o
          → ExistsIfAny k
          → ExistsIfAny (elim o [ none ↦ k | some path ↦ some path ])
      or_rest none k ho hk = hk
      or_rest (some p) k ho hk = ho

  search_file-Exists : (prefix : Bytes) (o : Option Bytes) → ExistsIfAny (search_file host prefix o)
  unfolding search_file
  search_file-Exists prefix none = tt
  search_file-Exists prefix (some config) = first_path-Exists prefix (lines config)

  default-Usable : UsableIfAny (default_pg_config host)
  unfolding default_pg_config
  default-Usable = with_output (command_output host config_program (codes "--version")) refl
    where
      with_output :
          (o : Option Bytes)
          → command_output host config_program (codes "--version") ≡ o
          → UsableIfAny (elim o [ none ↦ none | some v ↦ some config_program ])
      with_output none h = h
      with_output (some v) h = inr (refl, v, h)

  or_default-Usable : (o : Option Bytes) → ExistsIfAny o → UsableIfAny (or_default host o)
  unfolding or_default
  or_default-Usable none h = default-Usable
  or_default-Usable (some p) h = inl h

  search_home-Searched :
      (major : Bytes) (home : Option Bytes) (t : List Bytes)
      → Searched (
          let (r, t1) = search_home host major home t in
          next r (λ found. lift (ok (or_default host found))) t1)
  unfolding search_home
  search_home-Searched major none t = or_default-Usable none tt
  search_home-Searched major (some home) t = or_default-Usable _ (search_file-Exists _ _)

  search_major-Searched :
      (major : Bytes) (o : Option Bytes) (t : List Bytes)
      → ExistsIfAny o
      → Searched (search_major host major o t)
  unfolding search_major pg_config_from_pgrx_config
  search_major-Searched major none t h = search_home-Searched major _ t
  search_major-Searched major (some p) t h = inl h

  search_version-Searched :
      (major : Option Bytes) (t : List Bytes) → Searched (search_version host major t)
  unfolding search_version
  search_version-Searched none t = default-Usable
  search_version-Searched (some major) t =
      search_major-Searched major _ t
        (existing-Exists (host.var_os (codes "PG" ++ (major ++ codes "_PG_CONFIG"))))

  -- What the search takes from a list of variables.
  abbrev Taken : List Bytes → Option Bytes → Type 0
  Taken names none = AllAbsent names
  Taken names (some p) = IsFirst p names

  OneOf : Bytes → Option Bytes → Type 0
  OneOf name none = Absent name
  OneOf name (some p) = (host.var_os name ≡ some p) × (host.exists p ≡ true)

  if-OneOf :
      (name path : Bytes) (b : Bool)
      → host.var_os name ≡ some path
      → host.exists path ≡ b
      → OneOf name (if b then some path else none)
  unfolding OneOf
  if-OneOf name path true h e = (h, e)
  if-OneOf name path false h e = inr (path, h, e)

  existing-OneOf :
      (name : Bytes) (o : Option Bytes) → host.var_os name ≡ o → OneOf name (existing host o)
  unfolding existing OneOf
  existing-OneOf name none h = inl h
  existing-OneOf name (some path) h = if-OneOf name path (host.exists path) h refl

  or_else-Taken :
      (name : Bytes) (rest : List Bytes) (o k : Option Bytes)
      → OneOf name o
      → Taken rest k
      → Taken (name ∷ rest) (or_else o k)
  unfolding OneOf AllAbsent IsFirst
  or_else-Taken name rest none none ho hk = (ho, hk)
  or_else-Taken name rest none (some p) ho hk = inr (ho, hk)
  or_else-Taken name rest (some p) k ho hk = inl ho

  first_variable-Taken : (names : List Bytes) → Taken names (first_variable host names)
  unfolding first_variable AllAbsent
  first_variable-Taken [] = tt
  first_variable-Taken (name ∷ rest) =
      or_else-Taken name rest (existing host (host.var_os name)) _
        (existing-OneOf name (host.var_os name) refl) (first_variable-Taken rest)

  -- A search that ended, with what the variables had to do with it.
  abbrev pub Found : List Bytes → Result (Option Bytes) × List Bytes → Type 0
  Found names (ok none, t) =
      (AllAbsent names) × (command_output host config_program (codes "--version") ≡ none)
  Found names (ok (some p), t) = ((AllAbsent names) ⊎ (IsFirst p names)) × Usable p
  Found names (err e, t) = ⊥
  Found names (panic, t) = ⊥

  absent-Found :
      (names : List Bytes) (r : Result (Option Bytes)) (t : List Bytes)
      → AllAbsent names
      → Searched (r, t)
      → Found names (r, t)
  absent-Found names (ok none) t absent h = (absent, h)
  absent-Found names (ok (some p)) t absent h = (inl absent, h)
  absent-Found names (err e) t absent h = h
  absent-Found names panic t absent h = h

  after_variables-Found :
      (names : List Bytes) (o : Option Bytes) (t : List Bytes)
      → ExistsIfAny o
      → Taken names o
      → Found names (after_variables host o t)
  unfolding after_variables
  after_variables-Found names none t h taken =
      absent-Found names (search_version host (active_pg_major host) t).0 _ taken
        (search_version-Searched (active_pg_major host) t)
  after_variables-Found names (some p) t h taken = (inr taken, inl h)

  pub find_pg_config-Found : (t : List Bytes) → Found config_variables (find_pg_config host t)
  unfolding find_pg_config
  find_pg_config-Found t =
      after_variables-Found config_variables (first_variable host config_variables) t
        (first_variable-Exists config_variables) (first_variable-Taken config_variables)
