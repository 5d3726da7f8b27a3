-- ===== src/Build/Link.antt =====
-- build.rs: what `main` prints for the linker, and when it panics.
use pgl_validate.Base.{
  ◌≡◌, ◌≢◌, refl, ◌⊎◌, inl, inr, Bool-cases, List, ◌∷◌, ◌++◌, [], Option, none, some, Result, ok,
  err, panic,
}
use pgl_validate.Base.Text.{Bytes, codes, bytes_eq, trim}
use pgl_validate.Base.Text.Laws.{bytes_eq_sound, bytes_ne}
use pgl_validate.Base.Steps.{◌>>=◌, ◌>>◌, lift, log, next}
use pgl_validate.Build.{watch_major, or_panic, pg_config_output, link_line, main}
use pgl_validate.Build.Config.{Host, Printed, or_empty}
use pgl_validate.Build.Search.{
  config_program, config_variables, active_pg_major, command_output, find_pg_config,
}
use pgl_validate.Build.Usable.{Usable, AllAbsent, IsFirst, Found, find_pg_config-Found}

module _ (host : Host) where
  abbrev pub libdir_of : Bytes → Option Bytes
  libdir_of p = command_output host p (codes "--libdir")

  -- The variable of the target, or nothing.
  abbrev target : Bytes → Bytes
  target name = or_empty (host.var name)

  -- The library has its own name on Windows with the MSVC tools.
  unfoldable pub IsLibrary : Bytes → Type 0
  IsLibrary line =
      ((target (codes "CARGO_CFG_TARGET_OS") ≡ codes "windows")
        × (target (codes "CARGO_CFG_TARGET_ENV") ≡ codes "msvc")
        × (line ≡ codes "cargo:rustc-link-lib=dylib=libpq"))
      ⊎ (((target (codes "CARGO_CFG_TARGET_OS") ≢ codes "windows")
            ⊎ (target (codes "CARGO_CFG_TARGET_ENV") ≢ codes "msvc"))
          × (line ≡ codes "cargo:rustc-link-lib=pq"))

  abbrev pub variables : List Bytes
  variables = codes "PGL_VALIDATE_PG_CONFIG" ∷ codes "PGRX_PG_CONFIG_PATH" ∷ codes "PG_CONFIG" ∷ []

  -- The path that the search finds: the one that the first variable with an existing path names, and
  -- another that can be used only if no variable names one.
  unfoldable pub Chosen : Bytes → Type 0
  Chosen p = ((AllAbsent host variables) ⊎ (IsFirst host p variables)) × Usable host p

  -- The end of `main`: the last two lines name the directory that the chosen `pg_config` told and the
  -- library, or there is a panic, since no `pg_config` was found or it does not tell its directory.
  unfoldable pub Linked : Result (Unit {0}) × List Bytes → Type 0
  Linked (ok u, t) =
      (p : Bytes) × Chosen p
      × (text : Bytes) × (libdir_of p ≡ some text)
      × (library : Bytes) × IsLibrary library
      × (t0 : List Bytes) × (t
          ≡ library ∷ (codes "cargo:rustc-link-search=native=" ++ trim text) ∷ t0)
  Linked (panic, t) =
      ((AllAbsent host variables) × (command_output host config_program (codes "--version") ≡ none))
      ⊎ ((p : Bytes) × Chosen p × (libdir_of p ≡ none))
  Linked (err e, t) = ⊥

  link_line-IsLibrary : IsLibrary (link_line host)
  unfolding link_line IsLibrary
  link_line-IsLibrary =
      elim (Bool-cases (bytes_eq (target (codes "CARGO_CFG_TARGET_OS")) (codes "windows"))) [
        | inl os ↦
            elim (Bool-cases (bytes_eq (target (codes "CARGO_CFG_TARGET_ENV")) (codes "msvc"))) [
              | inl env ↦ rw (os, env) (inl (bytes_eq_sound _ _ os, bytes_eq_sound _ _ env, refl))
              | inr env ↦ rw (os, env) (inr (inr (bytes_ne _ _ env), refl))
            ]
        | inr os ↦ rw os (inr (inl (bytes_ne _ _ os), refl))
      ]

  abbrev link_with : Bytes → Printed (Unit {0})
  link_with p = do
    libdir ← lift (pg_config_output host p (codes "--libdir"))
    log (codes "cargo:rustc-link-search=native=" ++ libdir)
    log (link_line host)

  link_with-Linked : (p : Bytes) (t : List Bytes) → Chosen p → Linked (link_with p t)
  unfolding Linked pg_config_output
  link_with-Linked p t chosen = with_output (libdir_of p) refl
    where
      with_output :
          (o : Option Bytes)
          → libdir_of p ≡ o
          → Linked (
              next
                (elim o [ none ↦ panic | some text ↦ ok (trim text) ])
                (λ libdir.
                  log (codes "cargo:rustc-link-search=native=" ++ libdir) >> log (link_line host))
                t)
      with_output none h = inr (p, chosen, h)
      with_output (some text) h = (p, chosen, text, h, link_line host, link_line-IsLibrary, t, refl)

  abbrev after_search : Option Bytes → Printed (Unit {0})
  after_search found = do pg_config ← lift (or_panic found); link_with pg_config

  search-Linked :
      (r : Result (Option Bytes)) (t : List Bytes)
      → Found host variables (r, t)
      → Linked (next r after_search t)
  unfolding Linked or_panic Chosen
  search-Linked (ok none) t h = inl h
  search-Linked (ok (some p)) t h = link_with-Linked p t h
  search-Linked (err e) t h = absurd h
  search-Linked panic t h = absurd h

  major-Linked :
      (major : Option Bytes) (t : List Bytes)
      → Linked (
          next
            (watch_major major t).0
            (λ _. find_pg_config host >>= after_search)
            (watch_major major t).1)
  unfolding watch_major config_variables
  major-Linked none t = search-Linked (find_pg_config host t).0 _ (find_pg_config-Found host t)
  major-Linked (some major) t =
      search-Linked (find_pg_config host _).0 _ (find_pg_config-Found host _)

-- Whatever the environment, the files and the programs of the host answer, the build script ends
-- in one of two ways. Either the last two lines that it prints are the search path of the linker,
-- which is the trimmed output of `--libdir` of the chosen `pg_config`, and the library, which is
-- `libpq` on Windows with the MSVC tools and `pq` everywhere else. Or it panics, and then the chosen
-- `pg_config` does not answer `--libdir`, or there is none, since no variable names an existing path
-- and the program `pg_config` does not answer `--version`. The chosen one is the existing path that
-- the first of PGL_VALIDATE_PG_CONFIG, PGRX_PG_CONFIG_PATH and PG_CONFIG names; only if none of
-- them names one it is another path that exists or the program `pg_config`, which answered `--version`.
pub main-Linked : (host : Host) (printed : List Bytes) → Linked host (main host printed)
unfolding main
main-Linked host printed = major-Linked host (active_pg_major host) _
