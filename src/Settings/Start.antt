-- ===== src/Settings/Start.antt =====
-- lib.rs: the scheduler at the start of the server.
use pgl_validate.Base.{
  ◌≡◌, refl, ap, ◌∙◌, Bool, true, false, [], ◌∷◌, Option, none, some, ok, if◌then◌else◌,
}
use pgl_validate.Base.Text.{Bytes, is_empty, is_blank, trim}
use pgl_validate.Base.Text.Trim.{is_blank-trim}
use pgl_validate.Base.Utf8.{is_utf8}
use pgl_validate.Worker.{registered, History}
use pgl_validate.Worker.Main.{register_scheduler_worker}
use pgl_validate.Settings.{Values, database_name, scheduler_database_name, start_scheduler, pg_init}

-- The text of a setting is UTF-8.
abbrev pub IsText : Option Bytes → Type 0
IsText none = Unit
IsText (some s) = is_utf8 s ≡ true

-- The scheduler runs for the database of the setting without the spaces around it, and not at all
-- without a name.
abbrev pub expected_scheduler : Option Bytes → History
expected_scheduler none = []
expected_scheduler (some s) = if is_blank s then [] else registered (trim s) ∷ []

register_lem :
    (empty : Bool) (name : Bytes)
    → is_blank name ≡ empty
    → register_scheduler_worker (if empty then none else some name) []
      ≡ (if empty then [] else registered name ∷ [])
unfolding register_scheduler_worker
register_lem true name h = refl
register_lem false name h = rw h refl

start_lem :
    (s : Bytes)
    → is_utf8 s ≡ true
    → start_scheduler (database_name s) ≡ ok (expected_scheduler (some s))
unfolding start_scheduler database_name
start_lem s text =
    let (same, blank) = is_blank-trim s in
    rw text (
      ap ok (
        register_lem (is_empty (trim s)) (trim s) same
        ∙ ap (λ b. if b then [] else registered (trim s) ∷ []) blank))

-- While the server preloads its libraries, the start of the extension registers the scheduler
-- exactly when the setting `scheduler_database`, in UTF-8, holds more than white space, and then for
-- its text without the white space around it. At any other time it registers no worker.
pub pg_init-expected_scheduler :
    (v : Values) (preloading : Bool)
    → IsText v.scheduler_database
    → (pg_init v preloading).1
      ≡ ok (if preloading then expected_scheduler v.scheduler_database else [])
unfolding pg_init scheduler_database_name start_scheduler register_scheduler_worker
pg_init-expected_scheduler v false text = refl
pg_init-expected_scheduler v true text = started v.scheduler_database text
  where
    started :
        (d : Option Bytes)
        → IsText d
        → start_scheduler (elim d [ none ↦ ok none | some s ↦ database_name s ])
          ≡ ok (expected_scheduler d)
    started none text = refl
    started (some s) text = start_lem s text
