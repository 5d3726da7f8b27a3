-- ===== src/Settings/Tests.antt =====
-- The theorem on the start of the extension applied to a setting with spaces around the name.
use pgl_validate.Base.{◌≡◌, refl, true, false, [], ◌∷◌, some, none, ok}
use pgl_validate.Base.Int.{pos}
use pgl_validate.Base.Text.{codes, trim, trim_start, trim_end, is_blank}
use pgl_validate.Base.Utf8.{is_utf8}
use pgl_validate.Worker.{registered}
use pgl_validate.Settings.{Values, pg_init}
use pgl_validate.Settings.Start.{pg_init-expected_scheduler}

abbrev spaced : Values
spaced = record {
  hash_algorithm = none;
  signed_zero_distinct = false;
  nan_distinct = false;
  scheduler_database = some (codes " db ");
  scheduler_interval = pos 60000;
}

pg_init-expected_scheduler_example : (pg_init spaced true).1 ≡ ok (registered (codes "db") ∷ [])
unfolding trim trim_start trim_end is_blank is_utf8
pg_init-expected_scheduler_example = pg_init-expected_scheduler spaced true refl
