-- ===== src/Settings/Registry.antt =====
-- lib.rs: the settings in the order of their registration.
use pgl_validate.Base.{List, ◌++◌}
use pgl_validate.Settings.Kinds.{Guc}
use pgl_validate.Settings.Digests.{digest_settings}
use pgl_validate.Settings.Filters.{filter_settings}
use pgl_validate.Settings.Chunks.{chunk_settings}
use pgl_validate.Settings.Fences.{fence_settings}

unfoldable pub settings : List Guc
settings = digest_settings ++ (filter_settings ++ (chunk_settings ++ fence_settings))
