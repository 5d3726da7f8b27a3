-- ===== src/Settings/Chunks.antt =====
-- lib.rs: the settings that are registered, in their order. The settings of localization and limits.
use pgl_validate.Base.{List, [], ◌∷◌, ◌++◌, some}
use pgl_validate.Base.Int.{pos}
use pgl_validate.Base.Text.{codes}
use pgl_validate.Settings.Kinds.{Guc, int_guc, string_guc, userset, i32_max}

unfoldable pub chunk_settings : List Guc
chunk_settings =
    record {
      name = codes "pgl_validate.localize_threshold";
      short_description = codes "Rows per range while localizing divergence.";
      long_description =
          codes "Controls the smaller chunk size used after a table-level checksum mismatch.";
      kind = int_guc (pos 1000) (pos 1) i32_max;
      context = userset;
    }
    ∷ record {
      name = codes "pgl_validate.max_parallel_chunks";
      short_description = codes "Maximum parallel chunk workers.";
      long_description =
          codes "Upper bound for concurrent chunk subtrees when the async fan-out executor "
          ++ codes "schedules chunk work.";
      kind = int_guc (pos 4) (pos 1) i32_max;
      context = userset;
    }
    ∷ record {
      name = codes "pgl_validate.recheck_passes";
      short_description = codes "Digest-stability recheck pass limit.";
      long_description =
          codes "Maximum later barrier-converged epochs before a continuously hot key "
          ++ codes "becomes indeterminate.";
      kind = int_guc (pos 3) (pos 1) i32_max;
      context = userset;
    }
    ∷ record {
      name = codes "pgl_validate.max_snapshot_age";
      short_description = codes "Maximum validation snapshot age.";
      long_description =
          codes "Re-fence the selected edge vector before starting another chunk when the "
          ++ codes "current convergence epoch is older than this interval.";
      kind = string_guc (some (codes "5min"));
      context = userset;
    }
    ∷ record {
      name = codes "pgl_validate.statement_timeout_per_chunk";
      short_description = codes "Statement timeout per checksum chunk.";
      long_description =
          codes "Hard timeout applied to checksum and localization statements generated for "
          ++ codes "a validation chunk.";
      kind = string_guc (some (codes "30s"));
      context = userset;
    }
    ∷ record {
      name = codes "pgl_validate.throttle_max_lag";
      short_description = codes "Maximum tolerated replication lag before throttling.";
      long_description =
          codes "Design knob for lag-aware validation throttling. Use off to disable lag "
          ++ codes "throttling.";
      kind = string_guc (some (codes "off"));
      context = userset;
    }
    ∷ []
