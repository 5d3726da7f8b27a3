-- ===== src/Settings/Filters.antt =====
-- lib.rs: the settings that are registered, in their order. The settings of filters, fences and chunks.
use pgl_validate.Base.{true, false, List, [], ◌∷◌, ◌++◌, some}
use pgl_validate.Base.Int.{pos}
use pgl_validate.Base.Text.{codes}
use pgl_validate.Settings.Kinds.{Guc, bool_guc, int_guc, string_guc, userset, i32_max}

unfoldable pub filter_settings : List Guc
filter_settings =
    record {
      name = codes "pgl_validate.allow_approximate_filters";
      short_description = codes "Allow approximate row-filter diagnostics.";
      long_description =
          codes "Permit explicit approximate validation of session-sensitive row filters; "
          ++ codes "results are never exact.";
      kind = bool_guc false;
      context = userset;
    }
    ∷ record {
      name = codes "pgl_validate.allow_degraded_fence";
      short_description = codes "Allow degraded pglogical fences.";
      long_description =
          codes "Permit explicit best-effort fencing when a pglogical edge cannot carry "
          ++ codes "barrier tokens; results are never exact.";
      kind = bool_guc false;
      context = userset;
    }
    ∷ record {
      name = codes "pgl_validate.require_barrier";
      short_description = codes "Require exact barrier fences.";
      long_description =
          codes "Abort pglogical edges that cannot carry barrier tokens unless degraded "
          ++ codes "fencing is explicitly allowed.";
      kind = bool_guc true;
      context = userset;
    }
    ∷ record {
      name = codes "pgl_validate.chunk_target_rows";
      short_description = codes "Target rows per checksum chunk.";
      long_description =
          codes "Controls planner-visible key-range chunk sizing for table validation.";
      kind = int_guc (pos 50000) (pos 1) i32_max;
      context = userset;
    }
    ∷ record {
      name = codes "pgl_validate.chunk_max_duration";
      short_description = codes "Maximum planned chunk duration.";
      long_description =
          codes "Split and retry key-range chunks that exceed this elapsed-time threshold, "
          ++ codes "down to single-row ranges.";
      kind = string_guc (some (codes "2s"));
      context = userset;
    }
    ∷ record {
      name = codes "pgl_validate.split_fanout";
      short_description = codes "Merkle split fanout.";
      long_description =
          codes "Target number of child ranges when a slow or oversized key-range chunk is "
          ++ codes "split.";
      kind = int_guc (pos 4) (pos 2) i32_max;
      context = userset;
    }
    ∷ []
