-- ===== src/Settings/Fences.antt =====
-- lib.rs: the settings that are registered, in their order. The settings of waits, histories and the scheduler.
use pgl_validate.Base.{true, List, [], ◌∷◌, ◌++◌, none}
use pgl_validate.Base.Int.{pos}
use pgl_validate.Base.Text.{codes}
use pgl_validate.Settings.Kinds.{Guc, bool_guc, int_guc, string_guc, userset, sighup, i32_max}

unfoldable pub fence_settings : List Guc
fence_settings =
    record {
      name = codes "pgl_validate.fence_timeout_ms";
      short_description = codes "Fence wait timeout in milliseconds.";
      long_description =
          codes "Maximum time to wait for pglogical origin progress or standby replay "
          ++ codes "convergence.";
      kind = int_guc (pos 300000) (pos 1) i32_max;
      context = userset;
    }
    ∷ record {
      name = codes "pgl_validate.fence_poll_interval_ms";
      short_description = codes "Fence polling interval in milliseconds.";
      long_description =
          codes "Interval between convergence checks while waiting for pglogical or standby "
          ++ codes "fences.";
      kind = int_guc (pos 100) (pos 1) i32_max;
      context = userset;
    }
    ∷ record {
      name = codes "pgl_validate.sequence_buffer_multiplier";
      short_description = codes "Sequence cache tolerance multiplier.";
      long_description =
          codes "Allowed sequence-ahead window expressed as cache_size multiplied by this "
          ++ codes "value.";
      kind = int_guc (pos 2) (pos 1) i32_max;
      context = userset;
    }
    ∷ record {
      name = codes "pgl_validate.correlate_conflict_history";
      short_description = codes "Correlate pglogical conflict history.";
      long_description =
          codes "Attach pglogical conflict-history rows to confirmed divergences when "
          ++ codes "available.";
      kind = bool_guc true;
      context = userset;
    }
    ∷ record {
      name = codes "pgl_validate.conflict_history_max_rows";
      short_description = codes "Maximum conflict-history rows per divergence lookup.";
      long_description =
          codes "Bounds pglogical conflict-history correlation work per validation run.";
      kind = int_guc (pos 1000) (pos 1) i32_max;
      context = userset;
    }
    ∷ record {
      name = codes "pgl_validate.scheduler_database";
      short_description =
          codes "Configured database for the optional pgl_validate scheduler worker.";
      long_description =
          codes "Set in server configuration and preload pgl_validate to register the "
          ++ codes "scheduler worker for this database.";
      kind = string_guc none;
      context = sighup;
    }
    ∷ record {
      name = codes "pgl_validate.scheduler_interval_ms";
      short_description = codes "Scheduler worker polling interval in milliseconds.";
      long_description =
          codes "How often the static scheduler worker checks pgl_validate.schedule for due "
          ++ codes "rows.";
      kind = int_guc (pos 60000) (pos 1000) i32_max;
      context = sighup;
    }
    ∷ []
