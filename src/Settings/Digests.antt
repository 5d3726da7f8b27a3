-- ===== src/Settings/Digests.antt =====
-- lib.rs: the settings that are registered, in their order. The settings of digests and reports.
use pgl_validate.Base.{false, List, [], ◌∷◌, ◌++◌, some}
use pgl_validate.Base.Int.{pos}
use pgl_validate.Base.Text.{codes}
use pgl_validate.Settings.Kinds.{Guc, bool_guc, int_guc, string_guc, userset, i32_max}

unfoldable pub digest_settings : List Guc
digest_settings =
    record {
      name = codes "pgl_validate.paranoid_confirm";
      short_description = codes "Confirm clean chunks cryptographically.";
      long_description =
          codes "Run hash_digest_array confirmation for clean chunks in addition to LtHash.";
      kind = bool_guc false;
      context = userset;
    }
    ∷ record {
      name = codes "pgl_validate.paranoid_confirm_max_rows";
      short_description = codes "Rows per paranoid set confirmation.";
      long_description =
          codes "Bounds the sorted hash_digest_array input used for cryptographic "
          ++ codes "clean-chunk confirmation.";
      kind = int_guc (pos 1000) (pos 1) i32_max;
      context = userset;
    }
    ∷ record {
      name = codes "pgl_validate.max_reported_tuple_bytes";
      short_description = codes "Maximum captured divergent tuple bytes.";
      long_description =
          codes "Caps each captured divergent tuple body stored in "
          ++ codes "pgl_validate.divergence.tuple.";
      kind = int_guc (pos 8192) (pos 1) i32_max;
      context = userset;
    }
    ∷ record {
      name = codes "pgl_validate.max_reported_divergences";
      short_description = codes "Maximum reported key-level divergences per table and peer.";
      long_description =
          codes "Caps persisted key-level divergences while recording a schema_issue summary "
          ++ codes "when more are found.";
      kind = int_guc (pos 1000) (pos 1) i32_max;
      context = userset;
    }
    ∷ record {
      name = codes "pgl_validate.hash_algorithm";
      short_description = codes "Row digest hash algorithm.";
      long_description =
          codes "Algorithm contract for row and set digests. Supported values are blake3_256 "
          ++ codes "and blake3_512.";
      kind = string_guc (some (codes "blake3_256"));
      context = userset;
    }
    ∷ record {
      name = codes "pgl_validate.json_normalize";
      short_description = codes "Normalize json values through jsonb in row digests.";
      long_description =
          codes "Off preserves json's stored text exactly; on treats json values with equal "
          ++ codes "jsonb semantics as equal.";
      kind = bool_guc false;
      context = userset;
    }
    ∷ record {
      name = codes "pgl_validate.float_signed_zero_distinct";
      short_description = codes "Distinguish floating-point signed zero in row digests.";
      long_description =
          codes "Off normalizes -0.0 and +0.0 to the same canonical value before send/text "
          ++ codes "encoding.";
      kind = bool_guc false;
      context = userset;
    }
    ∷ record {
      name = codes "pgl_validate.float_nan_distinct";
      short_description = codes "Distinguish floating-point NaN payloads in row digests.";
      long_description =
          codes "Off normalizes all float4/float8 NaN bit patterns to one canonical quiet "
          ++ codes "NaN before send/text encoding.";
      kind = bool_guc false;
      context = userset;
    }
    ∷ []
