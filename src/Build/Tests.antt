-- ===== src/Build/Tests.antt =====
-- The build script on a small host, whose `pg_config` stands in the configuration file of pgrx.
use pgl_validate.Base.{true, [], ◌∷◌, ◌++◌, none, some, ◌≡◌, refl, if◌then◌else◌}
use pgl_validate.Base.Text.{codes, bytes_eq, is_blank, trim, trim_end, trim_start}
use pgl_validate.Base.Utf8.{continues, is_utf8, lead}
use pgl_validate.Build.{watch_major, or_panic, pg_config_output, link_line, main}
use pgl_validate.Build.Config.{
  Host, begin_line, lines, split_equals, strip_start, strip_end, trim_matches, unquoted, existing,
  line_path, first_path,
}
use pgl_validate.Build.Search.{
  majors, config_variables, output_text, first_major, active_pg_major, command_output,
  first_variable, search_file, search_home, pg_config_from_pgrx_config, default_pg_config,
  or_default, search_major, search_version, after_variables, find_pg_config,
}
use pgl_validate.Build.Link.{Linked, main-Linked}

abbrev small_host : Host
small_host = record {
  var_os = λ name.
      if bytes_eq name (codes "CARGO_FEATURE_PG17")
      then some []
      else if bytes_eq name (codes "HOME")
      then some (codes "/h")
      else none;
  var = λ name. none;
  exists = λ path. bytes_eq path (codes "/b");
  join = λ path name. path ++ (47 ∷ name);
  read_to_string = λ path.
      if bytes_eq path (codes "/h/.pgrx/config.toml")
      then some (codes "pg16 = '/a'" ++ (13 ∷ 10 ∷ codes "pg17 = '/b'"))
      else none;
  output = λ program arg.
      if bytes_eq program (codes "/b")
      then some (record { success = true; stdout = codes "/lib" ++ (10 ∷ []) })
      else none;
}

two_lines : lines (codes "a" ++ (13 ∷ 10 ∷ codes "b") ++ (10 ∷ [])) ≡ codes "a" ∷ codes "b" ∷ []
unfolding lines begin_line
two_lines = refl

prints :
    (main small_host []).1
    ≡ codes "cargo:rustc-link-lib=pq"
      ∷ codes "cargo:rustc-link-search=native=/lib"
      ∷ codes "cargo:rerun-if-changed=/h/.pgrx/config.toml"
      ∷ codes "cargo:rerun-if-env-changed=PG17_PG_CONFIG"
      ∷ codes "cargo:rerun-if-env-changed=PG_CONFIG"
      ∷ codes "cargo:rerun-if-env-changed=PGRX_PG_CONFIG_PATH"
      ∷ codes "cargo:rerun-if-env-changed=PGL_VALIDATE_PG_CONFIG"
      ∷ []
unfolding main watch_major or_panic pg_config_output link_line active_pg_major first_major majors
    bytes_eq find_pg_config after_variables first_variable config_variables existing search_version
    search_major pg_config_from_pgrx_config search_home or_default search_file first_path line_path
    lines begin_line split_equals unquoted trim_matches strip_end strip_start is_blank trim trim_end
    trim_start continues is_utf8 lead command_output default_pg_config output_text
prints = refl

main-Linked_example : Linked small_host (main small_host [])
main-Linked_example = main-Linked small_host []
