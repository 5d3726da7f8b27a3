-- ===== src/Transport/Requests/Catalog.antt =====
-- transport/libpq.rs: subscriptions, nodes, table synchronization and conflict history.
use pgl_validate.Base.{
  ℕ, ◌++◌, Bool, true, false, List, [], Error, Result, ok, err, panic, if◌then◌else◌,
}
use pgl_validate.Base.Int.{ℤ, is_positive}
use pgl_validate.Base.Text.{Bytes, codes}
use pgl_validate.Transport.Literal.{sql_literal}
use pgl_validate.Transport.Dsn.{format_i32}
use pgl_validate.Transport.QueryResult.{PgResult, require_status, command_ok, single_value}
use pgl_validate.Transport.Session.{M, Libpq, ◌>>=◌, lift, with_result}
use pgl_validate.Transport.Target.{Target, session}
use pgl_validate.Transport.Codec.{parse_bool}
use pgl_validate.Base
use pgl_validate.Transport.Requests.{query}
use pgl_validate.Transport.Replies.Catalog.{
  SubscriptionStatus, PglogicalLocalNode, NativeSubscriptionStatus, TableSyncStatus,
  ForwardingSubscription, PglogicalSubscriptionSummary, ConflictHistoryRow,
  parse_subscription_status, parse_local_node, parse_subscriptions, parse_native_subscription,
  parse_pglogical_sync, parse_native_sync, parse_forwarding, parse_conflict_history,
}

unfoldable pub subscription_status_sql : Bytes → Bytes
subscription_status_sql subscription_name =
    codes "SELECT status, provider_node, provider_dsn, slot_name, "
    ++ (codes "COALESCE(to_json(replication_sets)::text, '[]') AS replication_sets_json, "
        ++ (codes "COALESCE(to_json(forward_origins)::text, '[]') AS forward_origins_json FROM "
            ++ (codes "pglogical.show_subscription_status("
                ++ (subscription_name ++ codes "::name)"))))

unfoldable pub local_node_sql : Bytes
local_node_sql =
    codes "SELECT n.node_name::text, ni.if_dsn::text FROM pglogical.local_node ln JOIN "
    ++ (codes "pglogical.node n ON n.node_id = ln.node_id JOIN pglogical.node_interface ni "
        ++ codes "ON ni.if_id = ln.node_local_interface")

unfoldable pub subscriptions_sql : Bytes
subscriptions_sql =
    codes "SELECT subscription_name, status, provider_node, provider_dsn, slot_name, "
    ++ (codes "COALESCE(to_json(replication_sets)::text, '[]') AS replication_sets_json, "
        ++ (codes "COALESCE(to_json(forward_origins)::text, '[]') AS forward_origins_json FROM "
            ++ codes "pglogical.show_subscription_status() ORDER BY subscription_name"))

unfoldable pub ensure_barrier_sql : Bytes → Bytes
ensure_barrier_sql subscription_name =
    codes "SELECT pgl_validate.ensure_pglogical_barrier_repset(); DO $pgl_validate$ "
    ++ (codes "BEGIN IF NOT EXISTS ( SELECT 1 FROM pglogical.show_subscription_status("
        ++ (subscription_name
            ++ (codes "::name) AS s WHERE 'pgl_validate_barrier' = ANY "
                ++ (codes "(COALESCE(s.replication_sets, ARRAY[]::text[])) ) THEN PERFORM "
                    ++ (codes "pglogical.alter_subscription_add_replication_set( "
                        ++ (subscription_name
                            ++ codes
                                "::name, 'pgl_validate_barrier'::name ); END IF; END $pgl_validate$;"))))))

unfoldable pub native_subscription_sql : Bytes → Bytes
native_subscription_sql subscription_name =
    codes "SELECT s.subenabled::text, s.oid::bigint::text, s.subslotname::text, "
    ++ (codes "COALESCE(to_json(s.subpublications)::text, '[]') AS publications_json, "
        ++ (codes "('pg_' || s.oid::text) AS origin_name FROM pg_subscription s JOIN "
            ++ (codes "pg_database d ON d.oid = s.subdbid WHERE s.subname = "
                ++ (subscription_name ++ codes "::name AND d.datname = current_database()"))))

unfoldable pub pglogical_sync_sql : Bytes → Bytes → Bytes → Bytes
pglogical_sync_sql subscription_name schema_name table_name =
    codes "SELECT sync_status::text, sync_statuslsn::text FROM "
    ++ (codes "pglogical.local_sync_status lss JOIN pglogical.subscription s ON s.sub_id = "
        ++ (codes "lss.sync_subid WHERE s.sub_name = "
            ++ (subscription_name
                ++ (codes "::name AND lss.sync_nspname = "
                    ++ (schema_name
                        ++ (codes "::name AND lss.sync_relname = "
                            ++ (table_name
                                ++ codes
                                    "::name ORDER BY lss.sync_statuslsn DESC NULLS LAST LIMIT 1")))))))

unfoldable pub native_sync_sql : Bytes → Bytes → Bytes → Bytes
native_sync_sql subscription_name schema_name table_name =
    codes "WITH rel AS ( SELECT to_regclass(format('%I.%I', "
    ++ (schema_name
        ++ (codes ", "
            ++ (table_name
                ++ (codes ")) AS oid ) SELECT sr.srsubstate::text FROM pg_subscription s JOIN "
                    ++ (codes "pg_subscription_rel sr ON sr.srsubid = s.oid JOIN rel ON rel.oid = "
                        ++ (codes
                              "sr.srrelid JOIN pg_database d ON d.oid = s.subdbid WHERE s.subname = "
                            ++ (subscription_name
                                ++ codes "::name AND d.datname = current_database()")))))))

unfoldable pub forwarding_sql : Bytes → Bytes
forwarding_sql provider_node =
    codes "SELECT s.sub_name::text FROM pglogical.subscription AS s JOIN "
    ++ (codes "pglogical.node AS provider ON provider.node_id = s.sub_origin WHERE "
        ++ (codes "s.sub_enabled AND provider.node_name::text = "
            ++ (provider_node
                ++ codes " AND 'all' = ANY (s.sub_forward_origins) ORDER BY s.sub_name::text")))

unfoldable pub history_available_sql : Bytes
history_available_sql = codes "SELECT to_regclass('pglogical.conflict_history') IS NOT NULL"

unfoldable pub conflict_history_sql : Bytes → Bytes → Bytes → Bytes → Bytes → Bytes
conflict_history_sql subscription_name schema_name table_name since max_rows =
    codes "SELECT id::bigint::text, recorded_at::text, sub_name::text, "
    ++ (codes "conflict_type::text, resolution::text, index_name::text, local_tuple::text, "
        ++ (codes "local_xid::text, local_origin::int::text, local_commit_ts::text, "
            ++ (codes "remote_tuple::text, remote_origin::int::text, remote_commit_ts::text, "
                ++ (codes "remote_commit_lsn::text, has_before_triggers::text FROM "
                    ++ (codes "pglogical.conflict_history WHERE sub_name = "
                        ++ (subscription_name
                            ++ (codes "::name AND schema_name = "
                                ++ (schema_name
                                    ++ (codes "::name AND table_name = "
                                        ++ (table_name
                                            ++ (codes "::name AND recorded_at >= "
                                                ++ (since
                                                    ++ (codes
                                                          "::timestamptz ORDER BY recorded_at DESC, id DESC LIMIT "
                                                        ++ max_rows)))))))))))))

-- `parse_bool(&available.single_value()?)`.
unfoldable pub read_available : PgResult → Result Bool
read_available r = Base.◌>>=◌ (single_value r) parse_bool

module _ (lib : Libpq) where
  unfoldable pub fetch_subscription_status : Target → Bytes → M SubscriptionStatus
  fetch_subscription_status c subscription_name = session lib c (
      query lib (subscription_status_sql (sql_literal subscription_name)) parse_subscription_status)

  unfoldable pub fetch_pglogical_local_node : Target → M PglogicalLocalNode
  fetch_pglogical_local_node c = session lib c (query lib local_node_sql parse_local_node)

  unfoldable pub fetch_pglogical_subscriptions : Target → M (List PglogicalSubscriptionSummary)
  fetch_pglogical_subscriptions c = session lib c (query lib subscriptions_sql parse_subscriptions)

  unfoldable pub ensure_remote_pglogical_barrier_subscription : Target → Bytes → M (Unit {0})
  ensure_remote_pglogical_barrier_subscription c subscription_name = session lib c (
      query lib (ensure_barrier_sql (sql_literal subscription_name))
        (λ r. require_status r command_ok))

  unfoldable pub fetch_native_subscription_status : Target → Bytes → M NativeSubscriptionStatus
  fetch_native_subscription_status c subscription_name = session lib c (
      query lib (native_subscription_sql (sql_literal subscription_name)) parse_native_subscription)

  unfoldable pub fetch_pglogical_table_sync_status :
      Target → Bytes → Bytes → Bytes → M TableSyncStatus
  fetch_pglogical_table_sync_status c subscription_name schema_name table_name = session lib c (
      query lib
        (pglogical_sync_sql (sql_literal subscription_name) (sql_literal schema_name)
          (sql_literal table_name))
        parse_pglogical_sync)

  unfoldable pub fetch_native_table_sync_status : Target → Bytes → Bytes → Bytes → M TableSyncStatus
  fetch_native_table_sync_status c subscription_name schema_name table_name = session lib c (
      query lib
        (native_sync_sql (sql_literal subscription_name) (sql_literal schema_name)
          (sql_literal table_name))
        parse_native_sync)

  unfoldable pub fetch_forwarding_subscriptions : Target → Bytes → M (List ForwardingSubscription)
  fetch_forwarding_subscriptions c provider_node =
      session lib c (query lib (forwarding_sql (sql_literal provider_node)) parse_forwarding)

  -- The first result lives as long as the second one.
  unfoldable pub fetch_conflict_history :
      Target → Bytes → Bytes → Bytes → Bytes → ℤ → M (List ConflictHistoryRow)
  fetch_conflict_history c subscription_name schema_name table_name since max_rows =
      let rows =
        query lib
          (conflict_history_sql (sql_literal subscription_name) (sql_literal schema_name)
            (sql_literal table_name) (sql_literal since) (format_i32 max_rows))
          parse_conflict_history in
      let request = session lib c (
        with_result lib history_available_sql (λ r.
          lift (read_available r) >>= λ available. if available then rows else lift (ok []))) in
      if is_positive max_rows then request else lift (err Error.max_rows_not_positive)
