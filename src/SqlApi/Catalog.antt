-- ===== src/SqlApi/Catalog.antt =====
-- sql_api.rs: the SQL functions on subscriptions, nodes, table synchronization and conflict history
-- of a remote server. A row of a result table is a record where the source has a tuple of the same
-- columns.
use pgl_validate.Base.{Bool, List, map, Option, none, some, ok}
use pgl_validate.Base.Int.{ℤ, as_i64}
use pgl_validate.Base.Text.{Bytes}
use pgl_validate.Transport.Lsn.{format_lsn}
use pgl_validate.Transport.Session.{Libpq, M, ◌>>=◌, lift}
use pgl_validate.Transport.Target.{Target}
use pgl_validate.Transport.Replies.Catalog.{
  TableSyncStatus, ForwardingSubscription, PglogicalSubscriptionSummary, ConflictHistoryRow,
}
use pgl_validate.Transport.Requests.Catalog.{
  fetch_subscription_status, fetch_pglogical_local_node, fetch_pglogical_subscriptions,
  ensure_remote_pglogical_barrier_subscription, fetch_native_subscription_status,
  fetch_pglogical_table_sync_status, fetch_native_table_sync_status, fetch_forwarding_subscriptions,
  fetch_conflict_history,
}
use pgl_validate.SqlApi.Barriers.{or_error}

-- `status.sync_status_lsn.map(|lsn| lsn as i64)`, with the status.
unfoldable pub sync_row : TableSyncStatus → Option Bytes × Option ℤ
sync_row s = (s.sync_status, elim s.sync_status_lsn [ none ↦ none | some lsn ↦ some (as_i64 lsn) ])

-- A row of the conflict history as SQL has it: the LSN is a text.
pub record ConflictRow : Type 0 where
  pub conflict_id : ℤ
  pub recorded_at_text : Bytes
  pub subscription_name : Option Bytes
  pub conflict_type : Bytes
  pub resolution : Bytes
  pub index_name : Option Bytes
  pub local_tuple_json : Option Bytes
  pub local_xid : Option Bytes
  pub local_origin : Option ℤ
  pub local_commit_ts_text : Option Bytes
  pub remote_tuple_json : Option Bytes
  pub remote_origin : ℤ
  pub remote_commit_ts_text : Bytes
  pub remote_commit_lsn_text : Bytes
  pub has_before_triggers : Bool

unfoldable pub conflict_row : ConflictHistoryRow → ConflictRow
conflict_row row = record {
  conflict_id = row.conflict_id;
  recorded_at_text = row.recorded_at;
  subscription_name = row.subscription_name;
  conflict_type = row.conflict_type;
  resolution = row.resolution;
  index_name = row.index_name;
  local_tuple_json = row.local_tuple_json;
  local_xid = row.local_xid;
  local_origin = row.local_origin;
  local_commit_ts_text = row.local_commit_ts;
  remote_tuple_json = row.remote_tuple_json;
  remote_origin = row.remote_origin;
  remote_commit_ts_text = row.remote_commit_ts;
  remote_commit_lsn_text = format_lsn row.remote_commit_lsn;
  has_before_triggers = row.has_before_triggers;
}

unfoldable pub subscription_row :
    PglogicalSubscriptionSummary → Bytes × Bytes × Bytes × Bytes × Bytes × Bytes × Bytes
subscription_row row = (
  row.subscription_name, row.status, row.provider_node, row.provider_dsn, row.slot_name,
  row.replication_sets_json, row.forward_origins_json,
)

unfoldable pub forwarding_row : ForwardingSubscription → Bytes
forwarding_row subscription = subscription.subscription_name

module _ (lib : Libpq) where
  unfoldable pub remote_pglogical_subscription_status :
      Target → Bytes → M (Bytes × Bytes × Bytes × Bytes × Bytes × Bytes)
  remote_pglogical_subscription_status c subscription_name =
      or_error (fetch_subscription_status lib c subscription_name) >>= λ status. lift (
        ok (
          status.status, status.provider_node, status.provider_dsn, status.slot_name,
          status.replication_sets_json, status.forward_origins_json,
        ))

  unfoldable pub remote_pglogical_local_node : Target → M (Bytes × Bytes)
  remote_pglogical_local_node c =
      or_error (fetch_pglogical_local_node lib c) >>= λ node. lift (ok (node.node_name, node.dsn))

  unfoldable pub remote_pglogical_subscriptions :
      Target → M (List (Bytes × Bytes × Bytes × Bytes × Bytes × Bytes × Bytes))
  remote_pglogical_subscriptions c = or_error (fetch_pglogical_subscriptions lib c) >>= λ rows.
      lift (ok (map subscription_row rows))

  unfoldable pub remote_ensure_pglogical_barrier_subscription : Target → Bytes → M (Unit {0})
  remote_ensure_pglogical_barrier_subscription c subscription_name =
      or_error (ensure_remote_pglogical_barrier_subscription lib c subscription_name)

  unfoldable pub remote_native_subscription_status :
      Target → Bytes → M (Bool × ℤ × Option Bytes × Bytes × Bytes)
  remote_native_subscription_status c subscription_name =
      or_error (fetch_native_subscription_status lib c subscription_name) >>= λ status. lift (
        ok (
          status.enabled, status.subid, status.slot_name, status.publications_json,
          status.origin_name,
        ))

  unfoldable pub remote_pglogical_table_sync_status :
      Target → Bytes → Bytes → Bytes → M (Option Bytes × Option ℤ)
  remote_pglogical_table_sync_status c subscription_name schema_name table_name =
      or_error (fetch_pglogical_table_sync_status lib c subscription_name schema_name table_name)
      >>= λ status. lift (ok (sync_row status))

  unfoldable pub remote_native_table_sync_status :
      Target → Bytes → Bytes → Bytes → M (Option Bytes × Option ℤ)
  remote_native_table_sync_status c subscription_name schema_name table_name =
      or_error (fetch_native_table_sync_status lib c subscription_name schema_name table_name)
      >>= λ status. lift (ok (sync_row status))

  unfoldable pub remote_pglogical_forwarding_subscriptions : Target → Bytes → M (List Bytes)
  remote_pglogical_forwarding_subscriptions c provider_node =
      or_error (fetch_forwarding_subscriptions lib c provider_node) >>= λ subscriptions.
      lift (ok (map forwarding_row subscriptions))

  unfoldable pub remote_pglogical_conflict_history :
      Target → Bytes → Bytes → Bytes → Bytes → ℤ → M (List ConflictRow)
  remote_pglogical_conflict_history c subscription_name schema_name table_name since_text max_rows =
      or_error
        (fetch_conflict_history lib c subscription_name schema_name table_name since_text max_rows)
      >>= λ rows. lift (ok (map conflict_row rows))
