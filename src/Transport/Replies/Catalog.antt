-- ===== src/Transport/Replies/Catalog.antt =====
-- transport/libpq.rs: subscriptions, nodes, table synchronization and conflict history.
use pgl_validate.Base.{
  ℕ, List, Bool, Option, none, some, Error, Result, ok, ◌>>=◌, ◌>>◌, ◌==◌, guard, if◌then◌else◌,
}
use pgl_validate.Base.Int.{ℤ}
use pgl_validate.Base.Text.{Bytes, codes}
use pgl_validate.Transport.Lsn.{parse_lsn}
use pgl_validate.Transport.Codec.{parse_bool}
use pgl_validate.Transport.QueryResult.{
  PgResult, require_status, tuples_ok, one_row, has_columns, value, value_opt, as_i32, as_i64_text,
}
use pgl_validate.Transport.Target.{collect_rows}
use pgl_validate.Transport.Replies.{parse_opt}

pub record SubscriptionStatus : Type 0 where
  pub status : Bytes
  pub provider_node : Bytes
  pub provider_dsn : Bytes
  pub slot_name : Bytes
  pub replication_sets_json : Bytes
  pub forward_origins_json : Bytes

pub record PglogicalLocalNode : Type 0 where
  pub node_name : Bytes
  pub dsn : Bytes

pub record NativeSubscriptionStatus : Type 0 where
  pub enabled : Bool
  pub subid : ℤ
  pub slot_name : Option Bytes
  pub publications_json : Bytes
  pub origin_name : Bytes

pub record TableSyncStatus : Type 0 where
  pub sync_status : Option Bytes
  pub sync_status_lsn : Option ℕ

pub record ForwardingSubscription : Type 0 where
  pub subscription_name : Bytes

pub record PglogicalSubscriptionSummary : Type 0 where
  pub subscription_name : Bytes
  pub status : Bytes
  pub provider_node : Bytes
  pub provider_dsn : Bytes
  pub slot_name : Bytes
  pub replication_sets_json : Bytes
  pub forward_origins_json : Bytes

pub record ConflictHistoryRow : Type 0 where
  pub conflict_id : ℤ
  pub recorded_at : Bytes
  pub subscription_name : Option Bytes
  pub conflict_type : Bytes
  pub resolution : Bytes
  pub index_name : Option Bytes
  pub local_tuple_json : Option Bytes
  pub local_xid : Option Bytes
  pub local_origin : Option ℤ
  pub local_commit_ts : Option Bytes
  pub remote_tuple_json : Option Bytes
  pub remote_origin : ℤ
  pub remote_commit_ts : Bytes
  pub remote_commit_lsn : ℕ
  pub has_before_triggers : Bool

unfoldable pub parse_subscription_status : PgResult → Result SubscriptionStatus
parse_subscription_status r = do
  require_status r tuples_ok
  one_row r 6
  status ← value r 0 0
  node ← value r 0 1
  provider ← value r 0 2
  slot ← value r 0 3
  sets ← value r 0 4
  origins ← value r 0 5
  ok (record {
    status = status;
    provider_node = node;
    provider_dsn = provider;
    slot_name = slot;
    replication_sets_json = sets;
    forward_origins_json = origins;
  })

unfoldable pub parse_local_node : PgResult → Result PglogicalLocalNode
parse_local_node r = do
  require_status r tuples_ok
  one_row r 2
  name ← value r 0 0
  text ← value r 0 1
  ok (record { node_name = name; dsn = text })

unfoldable pub parse_summary_row : PgResult → ℕ → Result PglogicalSubscriptionSummary
parse_summary_row r row = do
  name ← value r row 0
  status ← value r row 1
  node ← value r row 2
  provider ← value r row 3
  slot ← value r row 4
  sets ← value r row 5
  origins ← value r row 6
  ok (record {
    subscription_name = name;
    status = status;
    provider_node = node;
    provider_dsn = provider;
    slot_name = slot;
    replication_sets_json = sets;
    forward_origins_json = origins;
  })

unfoldable pub parse_subscriptions : PgResult → Result (List PglogicalSubscriptionSummary)
parse_subscriptions r = do
  require_status r tuples_ok
  has_columns r 7
  collect_rows (parse_summary_row r) r.ntuples 0

unfoldable pub parse_native_subscription : PgResult → Result NativeSubscriptionStatus
parse_native_subscription r = do
  require_status r tuples_ok
  one_row r 5
  enabled ← value r 0 0 >>= parse_bool
  subid ← value r 0 1 >>= as_i64_text
  slot ← value_opt r 0 2
  publications ← value r 0 3
  origin ← value r 0 4
  ok (record {
    enabled = enabled;
    subid = subid;
    slot_name = slot;
    publications_json = publications;
    origin_name = origin;
  })

-- `result.ntuples() != 1`, once it is not 0.
unfoldable pub at_most_one_row : PgResult → Result (Unit {0})
at_most_one_row r = guard (r.ntuples == 1) (Error.unexpected_shape r.ntuples r.nfields)

unfoldable pub read_pglogical_sync : PgResult → Result TableSyncStatus
read_pglogical_sync r = do
  at_most_one_row r
  status ← value_opt r 0 0
  lsn ← value_opt r 0 1 >>= parse_opt parse_lsn
  ok (record { sync_status = status; sync_status_lsn = lsn })

-- No row means that the table is ready.
unfoldable pub parse_pglogical_sync : PgResult → Result TableSyncStatus
parse_pglogical_sync r = do
  require_status r tuples_ok
  has_columns r 2
  (if r.ntuples == 0
      then ok (record { sync_status = some (codes "r"); sync_status_lsn = none })
      else read_pglogical_sync r)

unfoldable pub read_native_sync : PgResult → Result TableSyncStatus
read_native_sync r = do
  at_most_one_row r
  status ← value_opt r 0 0
  ok (record { sync_status = status; sync_status_lsn = none })

-- No row means that nothing is known of the table.
unfoldable pub parse_native_sync : PgResult → Result TableSyncStatus
parse_native_sync r = do
  require_status r tuples_ok
  has_columns r 1
  (if r.ntuples == 0
      then ok (record { sync_status = none; sync_status_lsn = none })
      else read_native_sync r)

unfoldable pub parse_forwarding_row : PgResult → ℕ → Result ForwardingSubscription
parse_forwarding_row r row = do name ← value r row 0; ok (record { subscription_name = name })

unfoldable pub parse_forwarding : PgResult → Result (List ForwardingSubscription)
parse_forwarding r = do
  require_status r tuples_ok
  has_columns r 1
  collect_rows (parse_forwarding_row r) r.ntuples 0

-- The three numbers are read first, the other columns in the order of the fields.
unfoldable pub parse_conflict_row : PgResult → ℕ → Result ConflictHistoryRow
parse_conflict_row r row = do
  id ← value r row 0 >>= as_i64_text
  local ← value_opt r row 8 >>= parse_opt as_i32
  remote ← value r row 11 >>= as_i32
  recorded ← value r row 1
  name ← value_opt r row 2
  kind ← value r row 3
  solution ← value r row 4
  index ← value_opt r row 5
  local_tuple ← value_opt r row 6
  xid ← value_opt r row 7
  local_ts ← value_opt r row 9
  remote_tuple ← value_opt r row 10
  remote_ts ← value r row 12
  lsn ← value r row 13 >>= parse_lsn
  triggers ← value r row 14 >>= parse_bool
  ok (record {
    conflict_id = id;
    recorded_at = recorded;
    subscription_name = name;
    conflict_type = kind;
    resolution = solution;
    index_name = index;
    local_tuple_json = local_tuple;
    local_xid = xid;
    local_origin = local;
    local_commit_ts = local_ts;
    remote_tuple_json = remote_tuple;
    remote_origin = remote;
    remote_commit_ts = remote_ts;
    remote_commit_lsn = lsn;
    has_before_triggers = triggers;
  })

unfoldable pub parse_conflict_history : PgResult → Result (List ConflictHistoryRow)
parse_conflict_history r = do
  require_status r tuples_ok
  has_columns r 15
  collect_rows (parse_conflict_row r) r.ntuples 0
