-- ===== src/Metrics/Collectors/Labelled.antt =====
-- The labels with which src/metrics and src/app/state.rs count, against those that the collectors declare: prometheus
-- panics at a list of values of another length.
use rubix_redis_bridge.Prelude.{◌≡◌, ◌≢◌, length, Bool, nat_eq}
use rubix_redis_bridge.Text.{Str}
use rubix_redis_bridge.Metrics.{
  Labels, Family, no_shards_connected, shard_connected, shard_disconnected, connection_attempted,
  Metrics, new_metrics, Guard, begin_operation, command_denied, request_denied, ConnectionGuard,
  realtime_connection, drop_connection,
}
use rubix_redis_bridge.Metrics.Ledger.{Outcome}
use rubix_redis_bridge.Metrics.Guards.{finish}
use rubix_redis_bridge.Metrics.Collectors.{
  Opts, request_denied_total_opts, command_denied_total_opts, redis_operations_total_opts,
  redis_operation_duration_opts, redis_operations_inflight_opts, realtime_total_opts,
  realtime_inflight_opts, redis_connected_shards_opts, redis_connection_attempts_opts,
}

-- Only series with as many labels as declared have been touched.
abbrev pub Follows : Family → Opts → Type 0
Follows family o = (labels : Labels) → length labels ≢ length o.labels → family labels ≡ 0

pub record IsLabelled (m : Metrics) : Type 0 where
  pub request_denied_total : Follows m.request_denied_total request_denied_total_opts
  pub command_denied_total : Follows m.command_denied_total command_denied_total_opts
  pub redis_operations_total : Follows m.redis_operations_total redis_operations_total_opts
  pub redis_operation_duration : Follows m.redis_operation_duration redis_operation_duration_opts
  pub redis_operations_inflight : Follows m.redis_operations_inflight redis_operations_inflight_opts
  pub realtime_total : Follows m.realtime_total realtime_total_opts
  pub realtime_inflight : Follows m.realtime_inflight realtime_inflight_opts
  pub redis_connected_shards : Follows m.redis_connected_shards redis_connected_shards_opts
  pub redis_connection_attempts : Follows m.redis_connection_attempts redis_connection_attempts_opts

-- Every use of a collector with labels, at any labels and with any guard.
pub data Use : Metrics → Metrics → Type 0 where
  begins : {m : Metrics} (target kind : Str) → Use m (begin_operation target kind m).1
  ends : {m : Metrics} (outcome : Outcome) (g : Guard) → Use m (finish outcome g m)
  denies_command : {m : Metrics} (target kind : Str) → Use m (command_denied target kind m)
  denies_request : {m : Metrics} (route reason : Str) → Use m (request_denied route reason m)
  connects : {m : Metrics} (target : Str) → Use m (realtime_connection target m).1
  disconnects : {m : Metrics} (g : ConnectionGuard) → Use m (drop_connection g m)
  adds_target : {m : Metrics} (target : Str) → Use m (no_shards_connected target m)
  gains_shard : {m : Metrics} (target : Str) → Use m (shard_connected target m)
  loses_shard : {m : Metrics} (target : Str) → Use m (shard_disconnected target m)
  attempts :
      {m : Metrics} (target : Str) (succeeds : Bool)
      → Use m (connection_attempted target succeeds m)

pub data Used : Metrics → Type 0 where
  unused : Used new_metrics
  more : {m m' : Metrics} → Used m → Use m m' → Used m'
