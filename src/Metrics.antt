-- ===== src/Metrics.antt =====
-- src/metrics/mod.rs, guard.rs and connection.rs: the metrics of commands and subscriptions. A family
-- of counters is a function of the labels, and a counter or a gauge is a 64-bit word.
pub mod Ledger
pub mod Guards
pub mod Collectors
use Prim.Native.String.{String}
use rubix_redis_bridge.Prelude.{
  ℕ, Bool, true, false, List, [], ◌∷◌, list_beq, list_eq, nat_eq, if◌then◌else◌, wrapping_add,
  wrapping_sub,
}
use rubix_redis_bridge.Text.{Str, lit}

abbrev pub Labels : Type 0
Labels = List Str

abbrev pub Family : Type 0
Family = Labels → ℕ

unfoldable pub same_labels : Labels → Labels → Bool
same_labels = list_beq

-- `with_label_values(labels).inc()` and `.dec()`
unfoldable pub inc : Family → Labels → Family
inc family labels at =
    let value = family at in if same_labels at labels then wrapping_add value 1 else value

unfoldable pub dec : Family → Labels → Family
dec family labels at =
    let value = family at in if same_labels at labels then wrapping_sub value 1 else value

-- Of a histogram only the number of its observations is kept.
pub record Metrics : Type 0 where
  pub request_denied_total : Family
  pub command_denied_total : Family
  pub redis_operations_total : Family
  pub redis_operation_duration : Family
  pub redis_operations_inflight : Family
  pub realtime_total : Family
  pub realtime_inflight : Family
  pub redis_connected_shards : Family
  pub redis_connection_attempts : Family

abbrev pub new_metrics : Metrics
new_metrics = record {
  request_denied_total = λ labels. 0;
  command_denied_total = λ labels. 0;
  redis_operations_total = λ labels. 0;
  redis_operation_duration = λ labels. 0;
  redis_operations_inflight = λ labels. 0;
  realtime_total = λ labels. 0;
  realtime_inflight = λ labels. 0;
  redis_connected_shards = λ labels. 0;
  redis_connection_attempts = λ labels. 0;
}

-- A guard holds its timer from `new` to `drop`.
pub record Guard : Type 0 where
  pub target : Str
  pub kind : Str
  pub completed : Bool

abbrev pub new_guard : Str → Str → Guard
new_guard target kind = record { target = target; kind = kind; completed = false }

unfoldable pub begin_operation : Str → Str → Metrics → Guard × Metrics
begin_operation target kind m = (
  new_guard target kind,
  record m { redis_operations_inflight = inc m.redis_operations_inflight (target ∷ kind ∷ []) },
)

unfoldable pub count_outcome : Guard → Str → Metrics → Metrics
count_outcome g outcome m = record m {
  redis_operations_total = inc m.redis_operations_total (g.target ∷ g.kind ∷ outcome ∷ []);
}

-- `Drop for Guard`
unfoldable pub drop_guard : Guard → Metrics → Metrics
unfolding count_outcome
drop_guard g m =
    let m' = if g.completed then m else count_outcome g (lit "cancelled") m in
    record m' {
      redis_operations_inflight = dec m'.redis_operations_inflight (g.target ∷ g.kind ∷ []);
      redis_operation_duration = inc m'.redis_operation_duration (g.target ∷ g.kind ∷ []);
    }

-- The three methods consume the guard, so that it is dropped at their end.
unfoldable pub success : Guard → Metrics → Metrics
unfolding drop_guard
success g m = drop_guard (record g { completed = true }) (count_outcome g (lit "ok") m)

unfoldable pub error : Guard → Metrics → Metrics
unfolding drop_guard
error g m = drop_guard (record g { completed = true }) (count_outcome g (lit "error") m)

unfoldable pub timeout : Guard → Metrics → Metrics
unfolding drop_guard
timeout g m = drop_guard (record g { completed = true }) (count_outcome g (lit "timeout") m)

unfoldable pub command_denied : Str → Str → Metrics → Metrics
command_denied target kind m = record m {
  command_denied_total = inc m.command_denied_total (target ∷ kind ∷ []);
}

unfoldable pub request_denied : Str → Str → Metrics → Metrics
request_denied route reason m = record m {
  request_denied_total = inc m.request_denied_total (route ∷ reason ∷ []);
}

pub record ConnectionGuard : Type 0 where
  pub target : Str

unfoldable pub realtime_connection : Str → Metrics → ConnectionGuard × Metrics
realtime_connection target m = (
  record { target = target },
  record m {
    realtime_total = inc m.realtime_total (target ∷ []);
    realtime_inflight = inc m.realtime_inflight (target ∷ []);
  },
)

-- `Drop for ConnectionGuard`
unfoldable pub drop_connection : ConnectionGuard → Metrics → Metrics
drop_connection g m = record m { realtime_inflight = dec m.realtime_inflight (g.target ∷ []) }

-- `with_label_values(labels).set(0)`
unfoldable pub set_zero : Family → Labels → Family
set_zero family labels at = let value = family at in if same_labels at labels then 0 else value

-- What src/app/state.rs counts with labels: in `AppState::new` for each target, in `connected` and
-- `disconnected`, and for each attempt to connect, with "success" or "error".
unfoldable pub no_shards_connected : Str → Metrics → Metrics
no_shards_connected target m = record m {
  redis_connected_shards = set_zero m.redis_connected_shards (target ∷ []);
}

unfoldable pub shard_connected : Str → Metrics → Metrics
shard_connected target m = record m {
  redis_connected_shards = inc m.redis_connected_shards (target ∷ []);
}

unfoldable pub shard_disconnected : Str → Metrics → Metrics
shard_disconnected target m = record m {
  redis_connected_shards = dec m.redis_connected_shards (target ∷ []);
}

unfoldable pub connection_attempted : Str → Bool → Metrics → Metrics
connection_attempted target succeeds m = record m {
  redis_connection_attempts =
      inc m.redis_connection_attempts
        (target ∷ (if succeeds then lit "success" else lit "error") ∷ []);
}
