-- ===== src/Metrics/Collectors.antt =====
-- src/metrics/collectors.rs and `Metrics::new`: the metrics that are offered, and their registration.
-- The collectors and the registry are the prometheus crate's.
pub mod Starts
pub mod Labelled
use Prim.Native.String.{String}
use rubix_redis_bridge.Prelude.{
  ℕ, ◌≡◌, Bool, true, false, not, ◌&&◌, ◌||◌, List, [], ◌∷◌, all, is_empty, leb, ◌==◌, map, Result,
  ok, err, ◌>>=◌, ◌>>◌, contains, list_eq, nat_eq,
}
use rubix_redis_bridge.Text.{Str, lit}

-- The types of collectors that the source makes.
pub data CollectorKind : Type 0 where
  int_counter int_gauge int_counter_vec int_gauge_vec histogram_vec : CollectorKind

-- `Opts` and `HistogramOpts`, with the names of the labels.
pub record Opts : Type 0 where
  pub kind : CollectorKind
  pub name : Str
  pub help : Str
  pub labels : List Str

abbrev opts : CollectorKind → Str → Str → List Str → Opts
opts kind name help labels = record { kind = kind; name = name; help = help; labels = labels }

abbrev pub auth_failed_total_opts : Opts
auth_failed_total_opts =
    opts int_counter (lit "rrb_auth_failed_total")
      (lit "Total failed bridge authentication attempts.") []

abbrev pub auth_lockouts_total_opts : Opts
auth_lockouts_total_opts =
    opts int_counter (lit "rrb_auth_lockouts_total")
      (lit "Total client IP lockouts created after repeated failed authentication attempts.") []

abbrev pub auth_locked_requests_total_opts : Opts
auth_locked_requests_total_opts =
    opts int_counter (lit "rrb_auth_locked_requests_total")
      (lit "Total requests rejected because the client IP is currently locked out.") []

abbrev pub auth_lockout_entry_limit_total_opts : Opts
auth_lockout_entry_limit_total_opts =
    opts int_counter (lit "rrb_auth_lockout_entry_limit_total")
      (lit
        "Total failed authentication attempts not tracked because the auth lockout table was full.")
      []

abbrev pub auth_lockout_tracked_ips_opts : Opts
auth_lockout_tracked_ips_opts =
    opts int_gauge (lit "rrb_auth_lockout_tracked_ips")
      (lit "Current number of client IPs tracked by the auth lockout table.") []

abbrev pub auth_lockout_locked_ips_opts : Opts
auth_lockout_locked_ips_opts =
    opts int_gauge (lit "rrb_auth_lockout_locked_ips")
      (lit "Current number of client IPs locked out after failed authentication attempts.") []

abbrev pub request_denied_total_opts : Opts
request_denied_total_opts =
    opts int_counter_vec (lit "rrb_request_denied_total")
      (lit "Total bridge requests denied before a successful response is returned.")
      (lit "route" ∷ lit "reason" ∷ [])

abbrev pub command_denied_total_opts : Opts
command_denied_total_opts =
    opts int_counter_vec (lit "rrb_command_denied_total")
      (lit "Total Redis commands denied or rejected by bridge validation.")
      (lit "target" ∷ lit "kind" ∷ [])

abbrev pub redis_operations_total_opts : Opts
redis_operations_total_opts =
    opts int_counter_vec (lit "rrb_redis_operations_total")
      (lit "Total Redis operations executed by the bridge.")
      (lit "target" ∷ lit "kind" ∷ lit "status" ∷ [])

abbrev pub redis_operation_duration_opts : Opts
redis_operation_duration_opts =
    opts histogram_vec (lit "rrb_redis_operation_duration_seconds")
      (lit "Redis operation duration in seconds.") (lit "target" ∷ lit "kind" ∷ [])

abbrev pub redis_operations_inflight_opts : Opts
redis_operations_inflight_opts =
    opts int_gauge_vec (lit "rrb_inflight_redis_operations")
      (lit "In-flight Redis operations by target.") (lit "target" ∷ lit "kind" ∷ [])

abbrev pub realtime_total_opts : Opts
realtime_total_opts =
    opts int_counter_vec (lit "rrb_realtime_total")
      (lit "Total accepted realtime subscription connections.") (lit "target" ∷ [])

abbrev pub realtime_inflight_opts : Opts
realtime_inflight_opts =
    opts int_gauge_vec (lit "rrb_realtime_inflight")
      (lit "Current realtime subscription connections.") (lit "target" ∷ [])

abbrev pub configured_targets_opts : Opts
configured_targets_opts =
    opts int_gauge (lit "rrb_configured_targets") (lit "Number of configured Redis bridge targets.")
      []

abbrev pub redis_connected_shards_opts : Opts
redis_connected_shards_opts =
    opts int_gauge_vec (lit "rrb_redis_connected_shards")
      (lit "Current established Redis connection shards by target.") (lit "target" ∷ [])

abbrev pub redis_connection_attempts_opts : Opts
redis_connection_attempts_opts =
    opts int_counter_vec (lit "rrb_redis_connection_attempts_total")
      (lit "Redis connection creation attempts, separated by outcome.")
      (lit "target" ∷ lit "outcome" ∷ [])

-- What the documentation of prometheus asks of a name of a metric or of a label: letters, digits and
-- underscores, without a digit at the start; colons in the names of metrics only.
unfoldable pub is_name_char : Bool → ℕ → Bool
is_name_char colons c =
    leb b'a' c && leb c b'z' || (leb b'A' c && leb c b'Z' || (c == b'_' || colons && c == b':'))

unfoldable pub is_name : Bool → Str → Bool
unfolding is_name_char
is_name colons [] = false
is_name colons (c ∷ s) =
    is_name_char colons c && all (λ d. is_name_char colons d || leb b'0' d && leb d b'9') s

unfoldable pub distinct : List Str → Bool
distinct [] = true
distinct (name ∷ names) = not (contains names name) && distinct names

unfoldable pub is_valid_opts : Opts → Bool
unfolding is_name distinct
is_valid_opts o =
    is_name true o.name
    && (not (is_empty o.help)
        && (all (is_name false) o.labels
            && (distinct o.labels && not (contains o.labels (lit "le")))))

-- The prometheus crate. Valid options make a collector, and a registry takes a collector unless it
-- has one of the same name.
pub record Prometheus : Type 1 where
  pub Collector : Type 0
  pub Registry : Type 0
  pub Error : Type 0
  pub create : Opts → Result Error Collector
  pub opts_of : Collector → Opts
  pub create-valid :
      (o : Opts) → is_valid_opts o ≡ true → (c : Collector) × (create o ≡ ok c) × (opts_of c ≡ o)
  pub new_registry : Registry
  pub insert : Registry → Collector → Result Error Registry
  pub names : Registry → List Str
  pub names-new : names new_registry ≡ []
  pub insert-new :
      (r : Registry) (c : Collector)
      → contains (names r) (opts_of c).name ≡ false
      → (r' : Registry) × (insert r c ≡ ok r') × (names r' ≡ (opts_of c).name ∷ names r)

pub record Collectors (p : Prometheus) : Type 0 where
  pub auth_failed_total : p.Collector
  pub auth_lockouts_total : p.Collector
  pub auth_locked_requests_total : p.Collector
  pub auth_lockout_entry_limit_total : p.Collector
  pub auth_lockout_tracked_ips : p.Collector
  pub auth_lockout_locked_ips : p.Collector
  pub request_denied_total : p.Collector
  pub command_denied_total : p.Collector
  pub redis_operations_total : p.Collector
  pub redis_operation_duration : p.Collector
  pub redis_operations_inflight : p.Collector
  pub realtime_total : p.Collector
  pub realtime_inflight : p.Collector
  pub configured_targets : p.Collector
  pub redis_connected_shards : p.Collector
  pub redis_connection_attempts : p.Collector

module _ (p : Prometheus) where
  -- `Collectors::new`
  unfoldable pub new_collectors : Result p.Error (Collectors p)
  new_collectors = do
    auth_failed_total ← p.create auth_failed_total_opts
    auth_lockouts_total ← p.create auth_lockouts_total_opts
    auth_locked_requests_total ← p.create auth_locked_requests_total_opts
    auth_lockout_entry_limit_total ← p.create auth_lockout_entry_limit_total_opts
    auth_lockout_tracked_ips ← p.create auth_lockout_tracked_ips_opts
    auth_lockout_locked_ips ← p.create auth_lockout_locked_ips_opts
    request_denied_total ← p.create request_denied_total_opts
    command_denied_total ← p.create command_denied_total_opts
    redis_operations_total ← p.create redis_operations_total_opts
    redis_operation_duration ← p.create redis_operation_duration_opts
    redis_operations_inflight ← p.create redis_operations_inflight_opts
    realtime_total ← p.create realtime_total_opts
    realtime_inflight ← p.create realtime_inflight_opts
    configured_targets ← p.create configured_targets_opts
    redis_connected_shards ← p.create redis_connected_shards_opts
    redis_connection_attempts ← p.create redis_connection_attempts_opts
    ok (record {
      auth_failed_total = auth_failed_total;
      auth_lockouts_total = auth_lockouts_total;
      auth_locked_requests_total = auth_locked_requests_total;
      auth_lockout_entry_limit_total = auth_lockout_entry_limit_total;
      auth_lockout_tracked_ips = auth_lockout_tracked_ips;
      auth_lockout_locked_ips = auth_lockout_locked_ips;
      request_denied_total = request_denied_total;
      command_denied_total = command_denied_total;
      redis_operations_total = redis_operations_total;
      redis_operation_duration = redis_operation_duration;
      redis_operations_inflight = redis_operations_inflight;
      realtime_total = realtime_total;
      realtime_inflight = realtime_inflight;
      configured_targets = configured_targets;
      redis_connected_shards = redis_connected_shards;
      redis_connection_attempts = redis_connection_attempts;
    })

  -- The collectors in the order in which `register` takes them.
  abbrev pub registered : Collectors p → List p.Collector
  registered c =
      c.auth_failed_total ∷ c.auth_lockouts_total ∷ c.auth_locked_requests_total
      ∷ c.auth_lockout_entry_limit_total ∷ c.auth_lockout_tracked_ips ∷ c.auth_lockout_locked_ips
      ∷ c.request_denied_total ∷ c.command_denied_total ∷ c.redis_operations_total
      ∷ c.redis_operation_duration ∷ c.redis_operations_inflight ∷ c.realtime_total
      ∷ c.realtime_inflight ∷ c.configured_targets ∷ c.redis_connected_shards
      ∷ c.redis_connection_attempts ∷ []

  unfoldable pub register_all : p.Registry → List p.Collector → Result p.Error p.Registry
  register_all registry [] = ok registry
  register_all registry (collector ∷ collectors) = do
    registry' ← p.insert registry collector
    register_all registry' collectors

  unfoldable pub register : Collectors p → p.Registry → Result p.Error p.Registry
  unfolding register_all
  register c registry = register_all registry (registered c)

  -- The collectors of `Metrics`, with the registry that `render` gathers from.
  pub record Registered : Type 0 where
    pub registry : p.Registry
    pub collectors : Collectors p

  -- `Metrics::new`
  unfoldable pub start_metrics : Result p.Error Registered
  unfolding new_collectors register
  start_metrics = do
    collectors ← new_collectors
    registry ← register collectors p.new_registry
    ok (record { registry = registry; collectors = collectors })
