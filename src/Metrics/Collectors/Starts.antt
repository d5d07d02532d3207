-- ===== src/Metrics/Collectors/Starts.antt =====
-- `Metrics::new` of src/metrics succeeds: its sixteen collectors are valid, and no two have one name.
use rubix_redis_bridge.Prelude.{
  ◌≡◌, refl, Bool, true, false, not, ◌&&◌, List, [], ◌∷◌, map, reverse, ok, contains, and_true,
  list_beq, list_eq, nat_eq, arith,
}
use rubix_redis_bridge.Text.{Str, lit}
use rubix_redis_bridge.Metrics.Collectors.{
  Opts, distinct, is_name, is_name_char, is_valid_opts, Prometheus, Collectors, new_collectors,
  registered, register_all, register, Registered, start_metrics, auth_failed_total_opts,
  auth_lockouts_total_opts, auth_locked_requests_total_opts, auth_lockout_entry_limit_total_opts,
  auth_lockout_tracked_ips_opts, auth_lockout_locked_ips_opts, request_denied_total_opts,
  command_denied_total_opts, redis_operations_total_opts, redis_operation_duration_opts,
  redis_operations_inflight_opts, realtime_total_opts, realtime_inflight_opts,
  configured_targets_opts, redis_connected_shards_opts, redis_connection_attempts_opts,
}

abbrev pub all_opts : List Opts
all_opts =
    auth_failed_total_opts ∷ auth_lockouts_total_opts ∷ auth_locked_requests_total_opts
    ∷ auth_lockout_entry_limit_total_opts ∷ auth_lockout_tracked_ips_opts
    ∷ auth_lockout_locked_ips_opts ∷ request_denied_total_opts ∷ command_denied_total_opts
    ∷ redis_operations_total_opts ∷ redis_operation_duration_opts ∷ redis_operations_inflight_opts
    ∷ realtime_total_opts ∷ realtime_inflight_opts ∷ configured_targets_opts
    ∷ redis_connected_shards_opts ∷ redis_connection_attempts_opts ∷ []

abbrev pub opts_names : List Opts → List Str
opts_names = map (λ o. o.name)

-- Names that are distinct, and not among those that are known.
are_new : List Str → List Str → Bool
are_new [] known = true
are_new (name ∷ names) known = not (contains known name) && are_new names (name ∷ known)

put_onto : List Str → List Str → List Str
put_onto [] known = known
put_onto (name ∷ names) known = put_onto names (name ∷ known)

module _ (p : Prometheus) where
  new_collectors-ok :
      (c : Collectors p) × (new_collectors p ≡ ok c) × (map p.opts_of (registered p c) ≡ all_opts)
  unfolding new_collectors is_valid_opts is_name is_name_char distinct contains lit list_eq list_beq
  new_collectors-ok =
      let (c0, e0, o0) = p.create-valid auth_failed_total_opts refl in
      let (c1, e1, o1) = p.create-valid auth_lockouts_total_opts refl in
      let (c2, e2, o2) = p.create-valid auth_locked_requests_total_opts refl in
      let (c3, e3, o3) = p.create-valid auth_lockout_entry_limit_total_opts refl in
      let (c4, e4, o4) = p.create-valid auth_lockout_tracked_ips_opts refl in
      let (c5, e5, o5) = p.create-valid auth_lockout_locked_ips_opts refl in
      let (c6, e6, o6) = p.create-valid request_denied_total_opts refl in
      let (c7, e7, o7) = p.create-valid command_denied_total_opts refl in
      let (c8, e8, o8) = p.create-valid redis_operations_total_opts refl in
      let (c9, e9, o9) = p.create-valid redis_operation_duration_opts refl in
      let (c10, e10, o10) = p.create-valid redis_operations_inflight_opts refl in
      let (c11, e11, o11) = p.create-valid realtime_total_opts refl in
      let (c12, e12, o12) = p.create-valid realtime_inflight_opts refl in
      let (c13, e13, o13) = p.create-valid configured_targets_opts refl in
      let (c14, e14, o14) = p.create-valid redis_connected_shards_opts refl in
      let (c15, e15, o15) = p.create-valid redis_connection_attempts_opts refl in
      (
        record {
          auth_failed_total = c0;
          auth_lockouts_total = c1;
          auth_locked_requests_total = c2;
          auth_lockout_entry_limit_total = c3;
          auth_lockout_tracked_ips = c4;
          auth_lockout_locked_ips = c5;
          request_denied_total = c6;
          command_denied_total = c7;
          redis_operations_total = c8;
          redis_operation_duration = c9;
          redis_operations_inflight = c10;
          realtime_total = c11;
          realtime_inflight = c12;
          configured_targets = c13;
          redis_connected_shards = c14;
          redis_connection_attempts = c15;
        },
        rw (new_collectors, e0, e1, e2, e3, e4, e5, e6, e7, e8, e9, e10, e11, e12, e13, e14, e15)
            refl,
        rw (o0, o1, o2, o3, o4, o5, o6, o7, o8, o9, o10, o11, o12, o13, o14, o15) refl,
      )

  -- Collectors whose names are new and distinct are all taken, in their order.
  register_all-ok :
      (cs : List p.Collector) (os : List Opts) (registry : p.Registry) (known : List Str)
      → map p.opts_of cs ≡ os
      → p.names registry ≡ known
      → are_new (opts_names os) known ≡ true
      → (r : p.Registry) × (register_all p registry cs ≡ ok r)
        × (p.names r ≡ put_onto (opts_names os) known)
  unfolding register_all are_new put_onto
  register_all-ok [] [] registry known same named d = (registry, refl, named)
  register_all-ok [] (o ∷ os) registry known same named d = cc
  register_all-ok (c ∷ cs) [] registry known same named d = cc
  register_all-ok (c ∷ cs) (o ∷ os) registry known same named d =
      let first : p.opts_of c ≡ o = cc in
      let others : map p.opts_of cs ≡ os = cc in
      let (now, later) =
        and_true (not (contains known o.name)) (are_new (opts_names os) (o.name ∷ known)) d in
      let absent : contains known o.name ≡ false = ground (arith, now) in
      let (r, e, names) = p.insert-new registry c (rw (named, first) absent) in
      let (r', e', names') =
        register_all-ok cs os r (o.name ∷ known) others (rw (names, first, named) refl) later in
      (r', rw (register_all, e) e', names')

  -- `Metrics::new` succeeds: no name of a metric or of a label is malformed or stands twice. The
  -- registry from which the metrics are rendered then holds exactly the sixteen collectors, each made
  -- with its name, its help text and its labels.
  pub start_metrics-ok :
      (s : Registered p) × (start_metrics p ≡ ok s)
      × (map p.opts_of (registered p s.collectors) ≡ all_opts)
      × (p.names s.registry ≡ reverse (opts_names all_opts))
  unfolding start_metrics register are_new contains lit list_eq list_beq put_onto
  start_metrics-ok =
      let (c, made, same) = new_collectors-ok in
      let (r, e, names) =
        register_all-ok (registered p c) all_opts p.new_registry [] same p.names-new refl in
      (record { registry = r; collectors = c }, rw (start_metrics, made, e) refl, same, names)
