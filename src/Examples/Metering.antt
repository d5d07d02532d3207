-- ===== src/Examples/Metering.antt =====
-- The registration of the metrics with a registry that is a list, and a few uses of them.
use rubix_redis_bridge.Prelude.{
  ◌≡◌, refl, List, [], ◌∷◌, map, reverse, Result, ok, err, contains, list_eq, nat_eq, if◌then◌else◌,
}
use rubix_redis_bridge.Metrics.Collectors.{
  Opts, is_valid_opts, Prometheus, registered, Registered, start_metrics,
}
use rubix_redis_bridge.Metrics.Collectors.Starts.{all_opts, opts_names, start_metrics-ok}

abbrev create : Opts → Result (Unit {0}) Opts
create o = if is_valid_opts o then ok o else err tt

abbrev insert : List Opts → Opts → Result (Unit {0}) (List Opts)
insert registry o = if contains (opts_names registry) o.name then err tt else ok (o ∷ registry)

listed : Prometheus
listed = record {
  Collector = Opts;
  Registry = List Opts;
  Error = Unit {0};
  create = create;
  opts_of = λ o. o;
  create-valid = λ o valid. (o, rw valid refl, refl);
  new_registry = [];
  insert = insert;
  names = opts_names;
  names-new = refl;
  insert-new = λ registry o new. (o ∷ registry, rw new refl, refl);
}

start_metrics-ok_example :
    (s : Registered listed) × (start_metrics listed ≡ ok s)
    × (map listed.opts_of (registered listed s.collectors) ≡ all_opts)
    × (listed.names s.registry ≡ reverse (opts_names all_opts))
start_metrics-ok_example = start_metrics-ok listed
