-- ===== src/Metrics/Guards/Refines.antt =====
-- Every step of the program is an entry of the ledger, and the metrics read the ledger's counts.
use rubix_redis_bridge.Prelude.{
  ℕ, zero, suc, ◌≡◌, refl, ap, false, List, [], ◌∷◌, map, some, get_elem?, All, All-get_elem?,
}
use rubix_redis_bridge.Metrics.{
  Metrics, inc, dec, Guard, begin_operation, count_outcome, drop_guard, success, error, timeout,
  realtime_connection, drop_connection,
}
use rubix_redis_bridge.Metrics.Ledger.{
  remove_at, Outcome, ok, failed, late, cancelled, count, Counts, inc-Counts, dec-Counts,
}
use rubix_redis_bridge.Metrics.Guards.{
  outcome_name, finish, Program, started, Step, begins, ends, connects, disconnects, Reach, start,
  step, Ledger, blank, write_entry, ledger_of, guard_labels, connection_labels,
}

-- What relates the program to its ledger.
pub record Reads (p : Program) (l : Ledger) : Type 0 where
  pub guards_are : l.running ≡ map guard_labels p.guards
  pub connections_are : l.subscribed ≡ map connection_labels p.connections
  pub held : All (λ g. g.completed ≡ false) p.guards
  pub inflight : Counts p.metrics.redis_operations_inflight l.running
  pub duration : Counts p.metrics.redis_operation_duration l.ended
  pub total : Counts p.metrics.redis_operations_total l.outcomes
  pub realtime : Counts p.metrics.realtime_inflight l.subscribed
  pub realtime_all : Counts p.metrics.realtime_total l.subscriptions

pub map-remove_at {ℓ κ} :
    {A : Type ℓ} {B : Type κ} (f : A → B) (xs : List A) (i : ℕ)
    → remove_at (map f xs) i ≡ map f (remove_at xs i)
map-remove_at f [] i = refl
map-remove_at f (x ∷ xs) zero = refl
map-remove_at f (x ∷ xs) (suc i) = ap (λ t. f x ∷ t) (map-remove_at f xs i)

pub get_elem?-map {ℓ κ} :
    {A : Type ℓ} {B : Type κ} (f : A → B) (xs : List A) (i : ℕ) (x : A)
    → get_elem? xs i ≡ some x
    → get_elem? (map f xs) i ≡ some (f x)
get_elem?-map f [] i x h = cc
get_elem?-map f (y ∷ xs) zero x h = let same : y ≡ x = cc in rw same refl
get_elem?-map f (y ∷ xs) (suc i) x h = get_elem?-map f xs i x h

pub All-remove_at {ℓ κ} :
    {A : Type ℓ} (P : A → Type κ) (xs : List A) (i : ℕ) → All P xs → All P (remove_at xs i)
All-remove_at P [] i h = tt
All-remove_at P (x ∷ xs) zero h = h.1
All-remove_at P (x ∷ xs) (suc i) h = (h.0, All-remove_at P xs i h.1)

-- What the end of an operation does to the metrics, whichever way it ends.
pub finish_lem :
    (outcome : Outcome) (g : Guard) (m : Metrics)
    → g.completed ≡ false
    → finish outcome g m ≡ record m {
      redis_operations_total =
          inc m.redis_operations_total (g.target ∷ g.kind ∷ outcome_name outcome ∷ []);
      redis_operations_inflight = dec m.redis_operations_inflight (g.target ∷ g.kind ∷ []);
      redis_operation_duration = inc m.redis_operation_duration (g.target ∷ g.kind ∷ []);
    }
unfolding success error timeout drop_guard count_outcome
finish_lem ok g m h = refl
finish_lem failed g m h = refl
finish_lem late g m h = refl
finish_lem cancelled g m h = rw h refl

started-Reads : Reads started blank
unfolding count
started-Reads = record {
  guards_are = refl;
  connections_are = refl;
  held = tt;
  inflight = λ labels. refl;
  duration = λ labels. refl;
  total = λ labels. refl;
  realtime = λ labels. refl;
  realtime_all = λ labels. refl;
}

Step-Reads : (p q : Program) (l : Ledger) → Reads p l → (s : Step p q) → Reads q (write_entry s l)
unfolding write_entry begin_operation realtime_connection drop_connection
Step-Reads p q l r (begins target kind) = record {
  guards_are = ap (λ t. (target ∷ kind ∷ []) ∷ t) r.guards_are;
  connections_are = r.connections_are;
  held = (refl, r.held);
  duration = r.duration;
  total = r.total;
  realtime = r.realtime;
  realtime_all = r.realtime_all;
  inflight = inc-Counts p.metrics.redis_operations_inflight l.running _ r.inflight;
}
Step-Reads p q l r (connects target) = record {
  guards_are = r.guards_are;
  held = r.held;
  inflight = r.inflight;
  duration = r.duration;
  total = r.total;
  connections_are = ap (λ t. (target ∷ []) ∷ t) r.connections_are;
  realtime = inc-Counts p.metrics.realtime_inflight l.subscribed _ r.realtime;
  realtime_all = inc-Counts p.metrics.realtime_total l.subscriptions _ r.realtime_all;
}
Step-Reads p q l r (disconnects i {g} h) =
    let at : get_elem? l.subscribed i ≡ some (connection_labels g) =
      rw r.connections_are (get_elem?-map connection_labels p.connections i g h) in
    record {
      guards_are = r.guards_are;
      held = r.held;
      inflight = r.inflight;
      duration = r.duration;
      total = r.total;
      realtime_all = r.realtime_all;
      connections_are = rw r.connections_are (map-remove_at connection_labels p.connections i);
      realtime = dec-Counts p.metrics.realtime_inflight l.subscribed _ i at r.realtime;
    }
Step-Reads p q l r (ends outcome i {g} h) =
    let at : get_elem? l.running i ≡ some (guard_labels g) =
      rw r.guards_are (get_elem?-map guard_labels p.guards i g h) in
    let ended =
      finish_lem outcome g p.metrics
        (All-get_elem? (λ g. g.completed ≡ false) p.guards i g r.held h) in
    record {
      guards_are = rw r.guards_are (map-remove_at guard_labels p.guards i);
      connections_are = r.connections_are;
      held = All-remove_at _ p.guards i r.held;
      inflight =
          rw ended (dec-Counts p.metrics.redis_operations_inflight l.running _ i at r.inflight);
      duration = rw ended (inc-Counts p.metrics.redis_operation_duration l.ended _ r.duration);
      total = rw ended (inc-Counts p.metrics.redis_operations_total l.outcomes _ r.total);
      realtime = rw ended r.realtime;
      realtime_all = rw ended r.realtime_all;
    }

-- The metrics refine the ledger of the run, however operations and subscriptions begin and end, and
-- in whatever order. The ledger has one entry for each step, which names how an operation ended: a
-- guard that is dropped without a word is entered as cancelled. The gauges count the operations and
-- subscriptions that are open in it; the counters of results, durations and subscriptions count what
-- it lists, each by its labels and modulo 2 to the 64.
pub metrics_refine_ledger : (p : Program) (run : Reach p) → Reads p (ledger_of run)
unfolding ledger_of
metrics_refine_ledger _ start = started-Reads
metrics_refine_ledger p (step {p = before} reached s) =
    Step-Reads before p (ledger_of reached) (metrics_refine_ledger before reached) s
