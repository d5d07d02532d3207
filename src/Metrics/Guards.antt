-- ===== src/Metrics/Guards.antt =====
-- The metrics implement the ledger: whatever the order in which operations and subscriptions begin and
-- end, each family counts the entries of its list.
pub mod Refines
use Prim.Native.String.{String}
use rubix_redis_bridge.Prelude.{
  ℕ, zero, suc, ◌≡◌, refl, sym, ap, ap₂, subst, false, List, [], ◌∷◌, map, some, get_elem?, All,
  All-get_elem?,
}
use rubix_redis_bridge.Text.{Str, lit}
use rubix_redis_bridge.Metrics.{
  Labels, Metrics, new_metrics, Guard, new_guard, ConnectionGuard, begin_operation, count_outcome,
  drop_guard, success, error, timeout, realtime_connection, drop_connection,
}
use rubix_redis_bridge.Metrics.Ledger.{
  remove_at, Outcome, ok, failed, late, cancelled, Counts, inc-Counts, dec-Counts,
}

-- The ways to end an operation; a guard that is only dropped counts as cancelled.
abbrev pub outcome_name : Outcome → Str
outcome_name ok = lit "ok"
outcome_name failed = lit "error"
outcome_name late = lit "timeout"
outcome_name cancelled = lit "cancelled"

abbrev pub finish : Outcome → Guard → Metrics → Metrics
finish ok = success
finish failed = error
finish late = timeout
finish cancelled = drop_guard

-- The program: its metrics, the guards that are held, and the guards of the subscriptions.
pub record Program : Type 0 where
  pub metrics : Metrics
  pub guards : List Guard
  pub connections : List ConnectionGuard

abbrev pub started : Program
started = record { metrics = new_metrics; guards = []; connections = [] }

pub data Step : Program → Program → Type 0 where
  begins :
      {p : Program} (target kind : Str)
      → Step p (record p {
        metrics = (begin_operation target kind p.metrics).1;
        guards = (begin_operation target kind p.metrics).0 ∷ p.guards;
      })
  ends :
      {p : Program} (outcome : Outcome) (i : ℕ) {g : Guard}
      → get_elem? p.guards i ≡ some g
      → Step p (record p { metrics = finish outcome g p.metrics; guards = remove_at p.guards i })
  connects :
      {p : Program} (target : Str)
      → Step p (record p {
        metrics = (realtime_connection target p.metrics).1;
        connections = (realtime_connection target p.metrics).0 ∷ p.connections;
      })
  disconnects :
      {p : Program} (i : ℕ) {g : ConnectionGuard}
      → get_elem? p.connections i ≡ some g
      → Step p (record p {
        metrics = drop_connection g p.metrics;
        connections = remove_at p.connections i;
      })

pub data Reach : Program → Type 0 where
  start : Reach started
  step : {p q : Program} → Reach p → Step p q → Reach q

-- The ledger: no metrics and no guards, only what runs and what has ended.
pub record Ledger : Type 0 where
  pub running : List Labels
  pub ended : List Labels
  pub outcomes : List Labels
  pub subscribed : List Labels
  pub subscriptions : List Labels

abbrev pub blank : Ledger
blank = record { running = []; ended = []; outcomes = []; subscribed = []; subscriptions = [] }

abbrev pub guard_labels : Guard → Labels
guard_labels g = g.target ∷ g.kind ∷ []

abbrev pub connection_labels : ConnectionGuard → Labels
connection_labels g = g.target ∷ []

-- What a step of the program writes into the ledger. It knows which step it was, and the labels of
-- the guard, but no metrics: how an operation ended is what the program did with its guard.
unfoldable pub write_entry : {p q : Program} → Step p q → Ledger → Ledger
write_entry (begins target kind) l = record l { running = (target ∷ kind ∷ []) ∷ l.running }
write_entry (ends outcome i {g} held) l = record l {
  running = remove_at l.running i;
  ended = guard_labels g ∷ l.ended;
  outcomes = (g.target ∷ g.kind ∷ outcome_name outcome ∷ []) ∷ l.outcomes;
}
write_entry (connects target) l = record l {
  subscribed = (target ∷ []) ∷ l.subscribed;
  subscriptions = (target ∷ []) ∷ l.subscriptions;
}
write_entry (disconnects i held) l = record l { subscribed = remove_at l.subscribed i }

-- The ledger of a run: one entry for each of its steps.
unfoldable pub ledger_of : {p : Program} → Reach p → Ledger
unfolding write_entry
ledger_of start = blank
ledger_of (step reached s) = write_entry s (ledger_of reached)
