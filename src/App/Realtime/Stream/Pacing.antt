-- ===== src/App/Realtime/Stream/Pacing.antt =====
-- How long the stream of src/app/realtime.rs is without a subscription, and how often it tries.
use rubix_redis_bridge.Prelude.{
  ℕ, zero, suc, ◌+◌, ◌*◌, ◌≤◌, ◌≡◌, refl, ◌∙◌, List, [], ◌∷◌, Option, none, some, Result, ok, err,
  length, arith,
}
use rubix_redis_bridge.Metrics.{ConnectionGuard}
use rubix_redis_bridge.Redis.Wait.{Wait, after, never, Timer, limited-le}
use rubix_redis_bridge.App.Realtime.Stream.{
  Msg, Messages, RealtimeClient, Attempt, Polled, event, waiting, pending, read_message,
  reconnected, reconnect, read_current, poll, events,
}

-- The next sleep is of 250 milliseconds at least and of 5 seconds at most.
pub record IsPaced {PubSub : Type 0} (s : Messages PubSub) : Type 0 where
  pub least : 250 ≤ s.backoff
  pub most : s.backoff ≤ 5000

-- What a stream holds as long as it is not dropped: its guard and its permit.
abbrev pub holds : {PubSub : Type 0} → Messages PubSub → ConnectionGuard × ℕ
holds s = (s.connection_guard, s.permit)

module _ ⦃timer : Timer⦄ {PubSub : Type 0} (redis : RealtimeClient PubSub) where
  abbrev pub failure_count : Option (Result (Unit {0}) PubSub) → ℕ
  failure_count (some (ok pubsub)) = 0
  failure_count (some (err failed)) = 1
  failure_count none = 1

  -- How many of the attempts fail or take too long.
  unfoldable pub failures : List (Attempt PubSub) → ℕ
  failures [] = 0
  failures (attempt ∷ attempts) =
      failure_count (timer.limited redis.request_timeout attempt).1 + failures attempts

  -- The most that so many attempts take with their sleeps.
  abbrev pub budget : List (Attempt PubSub) → ℕ
  budget attempts = length attempts * (redis.request_timeout + 5000)

  -- From one point of the stream, with its attempts and time, to another one.
  pub record Passes (before : List (Attempt PubSub)) (start : ℕ) (held : ConnectionGuard × ℕ)
      (later : List (Attempt PubSub)) (end : ℕ) (s : Messages PubSub) : Type 0 where
    pub paced : IsPaced s
    pub held_is : holds s ≡ held
    pub slept : start + 250 * failures before ≤ end + 250 * failures later
    pub within : end + budget later ≤ start + budget before

  unfoldable pub IsTimely : List (Attempt PubSub) → ℕ → Messages PubSub → Polled PubSub → Type 0
  IsTimely before start s (pending end s') = Passes before start (holds s) [] end s'
  IsTimely before start s (waiting end s' later) = Passes before start (holds s) later end s'
  IsTimely before start s (event end text s' later) = Passes before start (holds s) later end s'

  reconnected-IsPaced :
      (s : Messages PubSub) (elapsed : ℕ) (outcome : Option (Result (Unit {0}) PubSub))
      → IsPaced s
      → IsPaced (reconnected redis s elapsed outcome).1
  unfolding reconnected
  reconnected-IsPaced s elapsed none p = record {
    least = ground (arith, p.least);
    most = ground (arith, p.most);
  }
  reconnected-IsPaced s elapsed (some (err failed)) p = record {
    least = ground (arith, p.least);
    most = ground (arith, p.most);
  }
  reconnected-IsPaced s elapsed (some (ok pubsub)) p = record {
    least = omega arith;
    most = omega arith;
  }

  reconnected-holds :
      (s : Messages PubSub) (elapsed : ℕ) (outcome : Option (Result (Unit {0}) PubSub))
      → holds (reconnected redis s elapsed outcome).1 ≡ holds s
  unfolding reconnected
  reconnected-holds s elapsed none = refl
  reconnected-holds s elapsed (some (err failed)) = refl
  reconnected-holds s elapsed (some (ok pubsub)) = refl

  -- A turn without a subscription takes the time of its attempt, and if that fails, of its sleep.
  reconnected-turn :
      (s : Messages PubSub) (elapsed : ℕ) (outcome : Option (Result (Unit {0}) PubSub))
      → IsPaced s
      → (250 * failure_count outcome ≤ (reconnected redis s elapsed outcome).0)
        × ((reconnected redis s elapsed outcome).0 ≤ elapsed + 5000)
  unfolding reconnected
  reconnected-turn s elapsed none p =
      let least = p.least in let most = p.most in (omega arith, omega arith)
  reconnected-turn s elapsed (some (err failed)) p =
      let least = p.least in let most = p.most in (omega arith, omega arith)
  reconnected-turn s elapsed (some (ok pubsub)) p = (omega arith, omega arith)

  stays-Passes :
      (s : Messages PubSub) (elapsed : ℕ) (attempts : List (Attempt PubSub))
      (current : Option PubSub)
      → IsPaced s
      → Passes attempts elapsed (holds s) attempts elapsed (record s { current = current })
  stays-Passes s elapsed attempts current p = record {
    paced = record { least = p.least; most = p.most };
    held_is = refl;
    slept = omega arith;
    within = omega arith;
  }

  read_message-IsTimely :
      (s : Messages PubSub) (elapsed : ℕ) (attempts : List (Attempt PubSub)) (pubsub : PubSub)
      (next : Wait (Option (Msg × PubSub))) (later : Polled PubSub)
      → IsPaced s
      → IsTimely attempts elapsed s later
      → IsTimely attempts elapsed s (read_message redis s elapsed attempts pubsub next later)
  unfolding IsTimely read_message
  read_message-IsTimely s elapsed attempts pubsub never later p timely =
      stays-Passes s elapsed attempts (some pubsub) p
  read_message-IsTimely s elapsed attempts pubsub (after waited none) later p timely = timely
  read_message-IsTimely s elapsed attempts pubsub (after waited (some (message, pubsub'))) later p
        timely =
      stays-Passes s elapsed attempts (some pubsub') p

  read_current-IsTimely :
      (s : Messages PubSub) (elapsed : ℕ) (attempts : List (Attempt PubSub))
      (current : Option PubSub) (later : Polled PubSub)
      → IsPaced s
      → IsTimely attempts elapsed s later
      → IsTimely attempts elapsed s (read_current redis s elapsed attempts current later)
  unfolding IsTimely read_current
  read_current-IsTimely s elapsed attempts none later p timely = timely
  read_current-IsTimely s elapsed attempts (some pubsub) later p timely =
      read_message-IsTimely s elapsed attempts pubsub (redis.next pubsub) later p timely

  -- A turn, and then the rest of the attempts.
  turn-Passes :
      (attempt : Attempt PubSub) (attempts : List (Attempt PubSub)) (start : ℕ)
      (s : Messages PubSub) (later : List (Attempt PubSub)) (end : ℕ) (s' : Messages PubSub)
      → IsPaced s
      → Passes attempts
          (start + (reconnect redis s attempt).0)
          (holds (reconnect redis s attempt).1)
          later
          end
          s'
      → Passes (attempt ∷ attempts) start (holds s) later end s'
  unfolding reconnect failures
  turn-Passes attempt attempts start s later end s' p passes =
      let tried = timer.limited redis.request_timeout attempt in
      let (least, most) = reconnected-turn s tried.0 tried.1 p in
      let short = limited-le redis.request_timeout attempt in
      let slept = passes.slept in
      let within = passes.within in
      record {
        paced = passes.paced;
        held_is = passes.held_is ∙ reconnected-holds s tried.0 tried.1;
        slept = omega (arith, least, slept);
        within = omega (arith, most, short, within);
      }

  turn-IsTimely :
      (attempt : Attempt PubSub) (attempts : List (Attempt PubSub)) (start : ℕ)
      (s : Messages PubSub) (polled : Polled PubSub)
      → IsPaced s
      → IsTimely attempts
          (start + (reconnect redis s attempt).0)
          (reconnect redis s attempt).1
          polled
      → IsTimely (attempt ∷ attempts) start s polled
  unfolding IsTimely
  turn-IsTimely attempt attempts start s (pending end s') p timely =
      turn-Passes attempt attempts start s [] end s' p timely
  turn-IsTimely attempt attempts start s (waiting end s' later) p timely =
      turn-Passes attempt attempts start s later end s' p timely
  turn-IsTimely attempt attempts start s (event end text s' later) p timely =
      turn-Passes attempt attempts start s later end s' p timely

  pub poll-IsTimely :
      (attempts : List (Attempt PubSub)) (start : ℕ) (s : Messages PubSub)
      → IsPaced s
      → IsTimely attempts start s (poll redis attempts start s)
  unfolding poll IsTimely
  poll-IsTimely [] start s p =
      read_current-IsTimely s start [] s.current (pending start (record s { current = none })) p
        (stays-Passes s start [] none p)
  poll-IsTimely (attempt ∷ attempts) start s p =
      let tried = timer.limited redis.request_timeout attempt in
      let (turn, s') = reconnect redis s attempt in
      let rest = poll redis attempts (start + turn) s' in
      let paced = reconnected-IsPaced s tried.0 tried.1 p in
      read_current-IsTimely s start (attempt ∷ attempts) s.current rest p (
        turn-IsTimely attempt attempts start s rest p
          (poll-IsTimely attempts (start + turn) s' paced))

  Keeps : Messages PubSub → Messages PubSub → Type 0
  Keeps s s' = IsPaced s' × (holds s' ≡ holds s)

  suc-Keeps :
      (n : ℕ) (attempts : List (Attempt PubSub)) (s : Messages PubSub) (polled : Polled PubSub)
      → ((attempts : List (Attempt PubSub)) (s : Messages PubSub)
          → IsPaced s
          → Keeps s (events redis n attempts s).1)
      → poll redis attempts 0 s ≡ polled
      → IsTimely attempts 0 s polled
      → Keeps s (events redis (suc n) attempts s).1
  unfolding Keeps events IsTimely
  suc-Keeps n attempts s (pending end s') later e timely =
      rw (events, e) (timely.paced, timely.held_is)
  suc-Keeps n attempts s (waiting end s' attempts') later e timely =
      rw (events, e) (timely.paced, timely.held_is)
  suc-Keeps n attempts s (event end text s' attempts') later e timely =
      let (paced, same) = later attempts' s' timely.paced in
      rw (events, e) (paced, same ∙ timely.held_is)

  -- However many events it gives, a stream keeps its pace, its guard and its permit.
  pub events_keep :
      (n : ℕ) (attempts : List (Attempt PubSub)) (s : Messages PubSub)
      → IsPaced s
      → IsPaced (events redis n attempts s).1 × (holds (events redis n attempts s).1 ≡ holds s)
  unfolding events Keeps
  events_keep zero attempts s p = (p, refl)
  events_keep (suc n) attempts s p =
      suc-Keeps n attempts s (poll redis attempts 0 s) (events_keep n) refl
        (poll-IsTimely attempts 0 s p)
