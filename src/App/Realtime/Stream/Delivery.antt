-- ===== src/App/Realtime/Stream/Delivery.antt =====
-- Which events the stream of src/app/realtime.rs gives: those of the messages of its subscriptions.
use rubix_redis_bridge.Prelude.{
  ℕ, zero, suc, ◌+◌, ◌≡◌, refl, subst, sym, List, [], ◌∷◌, ◌++◌, map, take, Option, none, some,
  Result, ok, err,
}
use rubix_redis_bridge.Redis.Wait.{Timer, after}
use rubix_redis_bridge.App.Realtime.Stream.{
  Msg, message_event, Messages, RealtimeClient, Attempt, Polled, event, waiting, pending,
  read_message, reconnected, reconnect, read_current, poll, events,
}

module _ ⦃timer : Timer⦄ {PubSub : Type 0} (redis : RealtimeClient PubSub) where
  -- A subscription gives these messages, each after some time, and ends.
  unfoldable pub Ends : PubSub → List Msg → Type 0
  Ends pubsub [] = (waited : ℕ) × (redis.next pubsub ≡ after waited none)
  Ends pubsub (message ∷ messages) =
      (waited : ℕ) × (pubsub' : PubSub) × (redis.next pubsub
        ≡ after waited (some (message, pubsub')))
      × Ends pubsub' messages

  -- Subscriptions give these messages, one subscription after the other.
  unfoldable pub Sessions : List PubSub → List Msg → Type 0
  Sessions [] messages = messages ≡ []
  Sessions (pubsub ∷ pubsubs) messages =
      (first : List Msg) × (rest : List Msg) × Ends pubsub first
      × Sessions pubsubs rest
      × (messages ≡ first ++ rest)

  abbrev pub joined : Option (Result (Unit {0}) PubSub) → List PubSub → List PubSub
  joined (some (ok pubsub)) pubsubs = pubsub ∷ pubsubs
  joined (some (err failed)) pubsubs = pubsubs
  joined none pubsubs = pubsubs

  -- The subscriptions of those attempts that succeed in time.
  unfoldable pub reached : List (Attempt PubSub) → List PubSub
  reached [] = []
  reached (attempt ∷ attempts) =
      joined (timer.limited redis.request_timeout attempt).1 (reached attempts)

  abbrev pub from_current : Option PubSub → List PubSub → List PubSub
  from_current none pubsubs = pubsubs
  from_current (some pubsub) pubsubs = pubsub ∷ pubsubs

  unfoldable pub Delivers : Polled PubSub → List Msg → Type 0
  Delivers (pending elapsed s) messages = messages ≡ []
  Delivers (waiting elapsed s attempts) messages = ⊥
  Delivers (event elapsed text s attempts) messages =
      (message : Msg) × (rest : List Msg) × (messages ≡ message ∷ rest)
      × (text ≡ message_event message)
      × Sessions (from_current s.current (reached attempts)) rest

  read_current-Delivers :
      (s : Messages PubSub) (elapsed : ℕ) (attempts : List (Attempt PubSub))
      (current : Option PubSub) (later : Polled PubSub) (messages : List Msg)
      → Sessions (from_current current (reached attempts)) messages
      → (Sessions (reached attempts) messages → Delivers later messages)
      → Delivers (read_current redis s elapsed attempts current later) messages
  unfolding Delivers Sessions Ends read_current read_message
  read_current-Delivers s elapsed attempts none later messages given next = next given
  read_current-Delivers s elapsed attempts (some pubsub) later messages
        ([], rest, (waited, ended), sessions, same) next =
      rw (read_current, read_message, ended)
        (next (subst (Sessions (reached attempts)) (sym same) sessions))
  read_current-Delivers s elapsed attempts (some pubsub) later messages
        (message ∷ first, rest, (waited, pubsub', given, ended), sessions, same) next =
      rw (read_current, read_message, given)
        (message, first ++ rest, same, refl, (first, rest, ended, sessions, refl))

  reconnected-reached :
      (s : Messages PubSub) (elapsed : ℕ) (outcome : Option (Result (Unit {0}) PubSub))
      (pubsubs : List PubSub)
      → from_current (reconnected redis s elapsed outcome).1.current pubsubs
        ≡ joined outcome pubsubs
  unfolding reconnected
  reconnected-reached s elapsed none pubsubs = refl
  reconnected-reached s elapsed (some (ok pubsub)) pubsubs = refl
  reconnected-reached s elapsed (some (err failed)) pubsubs = refl

  pub poll-Delivers :
      (attempts : List (Attempt PubSub)) (elapsed : ℕ) (s : Messages PubSub) (messages : List Msg)
      → Sessions (from_current s.current (reached attempts)) messages
      → Delivers (poll redis attempts elapsed s) messages
  unfolding Delivers Sessions poll reached reconnect
  poll-Delivers [] elapsed s messages given =
      read_current-Delivers s elapsed [] s.current (pending elapsed (record s { current = none }))
        messages given (λ none_left. none_left)
  poll-Delivers (attempt ∷ attempts) elapsed s messages given =
      let tried = timer.limited redis.request_timeout attempt in
      let same = reconnected-reached s tried.0 tried.1 (reached attempts) in
      let (turn, s') = reconnected redis s tried.0 tried.1 in
      read_current-Delivers s elapsed (attempt ∷ attempts) s.current
        (poll redis attempts (elapsed + turn) s') messages given
        (λ sessions.
          poll-Delivers attempts (elapsed + turn) s' messages
            (subst (λ pubsubs. Sessions pubsubs messages) (sym same) sessions))

  InOrder : ℕ → Type 0
  InOrder n =
      (attempts : List (Attempt PubSub)) (s : Messages PubSub) (messages : List Msg)
      → Sessions (from_current s.current (reached attempts)) messages
      → (events redis n attempts s).0 ≡ take n (map message_event messages)

  suc-InOrder :
      (n : ℕ) (attempts : List (Attempt PubSub)) (s : Messages PubSub) (messages : List Msg)
      (polled : Polled PubSub)
      → InOrder n
      → poll redis attempts 0 s ≡ polled
      → Delivers polled messages
      → (events redis (suc n) attempts s).0 ≡ take (suc n) (map message_event messages)
  unfolding InOrder events take Delivers
  suc-InOrder n attempts s messages (pending elapsed s') later e done = rw (events, e, done) refl
  suc-InOrder n attempts s messages (waiting elapsed s' attempts') later e done = absurd done
  suc-InOrder n attempts s messages (event elapsed text s' attempts') later e
        (message, rest, same, said, sessions) =
      rw (events, e, same, said) (rw (later attempts' s' rest sessions) refl)

  -- When each subscription that the stream has or gets ends after some messages, the events are
  -- those of these messages: all of them, in their order, and each once, as many as are asked for.
  pub events_in_order :
      (n : ℕ) (attempts : List (Attempt PubSub)) (s : Messages PubSub) (messages : List Msg)
      → Sessions (from_current s.current (reached attempts)) messages
      → (events redis n attempts s).0 ≡ take n (map message_event messages)
  unfolding events take InOrder
  events_in_order zero attempts s messages given = refl
  events_in_order (suc n) attempts s messages given =
      suc-InOrder n attempts s messages (poll redis attempts 0 s) (events_in_order n) refl
        (poll-Delivers attempts 0 s messages given)
