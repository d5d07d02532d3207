-- ===== src/App/Realtime/Stream/Resumes.antt =====
-- When the stream of src/app/realtime.rs gives its next event.
use rubix_redis_bridge.Prelude.{ℕ, ◌≡◌, refl, ◌∙◌, ap, subst, List, ◌∷◌}
use rubix_redis_bridge.Redis.Wait.{Timer}
use rubix_redis_bridge.App.Realtime.Stream.{
  Msg, message_event, Messages, RealtimeClient, Attempt, Polled, event, waiting, pending, poll,
}
use rubix_redis_bridge.App.Realtime.Stream.Delivery.{
  Sessions, reached, from_current, Delivers, poll-Delivers,
}
use rubix_redis_bridge.App.Realtime.Stream.Pacing.{holds, IsPaced, Passes, IsTimely, poll-IsTimely}

module _ ⦃timer : Timer⦄ {PubSub : Type 0} (redis : RealtimeClient PubSub) where
  -- The stream has given its next event, which is that of a message.
  pub record Resumes (attempts : List (Attempt PubSub)) (start : ℕ) (s : Messages PubSub)
      (message : Msg) (rest : List Msg) : Type 0 where
    pub end : ℕ
    pub later : List (Attempt PubSub)
    pub after : Messages PubSub
    pub gives : poll redis attempts start s ≡ event end (message_event message) after later
    pub passes : Passes redis attempts start (holds s) later end after
    pub continues : Sessions redis (from_current redis after.current (reached redis later)) rest

  -- When each subscription that the stream has or gets gives some messages, each after some time, and
  -- then ends, and there is a first message among these, the stream gives it in its next event. Until
  -- then the stream was without a subscription for 250 milliseconds at least for each failed attempt,
  -- and for at most the request timeout and 5 seconds for each attempt, not counting the time that it
  -- waited for the messages of a subscription. The rest of the messages is still to come, it holds its
  -- guard and its permit, and the next sleep is again of 250 milliseconds to 5 seconds.
  pub poll-Resumes :
      (attempts : List (Attempt PubSub)) (start : ℕ) (s : Messages PubSub) (message : Msg)
      (rest : List Msg)
      → IsPaced s
      → Sessions redis (from_current redis s.current (reached redis attempts)) (message ∷ rest)
      → Resumes attempts start s message rest
  unfolding IsTimely Delivers
  poll-Resumes attempts start s message rest p given =
      by_poll (poll redis attempts start s) refl (poll-IsTimely redis attempts start s p)
        (poll-Delivers redis attempts start s (message ∷ rest) given)
    where
      by_poll :
          (polled : Polled PubSub)
          → poll redis attempts start s ≡ polled
          → IsTimely redis attempts start s polled
          → Delivers redis polled (message ∷ rest)
          → Resumes attempts start s message rest
      by_poll (pending end s') e timely done = cc
      by_poll (waiting end s' later) e timely done = absurd done
      by_poll (event end text s' later) e timely (first, others, same, said, sessions) =
          let first_is : first ≡ message = cc in
          let rest_is : others ≡ rest = cc in
          record {
            end = end;
            later = later;
            after = s';
            gives = e ∙ ap (λ t. event end t s' later) (said ∙ ap message_event first_is);
            passes = timely;
            continues =
                subst (Sessions redis (from_current redis s'.current (reached redis later))) rest_is
                  sessions;
          }
