-- ===== src/Schedule/Queue/Tests.antt =====
-- Concrete queues.
use xgc_agent.Prelude.{ℕ, refl, false, List, [], ◌∷◌, All}
use xgc_agent.Schedule.Queue.{
  default_chan_max_buffer, Consumer, Phase, listening, MessageQueue, new_queue, new_consumer, put,
  is_free, Reach, here, then_step, appends, locks, sends, unlocks, subscribes,
}
use xgc_agent.Schedule.Queue.Received.{IsServed, consumers-HasAll}

abbrev consumer : List ℕ → Consumer ℕ
consumer items = record { items = items; closed = false; taken = [] }

abbrev queue : List (Consumer ℕ) → List (Consumer ℕ) → Phase ℕ → MessageQueue ℕ
queue served unserved phase = record {
  history = 7 ∷ [];
  served = served;
  unserved = unserved;
  phase = phase;
}

-- A consumer that subscribes between the appending of the message and the lock gets the message
-- twice.
got_twice : Reach new_queue (queue (consumer (7 ∷ 7 ∷ []) ∷ []) [] listening)
unfolding put new_consumer is_free default_chan_max_buffer
got_twice =
    then_step
      (then_step
        (then_step (then_step (then_step here (appends 7 refl)) (subscribes refl refl))
          (locks 7 refl))
        (sends 7 (consumer (7 ∷ [])) (consumer (7 ∷ 7 ∷ [])) [] refl refl refl))
      (unlocks 7 refl refl)

consumers-HasAll_example : All (IsServed {Any = ℕ} (7 ∷ [])) (consumer (7 ∷ 7 ∷ []) ∷ [])
consumers-HasAll_example = consumers-HasAll got_twice refl
