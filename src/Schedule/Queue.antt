-- ===== src/Schedule/Queue.antt =====
-- `MessageQueue` of schedule/context.go: the goroutine that `Register` starts, which appends each
-- message of the producer to the history and then sends it to the consumers, and `Subscribe`, which
-- adds a consumer and sends it the history. A step is what one of them does at once; the lock of
-- the queue is held from `locks` to `unlocks` and through `subscribes`.
pub mod Received
mod Tests
use xgc_agent.Prelude.{
  ℕ, ◌≡◌, Bool, true, false, Option, none, some, List, [], ◌∷◌, ◌++◌, ltb, leb, length,
}

unfoldable pub default_chan_max_buffer : ℕ
default_chan_max_buffer = 100

-- The channel of a consumer, and what its reader took from it so far.
pub record Consumer (Any : Type 0) : Type 0 where
  pub items : List Any
  pub closed : Bool
  pub taken : List Any

-- Where the goroutine is: at the producer's channel, before the lock with a message, among the
-- consumers with it, or at its end.
pub data Phase (Any : Type 0) : Type 0 where
  listening : Phase Any
  appended : Any → Phase Any
  sending : Any → Phase Any
  ended : Phase Any

-- The consumers in their order are those that have got the message that is sent, and those that
-- have not; all are among the first where none is sent.
pub record MessageQueue (Any : Type 0) : Type 0 where
  pub history : List Any
  pub served : List (Consumer Any)
  pub unserved : List (Consumer Any)
  pub phase : Phase Any

module _ {Any : Type 0} where
  abbrev pub new_queue : MessageQueue Any
  new_queue = record { history = []; served = []; unserved = []; phase = listening }

  -- The channel that `Subscribe` makes, with the history in it.
  unfoldable pub new_consumer : List Any → Consumer Any
  new_consumer history = record { items = history; closed = false; taken = [] }

  -- `consumer <- msg`, where there is room.
  unfoldable pub put : Any → Consumer Any → Option (Consumer Any)
  unfolding default_chan_max_buffer
  put msg c = elim (ltb (length c.items) default_chan_max_buffer) [
    | true ↦ some (record c { items = c.items ++ msg ∷ [] })
    | false ↦ none
  ]

  unfoldable pub close : Consumer Any → Consumer Any
  close c = record c { closed = true }

  unfoldable pub close_all : List (Consumer Any) → List (Consumer Any)
  close_all [] = []
  close_all (c ∷ cs) = close c ∷ close_all cs

  -- The reader of a consumer takes the next item.
  unfoldable pub take_from : List Any → Consumer Any → Option (Consumer Any)
  take_from [] c = none
  take_from (x ∷ xs) c = some (record c { items = xs; taken = c.taken ++ x ∷ [] })

  -- The lock of the queue is free.
  unfoldable pub is_free : Phase Any → Bool
  is_free (sending msg) = false
  is_free _ = true

pub data Step {Any : Type 0} (q : MessageQueue Any) : MessageQueue Any → Type 0 where
  appends :
      (msg : Any)
      → q.phase ≡ listening
      → Step q (record q { history = q.history ++ msg ∷ []; phase = appended msg })
  locks :
      (msg : Any)
      → q.phase ≡ appended msg
      → Step q (record q { served = []; unserved = q.served; phase = sending msg })
  sends :
      (msg : Any) (c d : Consumer Any) (cs : List (Consumer Any))
      → q.phase ≡ sending msg
      → q.unserved ≡ c ∷ cs
      → put msg c ≡ some d
      → Step q (record q { served = q.served ++ d ∷ []; unserved = cs })
  unlocks :
      (msg : Any)
      → q.phase ≡ sending msg
      → q.unserved ≡ []
      → Step q (record q { phase = listening })
  ends : q.phase ≡ listening → Step q (record q { served = close_all q.served; phase = ended })
  -- All of the history fits into the new channel, else `Subscribe` waits with the lock for ever.
  subscribes :
      is_free q.phase ≡ true
      → leb (length q.history) default_chan_max_buffer ≡ true
      → Step q (record q { served = q.served ++ new_consumer q.history ∷ [] })
  takes :
      (early late : List (Consumer Any)) (c d : Consumer Any)
      → q.served ≡ early ++ c ∷ late
      → take_from c.items c ≡ some d
      → Step q (record q { served = early ++ d ∷ late })
  takes_unserved :
      (early late : List (Consumer Any)) (c d : Consumer Any)
      → q.unserved ≡ early ++ c ∷ late
      → take_from c.items c ≡ some d
      → Step q (record q { unserved = early ++ d ∷ late })

pub data Reach {Any : Type 0} (q : MessageQueue Any) : MessageQueue Any → Type 0 where
  here : Reach q q
  then_step : {r s : MessageQueue Any} → Reach q r → Step r s → Reach q s
