-- ===== src/Tools/Stream.antt =====
-- `stream` of tools/stream.go: a channel of items that a writer sends and a reader receives, which
-- each side can close. `Send` looks at the reader's side, and then waits for room or for the
-- reader's side to be closed; a step is one action of one caller.
pub mod Closed
pub mod Order
mod Tests
use xgc_agent.Prelude.{
  ℕ, ◌+◌, ◌≡◌, Bool, true, false, not, ◌&&◌, ◌||◌, ◌==◌, nat_eq, Option, none, some, List, [], ◌∷◌,
  ◌++◌, if◌then◌else◌, ltb, length,
}

-- `streamItem`
pub record StreamItem (Chunk Error : Type 0) : Type 0 where
  pub chunk : Chunk
  pub err : Option Error

pub record Stream (Chunk Error : Type 0) : Type 0 where
  -- The items in the channel, and how many it takes.
  pub items : List (StreamItem Chunk Error)
  pub capacity : ℕ
  -- Whether the writer, or the reader, has closed its side.
  pub send_closed : Bool
  pub closed : Bool
  -- The items of the calls of `Send` that wait.
  pub waiting : List (StreamItem Chunk Error)
  -- The items that went into the channel and those that `Recv` gave, in order. The program keeps
  -- neither.
  pub sent : List (StreamItem Chunk Error)
  pub received : List (StreamItem Chunk Error)

module _ {Chunk Error : Type 0} where
  unfoldable pub new_stream : ℕ → Stream Chunk Error
  new_stream size = record {
    items = [];
    capacity = size;
    send_closed = false;
    closed = false;
    waiting = [];
    sent = [];
    received = [];
  }

  -- The first `select` of `send`: a closed reader's side ends the call with `true`, else it goes on.
  unfoldable pub enter :
      StreamItem Chunk Error → Stream Chunk Error → Option Bool × Stream Chunk Error
  enter item s =
      if s.closed then (some true, s) else (none, record s { waiting = s.waiting ++ item ∷ [] })

  -- The second `select`, where room lets the item in; `none` while it waits. A send on a channel
  -- that is closed panics, and is not this step.
  unfoldable pub put : StreamItem Chunk Error → Stream Chunk Error → Option (Stream Chunk Error)
  put item s =
      if not s.send_closed && ltb (length s.items) s.capacity
      then some (record s { items = s.items ++ item ∷ []; sent = s.sent ++ item ∷ [] })
      else none

  -- `recv` on a channel with an item, or on an empty one that is closed: then the result is `io.EOF`,
  -- here `none`. It waits on an empty one that is open.
  unfoldable pub take_from :
      List (StreamItem Chunk Error)
      → Stream Chunk Error
      → Option (Option (StreamItem Chunk Error) × Stream Chunk Error)
  take_from (item ∷ items) s =
      some (some item, record s { items = items; received = s.received ++ item ∷ [] })
  take_from [] s = if s.send_closed then some (none, s) else none

  unfoldable pub recv :
      Stream Chunk Error → Option (Option (StreamItem Chunk Error) × Stream Chunk Error)
  unfolding take_from
  recv s = take_from s.items s

  -- `closeSend` and `closeRecv`; closing what is closed panics, here `none`.
  unfoldable pub close_send : Stream Chunk Error → Option (Stream Chunk Error)
  close_send s = if s.send_closed then none else some (record s { send_closed = true })

  unfoldable pub close_recv : Stream Chunk Error → Option (Stream Chunk Error)
  close_recv s = if s.closed then none else some (record s { closed = true })

  -- What Go's channel does where it holds no items: it gives the item of a waiting call to a waiting
  -- reader.
  unfoldable pub hand_over :
      StreamItem Chunk Error
      → List (StreamItem Chunk Error)
      → Stream Chunk Error
      → Option (Stream Chunk Error)
  hand_over item (x ∷ xs) s = none
  hand_over item [] s =
      if s.send_closed || not (s.capacity == 0)
      then none
      else some (record s { sent = s.sent ++ item ∷ []; received = s.received ++ item ∷ [] })

-- One action of one of the callers, without the panics.
pub data Step {Chunk Error : Type 0} (s : Stream Chunk Error) : Stream Chunk Error → Type 0 where
  enters : (item : StreamItem Chunk Error) → Step s (enter item s).1
  puts :
      (early late : List (StreamItem Chunk Error)) (item : StreamItem Chunk Error)
      {t : Stream Chunk Error}
      → s.waiting ≡ early ++ item ∷ late
      → put item s ≡ some t
      → Step s (record t { waiting = early ++ late })
  hands :
      (early late : List (StreamItem Chunk Error)) (item : StreamItem Chunk Error)
      {t : Stream Chunk Error}
      → s.waiting ≡ early ++ item ∷ late
      → hand_over item s.items s ≡ some t
      → Step s (record t { waiting = early ++ late })
  gives_up :
      (early late : List (StreamItem Chunk Error)) (item : StreamItem Chunk Error)
      → s.waiting ≡ early ++ item ∷ late
      → s.closed ≡ true
      → Step s (record s { waiting = early ++ late })
  takes :
      (result : Option (StreamItem Chunk Error)) {t : Stream Chunk Error}
      → recv s ≡ some (result, t)
      → Step s t
  closes_send : {t : Stream Chunk Error} → close_send s ≡ some t → Step s t
  closes_recv : {t : Stream Chunk Error} → close_recv s ≡ some t → Step s t

pub data Reach {Chunk Error : Type 0} (s : Stream Chunk Error) : Stream Chunk Error → Type 0 where
  here : Reach s s
  then_step : {t u : Stream Chunk Error} → Reach s t → Step t u → Reach s u
