-- ===== src/Tools/Stream/Closed.antt =====
-- What the two closings do to the calls that come after them.
use xgc_agent.Prelude.{
  ℕ, ◌+◌, ◌≤◌, ◌≡◌, refl, ◌∙◌, true, none, some, List, [], ◌∷◌, ◌++◌, arith, length, is_some,
}
use xgc_agent.Tools.Stream.{
  StreamItem, Stream, new_stream, put, take_from, recv, close_send, closes_send, Reach, here,
  then_step,
}
use xgc_agent.Tools.Stream.Order.{received_in_order, IsFinal, Reach-closed}

module _ {Chunk Error : Type 0} where
  -- The items that are sent, and those whose calls may still send them.
  abbrev pub due : Stream Chunk Error → ℕ
  due s = length s.sent + length s.waiting

  record IsKept (s t : Stream Chunk Error) : Type 0 where
    still_capacity : t.capacity ≡ s.capacity
    still_closed : s.closed ≡ true → t.closed ≡ true
    no_more : s.closed ≡ true → due t ≤ due s

  close_send-closed :
      (s : Stream Chunk Error) {c : Stream Chunk Error}
      → close_send s ≡ some c
      → c.send_closed ≡ true
  unfolding close_send
  close_send-closed s e = ground arith

  Reach-trans : {s t u : Stream Chunk Error} → Reach s t → Reach t u → Reach s u
  Reach-trans r here = r
  Reach-trans r (then_step q st) = then_step (Reach-trans r q) st

  take_from-ready :
      (items : List (StreamItem Chunk Error)) (s : Stream Chunk Error)
      → s.send_closed ≡ true
      → is_some (take_from items s) ≡ true
  unfolding take_from
  take_from-ready [] s h = rw h refl
  take_from-ready (x ∷ xs) s h = refl

  -- Once the writer of a new stream has closed its side, and whatever is called then: nothing more
  -- is sent, a second `Close` of the writer panics, `Recv` does not wait, and what the reader has
  -- got, followed by what is in the channel, is what was sent before the closing, in order.
  pub closed_writer :
      (size : ℕ) {s c t : Stream Chunk Error} (item : StreamItem Chunk Error)
      → Reach (new_stream size) s
      → close_send s ≡ some c
      → Reach c t
      → (put item t ≡ none)
        × (close_send t ≡ none)
        × (is_some (recv t) ≡ true)
        × (t.received ++ t.items ≡ s.sent)
  unfolding put recv close_send IsFinal
  closed_writer size {s} {c} {t} item before e after =
      let f = Reach-closed after (close_send-closed s e) in
      let all = Reach-trans (then_step before (closes_send e)) after in
      let same : c.sent ≡ s.sent = ground arith in
      (
        rw f.0 refl,
        rw f.0 refl,
        take_from-ready t.items t f.0,
        (received_in_order size all).1 ∙ f.1 ∙ same,
      )
