-- ===== src/Tools/Stream/Order.antt =====
-- What the reader gets, and in which order.
use xgc_agent.Prelude.{
  ℕ, ◌≤◌, ◌≡◌, refl, sym, ap, ◌∙◌, true, Option, none, some, List, [], ◌∷◌, ◌++◌, arith, length,
  length-append, append_assoc, append-nil,
}
use xgc_agent.Tools.Stream.{
  StreamItem, Stream, new_stream, enter, put, take_from, recv, close_send, close_recv, hand_over,
  Step, enters, puts, hands, gives_up, takes, closes_send, closes_recv, Reach, here, then_step,
}

module _ {Chunk Error : Type 0} where
  -- The channel is within its capacity, and the reader has got the items sent but for those in it.
  pub record IsOrdered (s : Stream Chunk Error) : Type 0 where
    pub bounded : length s.items ≤ s.capacity
    pub ordered : s.received ++ s.items ≡ s.sent

  put-IsOrdered :
      (item : StreamItem Chunk Error) {s t : Stream Chunk Error}
      → put item s ≡ some t
      → IsOrdered s
      → IsOrdered t
  unfolding put
  put-IsOrdered item {s} e v = ground (
    arith,
    v.bounded,
    v.ordered,
    append_assoc s.received s.items (item ∷ []),
    length-append s.items (item ∷ []),
  )

  hand_over-IsOrdered :
      (item : StreamItem Chunk Error) (items : List (StreamItem Chunk Error))
      {s t : Stream Chunk Error}
      → s.items ≡ items
      → hand_over item items s ≡ some t
      → IsOrdered s
      → IsOrdered t
  unfolding hand_over
  hand_over-IsOrdered item [] {s} k e v =
      ground (
        arith,
        v.bounded,
        v.ordered,
        k,
        append-nil s.received,
        append-nil (s.received ++ item ∷ []),
      )
  hand_over-IsOrdered item (x ∷ xs) k e v = cc

  take_from-IsOrdered :
      (items : List (StreamItem Chunk Error)) (result : Option (StreamItem Chunk Error))
      {s t : Stream Chunk Error}
      → s.items ≡ items
      → take_from items s ≡ some (result, t)
      → IsOrdered s
      → IsOrdered t
  unfolding take_from
  take_from-IsOrdered [] result k e v = ground (arith, v.bounded, v.ordered)
  take_from-IsOrdered (x ∷ xs) result {s} k e v =
      ground (arith, v.bounded, v.ordered, k, append_assoc s.received (x ∷ []) xs)

  Step-IsOrdered : {s t : Stream Chunk Error} → Step s t → IsOrdered s → IsOrdered t
  unfolding enter recv close_send close_recv
  Step-IsOrdered (enters item) v = ground (arith, v.bounded, v.ordered)
  Step-IsOrdered {s} (puts early late item e f) v =
      let w = put-IsOrdered item f v in record { bounded = w.bounded; ordered = w.ordered }
  Step-IsOrdered {s} (hands early late item e f) v =
      let w = hand_over-IsOrdered item s.items refl f v in
      record { bounded = w.bounded; ordered = w.ordered }
  Step-IsOrdered (gives_up early late item e f) v = ground (arith, v.bounded, v.ordered)
  Step-IsOrdered {s} (takes result e) v = take_from-IsOrdered s.items result refl e v
  Step-IsOrdered (closes_send e) v = ground (arith, v.bounded, v.ordered)
  Step-IsOrdered (closes_recv e) v = ground (arith, v.bounded, v.ordered)

  Reach-IsOrdered : {s t : Stream Chunk Error} → Reach s t → IsOrdered s → IsOrdered t
  Reach-IsOrdered here v = v
  Reach-IsOrdered (then_step r st) v = Step-IsOrdered st (Reach-IsOrdered r v)

  -- Whatever the calls of writers and readers and their order, the channel has no more items than
  -- its capacity, and what the reader has got, followed by what is in the channel, is what was sent, in
  -- order.
  pub received_in_order :
      (size : ℕ) {s : Stream Chunk Error}
      → Reach (new_stream size) s
      → (length s.items ≤ s.capacity) × (s.received ++ s.items ≡ s.sent)
  unfolding new_stream
  received_in_order size r =
      let v = Reach-IsOrdered r (record { bounded = omega arith; ordered = refl }) in
      (v.bounded, v.ordered)

  -- The writer's side stays closed, and nothing is sent any more.
  unfoldable pub IsFinal : Stream Chunk Error → Stream Chunk Error → Type 0
  IsFinal s t = (t.send_closed ≡ true) × (t.sent ≡ s.sent)

  put-closed :
      (item : StreamItem Chunk Error) (s : Stream Chunk Error) {t : Stream Chunk Error}
      → s.send_closed ≡ true
      → put item s ≡ some t
      → ⊥
  unfolding put
  put-closed item s h e = ground arith

  hand_over-closed :
      (item : StreamItem Chunk Error) (items : List (StreamItem Chunk Error))
      (s : Stream Chunk Error) {t : Stream Chunk Error}
      → s.send_closed ≡ true
      → hand_over item items s ≡ some t
      → ⊥
  unfolding hand_over
  hand_over-closed item [] s h e = ground arith
  hand_over-closed item (x ∷ xs) s h e = cc

  take_from-sent :
      (items : List (StreamItem Chunk Error)) (result : Option (StreamItem Chunk Error))
      (s : Stream Chunk Error) {t : Stream Chunk Error}
      → take_from items s ≡ some (result, t)
      → (t.send_closed ≡ s.send_closed) × (t.sent ≡ s.sent)
  unfolding take_from
  take_from-sent [] result s e = ground arith
  take_from-sent (x ∷ xs) result s e = ground arith

  Step-closed : {s t : Stream Chunk Error} → Step s t → s.send_closed ≡ true → IsFinal s t
  unfolding IsFinal enter recv close_send close_recv
  Step-closed (enters item) h = ground arith
  Step-closed {s} (puts early late item e f) h = absurd (put-closed item s h f)
  Step-closed {s} (hands early late item e f) h = absurd (hand_over-closed item s.items s h f)
  Step-closed (gives_up early late item e f) h = ground arith
  Step-closed {s} (takes result e) h = ground (arith, take_from-sent s.items result s e)
  Step-closed (closes_send e) h = ground arith
  Step-closed (closes_recv e) h = ground arith

  pub Reach-closed : {s t : Stream Chunk Error} → Reach s t → s.send_closed ≡ true → IsFinal s t
  unfolding IsFinal
  Reach-closed here h = (h, refl)
  Reach-closed (then_step r st) h =
      let k = Reach-closed r h in let l = Step-closed st k.0 in (l.0, l.1 ∙ k.1)

  take_from-end :
      (items : List (StreamItem Chunk Error)) (s : Stream Chunk Error) {t : Stream Chunk Error}
      → take_from items s ≡ some (none, t)
      → (items ≡ []) × (s.send_closed ≡ true) × (t ≡ s)
  unfolding take_from
  take_from-end [] s e = ground arith
  take_from-end (x ∷ xs) s e = cc

  -- When `Recv` gives the end of a new stream's items, the reader has got every item that was sent,
  -- in order, and no item is sent at any later time.
  pub end_of_stream :
      (size : ℕ) {s t u : Stream Chunk Error}
      → Reach (new_stream size) s
      → recv s ≡ some (none, t)
      → Reach t u
      → (t.received ≡ t.sent) × (u.sent ≡ t.received)
  unfolding IsFinal recv
  end_of_stream size {s} {t} {u} r e later =
      let k = take_from-end s.items s e in
      let all : s.received ≡ s.sent =
        sym (append-nil s.received)
        ∙ ap (λ l. s.received ++ l) (sym k.0)
        ∙ (received_in_order size r).1 in
      let f = Reach-closed later (ap (λ v. v.send_closed) k.2 ∙ k.1) in
      (
        ap (λ v. v.received) k.2 ∙ all ∙ sym (ap (λ v. v.sent) k.2),
        f.1 ∙ ap (λ v. v.sent) k.2 ∙ sym all ∙ sym (ap (λ v. v.received) k.2),
      )
