-- ===== src/Tools/Stream/Tests.antt =====
-- Concrete runs of a stream.
use xgc_agent.Prelude.{is_some, ℕ, ◌≡◌, refl, Bool, true, false, none, some, List, [], ◌∷◌, ◌++◌}
use xgc_agent.Tools.Stream.{
  StreamItem, Stream, new_stream, enter, put, take_from, recv, close_send, enters, puts, takes,
  closes_send, Reach, here, then_step,
}
use xgc_agent.Tools.Stream.Closed.{closed_writer}
use xgc_agent.Tools.Stream.Order.{end_of_stream}

abbrev item : ℕ → StreamItem ℕ ℕ
item n = record { chunk = n; err = none }

abbrev stream : List (StreamItem ℕ ℕ) → List (StreamItem ℕ ℕ) → Bool → Stream ℕ ℕ
stream items received send_closed = record {
  items = items;
  capacity = 1;
  send_closed = send_closed;
  closed = false;
  waiting = [];
  sent = received ++ items;
  received = received;
}

-- One item is sent, the writer closes, and the item is received.
one_sent : Reach (new_stream 1) (stream (item 4 ∷ []) [] true)
unfolding new_stream enter put close_send
one_sent =
    then_step (then_step (then_step here (enters (item 4))) (puts [] [] (item 4) refl refl))
      (closes_send refl)

one_received : Reach (new_stream 1) (stream [] (item 4 ∷ []) true)
unfolding recv take_from
one_received = then_step one_sent (takes (some (item 4)) refl)

at_end : recv (stream [] (item 4 ∷ []) true) ≡ some (none, stream [] (item 4 ∷ []) true)
unfolding recv take_from
at_end = refl

end_of_stream_example : (item 4 ∷ [] ≡ item 4 ∷ []) × (item 4 ∷ [] ≡ item 4 ∷ [])
end_of_stream_example = end_of_stream 1 one_received at_end here

-- The reader closes its side behind one item.
abbrev reader_closed : Stream ℕ ℕ
reader_closed = record (stream (item 4 ∷ []) [] true) { closed = true }

abbrev open_stream : Stream ℕ ℕ
open_stream = stream (item 4 ∷ []) [] false

one_open : Reach (new_stream 1) open_stream
unfolding new_stream enter put
one_open = then_step (then_step here (enters (item 4))) (puts [] [] (item 4) refl refl)

writer_closing : close_send open_stream ≡ some (stream (item 4 ∷ []) [] true)
unfolding close_send
writer_closing = refl

closed_writer_example :
    (put (item 5) (stream [] (item 4 ∷ []) true) ≡ none)
    × (close_send (stream [] (item 4 ∷ []) true) ≡ none)
    × (is_some (recv (stream [] (item 4 ∷ []) true)) ≡ true)
    × ((item 4 ∷ []) ++ [] ≡ item 4 ∷ [])
unfolding recv take_from
closed_writer_example =
    closed_writer 1 (item 5) one_open writer_closing (then_step here (takes (some (item 4)) refl))
