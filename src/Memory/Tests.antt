-- ===== src/Memory/Tests.antt =====
-- Concrete runs of the packages below memory/.
use xgc_agent.Prelude.{arith, ◌≡◌, refl, true, false, none, some, List, [], ◌∷◌}
use xgc_agent.Prelude.Int.{pos}
use xgc_agent.Prelude.Maps.{has}
use xgc_agent.Memory.IdQueue.{
  Op, push, take_out, pop, list, clear, Reply, nothing, item, flag, items, run, apply,
}
use xgc_agent.Memory.IdRing.{IdRing, new_id_ring}
use xgc_agent.Memory.IdRing.Slots.{IsValid}
use xgc_agent.Memory.IdRing.Queue.{run_ring, run-new_id_ring}

abbrev calls : List Op
calls =
    push "a"
    ∷ push "b"
    ∷ push ""
    ∷ push "a"
    ∷ list
    ∷ pop
    ∷ push "c"
    ∷ take_out "b"
    ∷ take_out "b"
    ∷ list
    ∷ clear
    ∷ pop
    ∷ []

abbrev replies : List Reply
replies =
    nothing
    ∷ nothing
    ∷ nothing
    ∷ nothing
    ∷ items ("a" ∷ "b" ∷ [])
    ∷ item (some "a")
    ∷ nothing
    ∷ flag true
    ∷ flag false
    ∷ items ("c" ∷ [])
    ∷ nothing
    ∷ item none
    ∷ []

run-calls : run calls [] ≡ replies
unfolding run apply
run-calls = refl

run-new_id_ring_example : run_ring calls (new_id_ring (pos 2)) ≡ run calls []
run-new_id_ring_example = run-new_id_ring (pos 2) calls

abbrev small : IdRing
small = record { buf = "a" ∷ []; head = 0; size = 1; index = ("a", 0) ∷ [] }

small-IsValid : IsValid small
unfolding has
small-IsValid = record {
  head_in = omega arith;
  size_in = omega arith;
  nonempty = refl;
  distinct = (refl, tt);
  indexed = λ id. ground arith;
}
