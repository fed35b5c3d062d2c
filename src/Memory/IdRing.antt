-- ===== src/Memory/IdRing.antt =====
-- `idRing` of memory/type_/util.go: the order of insertion of the ids of the short-term memory, in a
-- buffer with a moving head that doubles when it is full. A method returns the ring that it leaves.
pub mod Slots
pub mod Grow
pub mod Refine
pub mod Queue
use xgc_agent.Prelude.{
  ℕ, zero, suc, ◌+◌, ◌-◌, ◌*◌, ◌%◌, String, Bool, true, false, ◌||◌, ◌==◌, ltb, leb, Option, none,
  some, List, [], ◌∷◌, if◌then◌else◌, length, get_or, set, replicate, ◌=?◌, string_eq,
}
use xgc_agent.Prelude.Int.{ℤ, pos, negsuc}
use xgc_agent.Prelude.Maps.{Map, insert, delete, has}

pub record IdRing : Type 0 where
  pub buf : List String
  pub head : ℕ
  pub size : ℕ
  pub index : Map String ℕ

unfoldable pub initial_capacity : ℤ → ℕ
initial_capacity (pos n) = if ltb n 16 then 16 else n
initial_capacity (negsuc n) = 16

unfoldable pub new_id_ring : ℤ → IdRing
unfolding initial_capacity
new_id_ring cap_hint = record {
  buf = replicate (initial_capacity cap_hint) "";
  head = 0;
  size = 0;
  index = [];
}

unfoldable pub contains : IdRing → String → Bool
contains r id = has id r.index

-- One round of the copy into the new buffer; `i` is the loop's counter, and `n` the rounds left.
unfoldable pub copy_from :
    List String → ℕ → ℕ → ℕ → List String × Map String ℕ → List String × Map String ℕ
copy_from buf head i zero new = new
copy_from buf head i (suc n) (new_buf, new_index) =
    let id = get_or buf ((head + i) % length buf) "" in
    copy_from buf head (i + 1) n
      (set new_buf i id, if id =? "" then new_index else insert id i new_index)

unfoldable pub new_capacity : ℕ → ℕ → ℕ
new_capacity old need =
    let doubled = if ltb (old * 2) need then need else old * 2 in
    if ltb doubled 16 then 16 else doubled

-- What follows the early return.
unfoldable pub grow : ℕ → IdRing → IdRing
unfolding copy_from new_capacity
grow need r =
    let (buf, index) =
      copy_from r.buf r.head 0 r.size (replicate (new_capacity (length r.buf) need) "", []) in
    record { buf = buf; head = 0; size = r.size; index = index }

unfoldable pub ensure_capacity : ℕ → IdRing → IdRing
ensure_capacity need r = if leb need (length r.buf) then r else grow need r

-- The rest of `PushBack` after `ensureCapacity`.
unfoldable pub append_id : String → IdRing → IdRing
append_id id r =
    let pos = (r.head + r.size) % length r.buf in
    record r { buf = set r.buf pos id; index = insert id pos r.index; size = r.size + 1 }

unfoldable pub push_back : String → IdRing → IdRing
unfolding contains append_id
push_back id r =
    if id =? "" || contains r id then r else append_id id (ensure_capacity (r.size + 1) r)

unfoldable pub pop_front : IdRing → Option String × IdRing
pop_front r =
    if r.size == 0
    then (none, r)
    else (let id = get_or r.buf r.head "" in
        (
          some id,
          record {
            buf = set r.buf r.head "";
            head = if r.size - 1 == 0 then 0 else (r.head + 1) % length r.buf;
            size = r.size - 1;
            index = delete id r.index;
          },
        ))

unfoldable pub values_from : List String → ℕ → ℕ → ℕ → List String
values_from buf head i zero = []
values_from buf head i (suc n) =
    let rest = values_from buf head (i + 1) n in
    let id = get_or buf ((head + i) % length buf) "" in if id =? "" then rest else id ∷ rest

unfoldable pub values : IdRing → List String
unfolding values_from
values r = values_from r.buf r.head 0 r.size

unfoldable pub reset : IdRing → IdRing
reset r = record { buf = replicate (length r.buf) ""; head = 0; size = 0; index = [] }

-- `for _, current := range vals`
unfoldable pub push_others : String → List String → IdRing → IdRing
push_others id [] r = r
push_others id (current ∷ vals) r =
    push_others id vals (if current =? id then r else push_back current r)

unfoldable pub remove : String → IdRing → Bool × IdRing
unfolding contains
remove id r =
    if contains r id
    then if r.size == 0 then (false, r) else (true, push_others id (values r) (reset r))
    else (false, r)
