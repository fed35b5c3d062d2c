-- ===== src/Memory/IdQueue.antt =====
-- What the ring of ids stands for: a queue of distinct ids that are not empty, oldest first.
use xgc_agent.Prelude.{
  Bool, not, ◌||◌, String, Option, none, some, List, [], ◌∷◌, ◌++◌, ◌=?◌, string_eq, contains, keep,
  if◌then◌else◌,
}

-- A call of a client, and what it shows.
pub data Op : Type 0 where
  push take_out : String → Op
  pop list clear : Op

pub data Reply : Type 0 where
  nothing : Reply
  item : Option String → Reply
  flag : Bool → Reply
  items : List String → Reply

unfoldable pub apply : Op → List String → Reply × List String
apply (push id) q = (nothing, if id =? "" || contains q id then q else q ++ id ∷ [])
apply (take_out id) q = (flag (contains q id), keep (λ x. not (x =? id)) q)
apply pop [] = (item none, [])
apply pop (x ∷ q) = (item (some x), q)
apply list q = (items q, q)
apply clear q = (nothing, [])

unfoldable pub run : List Op → List String → List Reply
run [] q = []
run (op ∷ ops) q = let (r, q') = apply op q in r ∷ run ops q'
