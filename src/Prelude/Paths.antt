-- ===== src/Prelude/Paths.antt =====
-- `filepath.Join` and `filepath.Clean` of Go's path/filepath, on systems whose separator is a slash.
use Prim.Native.String.{String, ◌++◌}
use Prim.Native.Char.{code}
use Prim.Native.Nat.{ℕ}
use mathlib.Core.Path.{◌≡◌, refl, ap, sym, ◌∙◌}
use mathlib.Core.Bool.{Bool, false, ◌||◌}
use mathlib.Core.List.{List, [], ◌∷◌, ◌++◌ as concat}
use native.Mathlib.Omega.{arith}
use text.Mathlib.Text.{◌==◌ as str_eq}
use text.Mathlib.TextLemmas.{append_assoc, nil-append, cons-append}
use xgc_agent.Prelude.Tests.{◌==◌, if◌then◌else◌}

abbrev pub is_slash : ℕ → Bool
is_slash c = c == b'/'

-- What stands before the first slash, and then between the slashes.
unfoldable pub first_part : String → String
first_part String.[] = ""
first_part (String.◌∷◌ c s) =
    let rest = first_part s in if is_slash (code c) then "" else String.◌∷◌ c rest

unfoldable pub other_parts : String → List String
unfolding first_part
other_parts String.[] = []
other_parts (String.◌∷◌ c s) =
    let rest = other_parts s in if is_slash (code c) then first_part s ∷ rest else rest

-- A part `..` takes the part before it away, if there is one. The last part is the first in the list.
unfoldable pub go_up : Bool → List String → List String
go_up rooted [] = if rooted then [] else ".." ∷ []
go_up rooted (y ∷ st) = if str_eq y ".." then ".." ∷ y ∷ st else st

-- Empty parts and `.` are left out.
unfoldable pub push_part : Bool → List String → String → List String
unfolding go_up
push_part rooted st x =
    if str_eq x "" || str_eq x "." then st else if str_eq x ".." then go_up rooted st else x ∷ st

unfoldable pub push_parts : Bool → List String → List String → List String
unfolding push_part
push_parts rooted st [] = st
push_parts rooted st (x ∷ xs) = push_parts rooted (push_part rooted st x) xs

-- What stands before a part that follows the parts of the list.
unfoldable pub folder : List String → String
folder [] = ""
folder (x ∷ st) = folder st ++ (x ++ "/")

unfoldable pub is_rooted : String → Bool
is_rooted String.[] = false
is_rooted (String.◌∷◌ c s) = is_slash (code c)

unfoldable pub root : Bool → String
root rooted = if rooted then "/" else ""

unfoldable pub render : Bool → List String → String
unfolding folder root
render rooted [] = if rooted then "/" else "."
render rooted (x ∷ st) = root rooted ++ (folder st ++ x)

-- `filepath.Clean`
unfoldable pub clean : String → String
unfolding is_rooted first_part other_parts push_parts render
clean path =
    render (is_rooted path) (push_parts (is_rooted path) [] (first_part path ∷ other_parts path))

-- `filepath.Join`, of a folder and a name that is not empty.
unfoldable pub join_path : String → String → String
unfolding clean
join_path folder name = if str_eq folder "" then clean name else clean (folder ++ ("/" ++ name))

join_path_example :
    (join_path "/var/./lib" "a.json" ≡ "/var/lib/a.json") × (join_path "./x/.." "../a" ≡ "../a")
unfolding join_path
join_path_example = (refl, refl)

abbrev pub has_slash : String → Bool
has_slash String.[] = false
has_slash (String.◌∷◌ c s) = is_slash (code c) || has_slash s

slash-append : (t : String) → "/" ++ t ≡ String.◌∷◌ "/" t
slash-append t = cons-append "/" "" t ∙ ap (String.◌∷◌ "/") (nil-append t)

first_part-append : (s t : String) → first_part (s ++ ("/" ++ t)) ≡ first_part s
unfolding first_part
first_part-append String.[] t = rw (nil-append ("/" ++ t)) (rw (slash-append t) refl)
first_part-append (String.◌∷◌ c s) t =
    rw (cons-append c s ("/" ++ t)) (ground (arith, first_part-append s t))

other_parts-append :
    (s t : String)
    → other_parts (s ++ ("/" ++ t)) ≡ concat (other_parts s) (first_part t ∷ other_parts t)
unfolding other_parts
other_parts-append String.[] t = rw (nil-append ("/" ++ t)) (rw (slash-append t) refl)
other_parts-append (String.◌∷◌ c s) t =
    rw (cons-append c s ("/" ++ t)) (ground (arith, other_parts-append s t, first_part-append s t))

is_rooted-append : (s t : String) → str_eq s "" ≡ false → is_rooted (s ++ t) ≡ is_rooted s
unfolding is_rooted
is_rooted-append String.[] t h = cc
is_rooted-append (String.◌∷◌ c s) t h = rw (cons-append c s t) refl

first_part-whole : (s : String) → has_slash s ≡ false → first_part s ≡ s
unfolding first_part
first_part-whole String.[] h = refl
first_part-whole (String.◌∷◌ c s) h = ground (arith, first_part-whole s)

other_parts-none : (s : String) → has_slash s ≡ false → other_parts s ≡ []
unfolding other_parts
other_parts-none String.[] h = refl
other_parts-none (String.◌∷◌ c s) h = ground (arith, other_parts-none s)

push_parts-concat :
    (rooted : Bool) (st xs ys : List String)
    → push_parts rooted st (concat xs ys) ≡ push_parts rooted (push_parts rooted st xs) ys
unfolding push_parts
push_parts-concat rooted st [] ys = refl
push_parts-concat rooted st (x ∷ xs) ys = push_parts-concat rooted (push_part rooted st x) xs ys

abbrev pub IsPlain : String → Type 0
IsPlain name = (str_eq name "" ≡ false) × (str_eq name "." ≡ false) × (str_eq name ".." ≡ false)

push_parts-last :
    (rooted : Bool) (st : List String) (name : String)
    → IsPlain name
    → push_parts rooted st (name ∷ []) ≡ name ∷ st
unfolding push_parts
push_parts-last rooted st name n = ground (arith, n.0, n.1, n.2)

-- The text before the name, in the path of a name in a folder.
unfoldable pub path_before : String → String
unfolding is_rooted first_part other_parts push_parts folder root
path_before dir =
    root (is_rooted dir)
    ++ folder (push_parts (is_rooted dir) [] (first_part dir ∷ other_parts dir))

-- A name with no slash, that is not empty nor made of dots only, stands at the end of its path.
pub join_path_lem :
    (dir name : String)
    → str_eq dir "" ≡ false
    → has_slash name ≡ false
    → IsPlain name
    → join_path dir name ≡ path_before dir ++ name
unfolding join_path path_before
join_path_lem dir name d h n =
    rw
      (
        d,
        is_rooted-append dir ("/" ++ name) d,
        first_part-append dir name,
        other_parts-append dir name,
        first_part-whole name h,
        other_parts-none name h,
      )
      (rw
        (
          push_parts-concat (is_rooted dir) [] (first_part dir ∷ other_parts dir) (name ∷ []),
          push_parts-last (is_rooted dir)
              (push_parts (is_rooted dir) [] (first_part dir ∷ other_parts dir)) name n,
        )
        (sym (append_assoc (root (is_rooted dir)) _ name)))
