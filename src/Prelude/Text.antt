-- ===== src/Prelude/Text.antt =====
-- The functions of Go's `strings` and of its built-in text operations that the program calls.
-- A text is a list of code points, so texts that are not valid UTF-8 are not modelled.
use Prim.Native.Nat.{ℕ, zero, suc, ◌/◌, ◌%◌}
use Prim.Native.Char.{code}
use Prim.Native.String.{String, [], ◌∷◌, ◌++◌}
use mathlib.Core.Path.{◌≡◌, refl, ap₂}
use mathlib.Core.Logic.{inl, inr}
use mathlib.Core.Bool.{Bool, true, false, ◌&&◌, ◌||◌}
use native.Mathlib.Omega.{arith}
use text.Mathlib.Text.{◌==◌ as str_eq}
use text.Mathlib.TextEquality.{IsScalar-prop, Char-path}
use xgc_agent.Prelude.Tests.{ltb, leb, ◌==◌, if◌then◌else◌, Bool-cases}

-- `unicode.IsSpace`
unfoldable pub is_space : ℕ → Bool
is_space c =
    (leb 9 c && leb c 13)
    || c == 32
    || c == 0x85
    || c == 0xa0
    || c == 0x1680
    || (leb 0x2000 c && leb c 0x200a)
    || c == 0x2028
    || c == 0x2029
    || c == 0x202f
    || c == 0x205f
    || c == 0x3000

-- `strings.TrimLeftFunc(s, unicode.IsSpace)`
unfoldable pub trim_left : String → String
trim_left [] = []
trim_left (c ∷ s) = let rest = trim_left s in if is_space (code c) then rest else c ∷ s

-- `strings.TrimRightFunc(s, unicode.IsSpace)`
unfoldable pub trim_right : String → String
trim_right [] = []
trim_right (c ∷ s) =
    let rest = trim_right s in if is_space (code c) && str_eq rest "" then [] else c ∷ rest

-- `strings.TrimSpace`
unfoldable pub trim_space : String → String
trim_space s = trim_right (trim_left s)

pub trim_left_idem : (s : String) → trim_left (trim_left s) ≡ trim_left s
unfolding trim_left
trim_left_idem [] = refl
trim_left_idem (c ∷ s) = ground (arith, trim_left_idem s)

pub trim_right_idem : (s : String) → trim_right (trim_right s) ≡ trim_right s
unfolding trim_right
trim_right_idem [] = refl
trim_right_idem (c ∷ s) = elim (Bool-cases (is_space (code c) && str_eq (trim_right s) "")) [
  | inl cut ↦ rw cut
  | inr kept ↦ rw kept (rw (trim_right_idem s) (rw kept))
]

-- A text with no space in front has none after its end is cut.
trim_left-trim_right-trim_left :
    (s : String) → trim_left (trim_right (trim_left s)) ≡ trim_right (trim_left s)
unfolding trim_left trim_right
trim_left-trim_right-trim_left [] = refl
trim_left-trim_right-trim_left (c ∷ s) = elim (Bool-cases (is_space (code c))) [
  | inl space ↦ rw space (trim_left-trim_right-trim_left s)
  | inr other ↦ rw other (rw other (rw other))
]

-- A text that is trimmed stays as it is when it is trimmed again.
pub trim_space_idem : (s : String) → trim_space (trim_space s) ≡ trim_space s
unfolding trim_space
trim_space_idem s = rw (trim_left-trim_right-trim_left s) (trim_right_idem (trim_left s))

-- `s < t` of two texts: by the first code point that differs, which is Go's order of the bytes.
unfoldable pub before : String → String → Bool
before s [] = false
before [] (d ∷ t) = true
before (c ∷ s) (d ∷ t) =
    let rest = before s t in if code c == code d then rest else ltb (code c) (code d)

pub before_asym : (s t : String) → before s t ≡ true → before t s ≡ false
unfolding before
before_asym s [] h = ground arith
before_asym [] (d ∷ t) h = refl
before_asym (c ∷ s) (d ∷ t) h = ground (arith, before_asym s t)

unfoldable pub digit : ℕ → String
digit zero = "0"
digit (suc zero) = "1"
digit (suc (suc zero)) = "2"
digit (suc (suc (suc zero))) = "3"
digit (suc (suc (suc (suc zero)))) = "4"
digit (suc (suc (suc (suc (suc zero))))) = "5"
digit (suc (suc (suc (suc (suc (suc zero)))))) = "6"
digit (suc (suc (suc (suc (suc (suc (suc zero))))))) = "7"
digit (suc (suc (suc (suc (suc (suc (suc (suc zero)))))))) = "8"
digit _ = "9"

unfoldable pub decimal_from : ℕ → ℕ → String
unfolding digit
decimal_from zero n = digit n
decimal_from (suc f) n =
    let front = decimal_from f (n / 10) in if ltb n 10 then digit n else front ++ digit (n % 10)

-- `fmt.Sprintf("%d", n)` of a number that is not negative. The fuel `n` is enough, since each round
-- divides by ten.
unfoldable pub decimal : ℕ → String
unfolding decimal_from
decimal n = decimal_from n n

decimal_example : decimal 1207 ≡ "1207"
unfolding decimal
decimal_example = refl

pub String-IsSet : IsSet String
String-IsSet = hlevel IsScalar-prop

pub before_trans : (s t u : String) → before s t ≡ false → before t u ≡ false → before s u ≡ false
unfolding before
before_trans s t [] h k = ground arith
before_trans [] [] (e ∷ u) h k = k
before_trans [] (d ∷ t) (e ∷ u) h k = cc
before_trans (c ∷ s) [] (e ∷ u) h k = cc
before_trans (c ∷ s) (d ∷ t) (e ∷ u) h k = ground (arith, before_trans s t u)

pub before_antisym : (s t : String) → before s t ≡ false → before t s ≡ false → s ≡ t
unfolding before
before_antisym [] [] h k = refl
before_antisym [] (d ∷ t) h k = cc
before_antisym (c ∷ s) [] h k = cc
before_antisym (c ∷ s) (d ∷ t) h k =
    let same : code c ≡ code d = ground arith in
    ap₂ ◌∷◌ (Char-path c d same) (before_antisym s t (ground arith) (ground arith))
