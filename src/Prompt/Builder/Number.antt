-- ===== src/Prompt/Builder/Number.antt =====
-- The numbers of the documents.
use xgc_agent.Prelude.{ℕ, ◌+◌, ◌-◌, ◌*◌, ◌≤◌, ◌≡◌, ◌≢◌, List, [], ◌∷◌, All}
use xgc_agent.Prelude.Int.{ℤ, pos, negsuc}

-- The number whose decimal digits these bytes are, behind a number that is read already.
abbrev pub value_from : ℕ → List ℕ → ℕ
value_from n [] = n
value_from n (b ∷ bytes) = value_from (n * 10 + (b - 48)) bytes

abbrev pub IsDigit : ℕ → Type 0
IsDigit b = (48 ≤ b) × (b ≤ 57)

-- What the text of a number is to be: the decimal digits of one that is not negative, and nothing
-- for a negative one.
abbrev pub IsTextOf : ℤ → List ℕ → Type 0
IsTextOf (pos n) bytes = (bytes ≢ []) × (value_from 0 bytes ≡ n) × All IsDigit bytes
IsTextOf (negsuc n) bytes = bytes ≡ []
