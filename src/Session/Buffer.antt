-- ===== src/Session/Buffer.antt =====
-- `Buffer` of session/buffer.go: the last messages, within a number of tokens. A tokenizer of the
-- caller is a function into ℕ: one that gives negative numbers is not modelled.
pub mod Window
use Prim.Native.Char.{code}
use Prim.Native.String.{[] as end, ◌∷◌ as ◌then◌}
use xgc_agent.Prelude.{
  ℕ, zero, suc, ◌+◌, ◌-◌, ◌/◌, ◌≤◌, ◌<◌, ◌≡◌, refl, String, Bool, true, false, ◌&&◌, Option, none,
  some, List, [], ◌∷◌, ◌++◌, arith, if◌then◌else◌, ltb, length, drop, ◌=?◌, string_eq, ◌⊎◌, inl,
  inr, Bool-cases, append_assoc, append-nil, sym, ap, ◌∙◌, subst,
}
use xgc_agent.Prelude.Int.{ℤ, pos, negsuc}
use xgc_agent.Prelude.Text.{is_space}
use xgc_agent.Message.{Message}

-- `len(s)`: the bytes of the text in UTF-8.
unfoldable pub byte_length : String → ℕ
byte_length end = 0
byte_length (c then s) =
    let rest = byte_length s in
    let n = code c in
    rest + (if ltb n 0x80 then 1 else if ltb n 0x800 then 2 else if ltb n 0x10000 then 3 else 4)

-- `len(strings.Fields(s))`; the flag says whether a field has begun.
unfoldable pub fields_from : Bool → String → ℕ
fields_from begun end = if begun then 1 else 0
fields_from begun (c then s) =
    let inside = fields_from true s in
    let outside = fields_from false s in
    if is_space (code c) then (if begun then suc outside else outside) else inside

unfoldable pub default_tokenizer : String → ℕ
default_tokenizer s = if s =? "" then 0 else fields_from false s + byte_length s / 4

pub record Buffer (Any : Type 0) : Type 0 where
  pub messages : List (Message Any)
  pub max_tokens : ℤ
  pub tokenizer : String → ℕ

-- `n > m`
abbrev pub exceeds : ℕ → ℤ → Bool
exceeds n (pos m) = ltb m n
exceeds n (negsuc m) = true

module _ {Any : Type 0} where
  unfoldable pub new_buffer : ℤ → Option (String → ℕ) → Buffer Any
  new_buffer max none = record { messages = []; max_tokens = max; tokenizer = default_tokenizer }
  new_buffer max (some tokenizer) = record {
    messages = [];
    max_tokens = max;
    tokenizer = tokenizer;
  }

  unfoldable pub token_count : (String → ℕ) → List (Message Any) → ℕ
  token_count tokenizer [] = 0
  token_count tokenizer (m ∷ ms) = tokenizer m.content + token_count tokenizer ms

  unfoldable pub trim : ℤ → (String → ℕ) → List (Message Any) → List (Message Any)
  trim max tokenizer [] = []
  trim max tokenizer (m ∷ ms) =
      let rest = trim max tokenizer ms in
      if exceeds (token_count tokenizer (m ∷ ms)) max && ltb 1 (length (m ∷ ms))
      then rest
      else m ∷ ms

  unfoldable pub append_message : Message Any → Buffer Any → Buffer Any
  append_message msg b = record b {
    messages = trim b.max_tokens b.tokenizer (b.messages ++ msg ∷ []);
  }

  unfoldable pub clear : Buffer Any → Buffer Any
  clear b = record b { messages = [] }

  -- Loading appends the saved messages, one by one.
  unfoldable pub append_all : List (Message Any) → Buffer Any → Buffer Any
  append_all [] b = b
  append_all (m ∷ ms) b = append_all ms (append_message m b)
