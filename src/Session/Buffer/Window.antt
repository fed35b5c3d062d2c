-- ===== src/Session/Buffer/Window.antt =====
-- Which messages a buffer keeps.
use xgc_agent.Prelude.{
  ℕ, zero, suc, ◌+◌, ◌≤◌, ◌<◌, ◌≡◌, refl, String, true, false, ◌&&◌, List, [], ◌∷◌, ◌++◌, arith,
  ltb, length, drop, string_eq, ◌⊎◌, inl, inr, Bool-cases, append_assoc, append-nil, sym, ap, ◌∙◌,
}
use xgc_agent.Prelude.Int.{ℤ, pos, negsuc}
use xgc_agent.Message.{Message}
use xgc_agent.Session.Buffer.{Buffer, exceeds, token_count, trim, append_message, append_all}

exceeds-le : (a b : ℕ) (max : ℤ) → a ≤ b → exceeds b max ≡ false → exceeds a max ≡ false
exceeds-le a b (pos m) l h = ground arith
exceeds-le a b (negsuc m) l h = h

module _ {Any : Type 0} where
  -- What `trim` keeps: a suffix, the longest that fits, or the last message.
  pub record IsLongest (max : ℤ) (tokenizer : String → ℕ) (all kept : List (Message Any))
      : Type 0 where
    pub dropped : ℕ
    pub suffix : kept ≡ drop dropped all
    pub nonempty : 0 < length all → dropped < length all
    pub fits : (exceeds (token_count tokenizer kept) max ≡ false) ⊎ (length kept ≤ 1)
    pub longest : (k : ℕ) → k < dropped → exceeds (token_count tokenizer (drop k all)) max ≡ true

  IsLongest-cons :
      (max : ℤ) (tokenizer : String → ℕ) (m : Message Any) (ms kept : List (Message Any))
      → (exceeds (token_count tokenizer (m ∷ ms)) max && ltb 1 (length (m ∷ ms))) ≡ true
      → IsLongest max tokenizer ms kept
      → IsLongest max tokenizer (m ∷ ms) kept
  IsLongest-cons max tokenizer m ms kept over rest = record {
    dropped = suc rest.dropped;
    suffix = rest.suffix;
    nonempty = λ h. ground (arith, rest.nonempty);
    fits = rest.fits;
    longest = by_position;
  }
    where
      by_position :
          (k : ℕ)
          → k < suc rest.dropped
          → exceeds (token_count tokenizer (drop k (m ∷ ms))) max ≡ true
      by_position zero h = ground (arith, over)
      by_position (suc k) h = rest.longest k (omega arith)

  trim-IsLongest :
      (max : ℤ) (tokenizer : String → ℕ) (ms : List (Message Any))
      → IsLongest max tokenizer ms (trim max tokenizer ms)
  unfolding trim
  trim-IsLongest max tokenizer [] = record {
    dropped = 0;
    suffix = refl;
    nonempty = λ h. h;
    fits = inr (omega arith);
    longest = λ k h. absurd (omega arith);
  }
  trim-IsLongest max tokenizer (m ∷ ms) =
      elim (Bool-cases (exceeds (token_count tokenizer (m ∷ ms)) max && ltb 1 (length (m ∷ ms)))) [
        | inl over ↦ rw over (
            IsLongest-cons max tokenizer m ms (trim max tokenizer ms) over
              (trim-IsLongest max tokenizer ms))
        | inr stays ↦ rw stays (record {
          dropped = 0;
          suffix = refl;
          nonempty = λ h. h;
          fits = small stays;
          longest = λ k h. absurd (omega arith);
        })
      ]
    where
      small :
          (exceeds (token_count tokenizer (m ∷ ms)) max && ltb 1 (length (m ∷ ms))) ≡ false
          → (exceeds (token_count tokenizer (m ∷ ms)) max ≡ false) ⊎ (length (m ∷ ms) ≤ 1)
      small h = elim (Bool-cases (exceeds (token_count tokenizer (m ∷ ms)) max)) [
        | inl e ↦ inr (ground (arith, e, h))
        | inr e ↦ inl e
      ]

  -- `Append` keeps, of the old messages and the new one, the longest suffix that fits, or only the
  -- new one; the limit and the tokenizer stay.
  pub append_message_lem :
      (msg : Message Any) (b : Buffer Any)
      → IsLongest b.max_tokens b.tokenizer (b.messages ++ msg ∷ []) (append_message msg b).messages
        × ((append_message msg b).max_tokens ≡ b.max_tokens)
        × ((append_message msg b).tokenizer ≡ b.tokenizer)
  unfolding append_message
  append_message_lem msg b =
      (trim-IsLongest b.max_tokens b.tokenizer (b.messages ++ msg ∷ []), refl, refl)

  token_count-append :
      (tokenizer : String → ℕ) (xs ys : List (Message Any))
      → token_count tokenizer (xs ++ ys) ≡ token_count tokenizer xs + token_count tokenizer ys
  unfolding token_count
  token_count-append tokenizer [] ys = omega arith
  token_count-append tokenizer (x ∷ xs) ys = omega (arith, token_count-append tokenizer xs ys)

  trim-fits :
      (max : ℤ) (tokenizer : String → ℕ) (ms : List (Message Any))
      → exceeds (token_count tokenizer ms) max ≡ false
      → trim max tokenizer ms ≡ ms
  unfolding trim
  trim-fits max tokenizer [] h = refl
  trim-fits max tokenizer (m ∷ ms) h = rw h refl

  append_message-fits :
      (msg : Message Any) (b : Buffer Any)
      → exceeds (token_count b.tokenizer (b.messages ++ msg ∷ [])) b.max_tokens ≡ false
      → append_message msg b ≡ record b { messages = b.messages ++ msg ∷ [] }
  unfolding append_message
  append_message-fits msg b h =
      ap (λ ms. record b { messages = ms })
        (trim-fits b.max_tokens b.tokenizer (b.messages ++ msg ∷ []) h)

  -- Messages that fit together are all kept.
  pub append_all-fits :
      (ms : List (Message Any)) (b : Buffer Any)
      → exceeds (token_count b.tokenizer (b.messages ++ ms)) b.max_tokens ≡ false
      → append_all ms b ≡ record b { messages = b.messages ++ ms }
  unfolding append_all
  append_all-fits [] b h = ap (λ ms. record b { messages = ms }) (sym (append-nil b.messages))
  append_all-fits (m ∷ ms) b h =
      ap (append_all ms) (append_message-fits m b first)
      ∙ append_all-fits ms (record b { messages = b.messages ++ m ∷ [] }) rest
      ∙ ap (λ l. record b { messages = l }) (append_assoc b.messages (m ∷ []) ms)
    where
      rest : exceeds (token_count b.tokenizer ((b.messages ++ m ∷ []) ++ ms)) b.max_tokens ≡ false
      rest = rw append_assoc h

      first : exceeds (token_count b.tokenizer (b.messages ++ m ∷ [])) b.max_tokens ≡ false
      first =
          exceeds-le _ _ b.max_tokens
            (omega (arith, token_count-append b.tokenizer (b.messages ++ m ∷ []) ms)) rest

  trim-one :
      (m : Message Any) (max : ℤ) (tokenizer : String → ℕ) → trim max tokenizer (m ∷ []) ≡ m ∷ []
  unfolding trim
  trim-one m max tokenizer = elim (Bool-cases (exceeds (token_count tokenizer (m ∷ [])) max)) [
    | inl e ↦ rw e refl
    | inr e ↦ rw e refl
  ]

  -- Messages that a buffer may hold come through an empty one as they are.
  pub append_all-window :
      (ms : List (Message Any)) (max : ℤ) (tokenizer : String → ℕ)
      → (exceeds (token_count tokenizer ms) max ≡ false) ⊎ (length ms ≤ 1)
      → append_all ms (record { messages = []; max_tokens = max; tokenizer = tokenizer })
        ≡ record { messages = ms; max_tokens = max; tokenizer = tokenizer }
  unfolding append_all append_message
  append_all-window ms max tokenizer (inl h) =
      append_all-fits ms (record { messages = []; max_tokens = max; tokenizer = tokenizer }) h
  append_all-window [] max tokenizer (inr h) = refl
  append_all-window (m ∷ []) max tokenizer (inr h) =
      ap (λ ms. record { messages = ms; max_tokens = max; tokenizer = tokenizer })
        (trim-one m max tokenizer)
  append_all-window (m ∷ n ∷ ms) max tokenizer (inr h) = absurd (omega arith)
