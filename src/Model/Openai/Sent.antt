-- ===== src/Model/Openai/Sent.antt =====
-- What the reader of a streamed completion is to get, written out apart from the code: the partial
-- responses, the last response, and how the goroutine ends.
use xgc_agent.Prelude.{
  ◌≡◌, refl, ap, ℕ, suc, String, Option, none, some, List, [], ◌∷◌, map, if◌then◌else◌, true, false,
  ltb, leb, ◌=?◌, string_eq,
}
use xgc_agent.Message.{new_message, role_assistant}
use xgc_agent.Message.Response.{Response, ResponseChoice, api_error}
use xgc_agent.Model.Openai.Reply.{Completion, CompletionChoice, finish_reason_of, error_response}
use xgc_agent.Model.Openai.Chunks.{
  Chunk, ChunkChoice, IdMaps, mapping, no_calls, generate_tool_calls, final_choices, final_response,
  partial_choices, create_partial_response, last_response, StreamEnd, finished, context_done,
  panicked,
}

abbrev pub chunks_of : List (ℕ × Chunk) → List Chunk
chunks_of [] = []
chunks_of ((time, chunk) ∷ chunks) = chunk ∷ chunks_of chunks

-- The members of a list with their places, from a first one.
abbrev numbered {ℓ} : {A : Type ℓ} → ℕ → List A → List (ℕ × A)
numbered i [] = []
numbered i (x ∷ xs) = (i, x) ∷ numbered (suc i) xs

-- How the goroutine ends after a number of chunks, where the context allows so many sends, by the
-- error of the library's stream and the choices that were accumulated: with neither it panics.
abbrev pub ends : ℕ → ℕ → Option String → List CompletionChoice → StreamEnd
ends sends chunks none [] = if leb chunks sends then panicked else context_done
ends sends chunks none (c ∷ cs) = if ltb chunks sends then finished else context_done
ends sends chunks (some e) choices = if ltb chunks sends then finished else context_done

module _ {Any : Type 0} where
  -- A choice of a partial response, at its place among the chunk's choices.
  abbrev partial_choice : ℕ × ChunkChoice → ResponseChoice Any
  partial_choice (i, choice) = record {
    position = i;
    message = new_message role_assistant choice.content;
    finish_reason = if choice.finish_reason =? "" then none else some choice.finish_reason;
  }

  abbrev partial : ℕ × Chunk → Response Any
  partial (time, chunk) = record {
    id = chunk.id;
    model = chunk.model;
    choices = map partial_choice (numbered 0 chunk.choices);
    usage = none;
    error = none;
    time = time;
    done = false;
    is_partial = true;
  }

  abbrev pub partials : List (ℕ × Chunk) → List (Response Any)
  partials chunks = map partial chunks

  partial_choices_lem :
      (choices : List ChunkChoice) (i : ℕ)
      → partial_choices i choices ≡ map partial_choice (numbered i choices)
  unfolding partial_choices finish_reason_of
  partial_choices_lem [] i = refl
  partial_choices_lem (choice ∷ choices) i =
      ap (λ l. partial_choice (i, choice) ∷ l) (partial_choices_lem choices (suc i))

  pub create_partial_response_lem :
      (time : ℕ) (chunk : Chunk) → create_partial_response time chunk ≡ partial (time, chunk)
  unfolding create_partial_response
  create_partial_response_lem time chunk =
      ap (λ l. record (partial (time, chunk)) { choices = l }) (partial_choices_lem chunk.choices 0)

  module _ (bytes_of : String → List ℕ) (now : ℕ) where
    abbrev last_choice : IdMaps → CompletionChoice → ResponseChoice Any
    last_choice ids choice = record {
      position = choice.position;
      message = record (new_message role_assistant choice.content) {
        tool_calls = generate_tool_calls bytes_of 0 choice.tool_calls (mapping choice.position ids);
      };
      finish_reason = none;
    }

    -- The response of a completion whose first choice is `c`, with these choices.
    abbrev with_choices :
        Completion → CompletionChoice → List (ResponseChoice Any) → Option (Response Any)
    with_choices acc c choices = some (record {
      id = acc.id;
      model = acc.model;
      choices = choices;
      usage = some acc.usage;
      error = none;
      time = now;
      done = no_calls c;
      is_partial = false;
    })

    -- The last response, or none, by the error of the library's stream and the choices that were
    -- accumulated.
    abbrev pub last_at :
        Option String → Completion → List CompletionChoice → IdMaps → Option (Response Any)
    last_at (some e) acc choices ids = some (record {
      id = "";
      model = "";
      choices = [];
      usage = none;
      error = some (record { message = e; error_type = api_error });
      time = now;
      done = true;
      is_partial = false;
    })
    last_at none acc [] ids = none
    last_at none acc (c ∷ cs) ids = with_choices acc c (map (last_choice ids) (c ∷ cs))

    final_choices_lem :
        (choices : List CompletionChoice) (ids : IdMaps)
        → final_choices bytes_of choices ids ≡ map (last_choice ids) choices
    unfolding final_choices
    final_choices_lem [] ids = refl
    final_choices_lem (c ∷ cs) ids = ap (λ l. last_choice ids c ∷ l) (final_choices_lem cs ids)

    by_choices :
        (acc : Completion) (ids : IdMaps) (choices : List CompletionChoice)
        → (elim choices as (λ _. Option (Response Any)) [
          | [] ↦ none
          | c ∷ cs ↦ with_choices acc c (final_choices bytes_of (c ∷ cs) ids)
        ])
          ≡ last_at none acc choices ids
    by_choices acc ids [] = refl
    by_choices acc ids (c ∷ cs) = ap (with_choices acc c) (final_choices_lem (c ∷ cs) ids)

    pub last_response_lem :
        (accumulate : List Chunk → Completion) (ended : Option String) (seen : List Chunk)
        (ids : IdMaps)
        → last_response bytes_of accumulate now ended seen ids
          ≡ last_at ended (accumulate seen) (accumulate seen).choices ids
    unfolding last_response final_response error_response
    last_response_lem accumulate none seen ids =
        by_choices (accumulate seen) ids (accumulate seen).choices
    last_response_lem accumulate (some e) seen ids = refl
