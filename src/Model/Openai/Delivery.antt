-- ===== src/Model/Openai/Delivery.antt =====
-- What the reader of a streamed completion gets.
use xgc_agent.Prelude.{
  ◌≡◌, refl, ap, ap₂, ◌∙◌, sym, ℕ, zero, suc, String, Option, none, some, List, [], ◌∷◌, ◌++◌,
  arith, if◌then◌else◌, ltb, leb, length, take, append-nil, append_assoc,
}
use xgc_agent.Message.Response.{Response}
use xgc_agent.Model.Openai.Reply.{Completion, CompletionChoice}
use xgc_agent.Model.Openai.Chunks.{
  Chunk, IdMaps, update_tool_call_index_mapping, create_partial_response, StreamEnd, finished,
  context_done, panicked, send_last, last_response, stream_loop, stream,
}
use xgc_agent.Model.Openai.Sent.{
  chunks_of, ends, partials, create_partial_response_lem, last_at, last_response_lem,
}
use xgc_agent.Model.Openai.Indices.{mapped}

-- How the goroutine ends after a number of chunks, of which so many are sent, with a last response
-- or none.
abbrev end_after {ℓ} : {A : Type ℓ} → ℕ → ℕ → Option A → StreamEnd
end_after sends chunks none = if leb chunks sends then panicked else context_done
end_after sends chunks (some r) = if ltb chunks sends then finished else context_done

abbrev pub to_list {ℓ} : {A : Type ℓ} → Option A → List A
to_list none = []
to_list (some r) = r ∷ []

end_after-last_at :
    (Any : Type 0) (bytes_of : String → List ℕ) (now : ℕ) (e : Option String) (acc : Completion)
    (choices : List CompletionChoice) (ids : IdMaps) (sends chunks : ℕ)
    → end_after sends chunks (last_at {Any = Any} bytes_of now e acc choices ids)
      ≡ ends sends chunks e choices
end_after-last_at Any bytes_of now none acc [] ids sends chunks = refl
end_after-last_at Any bytes_of now none acc (c ∷ cs) ids sends chunks = refl
end_after-last_at Any bytes_of now (some e) acc choices ids sends chunks = refl

module _ {Any : Type 0} where
  abbrev as_sent : List (ℕ × Chunk) → List (Response Any)
  as_sent [] = []
  as_sent ((time, chunk) ∷ chunks) = create_partial_response time chunk ∷ as_sent chunks

  as_sent_lem : (chunks : List (ℕ × Chunk)) → as_sent chunks ≡ partials chunks
  as_sent_lem [] = refl
  as_sent_lem ((time, chunk) ∷ chunks) =
      ap₂ (λ (r : Response Any) (l : List (Response Any)). r ∷ l)
        (create_partial_response_lem time chunk) (as_sent_lem chunks)

  take-nil : (n : ℕ) → take {A = Response Any} n [] ≡ []
  take-nil zero = refl
  take-nil (suc n) = refl

  end_after-last : (sends : ℕ) (r : Response Any) → end_after (suc sends) 0 (some r) ≡ finished
  end_after-last sends r = ground arith

  send_last_lem :
      (sends : ℕ) (r : Option (Response Any))
      → send_last sends r ≡ (take sends (to_list r), end_after sends 0 r)
  unfolding send_last
  send_last_lem zero none = refl
  send_last_lem (suc sends) none = ground arith
  send_last_lem zero (some r) = refl
  send_last_lem (suc sends) (some r) =
      ap₂ (λ (l : List (Response Any)) (e : StreamEnd). (r ∷ l, e)) (sym (take-nil sends))
        (sym (end_after-last sends r))

  -- One chunk more, and one send more.
  end_after-suc :
      (sends chunks : ℕ) (r : Option (Response Any))
      → end_after (suc sends) (suc chunks) r ≡ end_after sends chunks r
  end_after-suc sends chunks none = ground arith
  end_after-suc sends chunks (some r) = ground arith

  end_after-zero :
      (chunks : ℕ) (r : Option (Response Any)) → end_after 0 (suc chunks) r ≡ context_done
  end_after-zero chunks none = ground arith
  end_after-zero chunks (some r) = ground arith

  module _ (bytes_of : String → List ℕ) (accumulate : List Chunk → Completion) (now : ℕ)
      (ended : Option String) where
    abbrev at_end : List (ℕ × Chunk) → List Chunk → IdMaps → Option (Response Any)
    at_end chunks seen ids =
        last_response bytes_of accumulate now ended (seen ++ chunks_of chunks)
          (mapped (chunks_of chunks) ids)

    stream_step :
        (time : ℕ) (chunk : Chunk) (chunks : List (ℕ × Chunk)) (seen : List Chunk) (ids : IdMaps)
        → at_end ((time, chunk) ∷ chunks) seen ids
          ≡ at_end chunks (seen ++ chunk ∷ []) (update_tool_call_index_mapping chunk ids)
    stream_step time chunk chunks seen ids =
        ap
          (λ l.
            last_response bytes_of accumulate now ended l (mapped (chunk ∷ chunks_of chunks) ids))
          (sym (append_assoc seen (chunk ∷ []) (chunks_of chunks)))

    stream_loop_lem :
        (chunks : List (ℕ × Chunk)) (sends : ℕ) (seen : List Chunk) (ids : IdMaps)
        → stream_loop bytes_of accumulate now ended sends chunks seen ids ≡ (
          take sends (as_sent chunks ++ to_list (at_end chunks seen ids)),
          end_after sends (length chunks) (at_end chunks seen ids),
        )
    unfolding stream_loop
    stream_loop_lem [] sends seen ids =
        ap (λ l. send_last sends (last_response bytes_of accumulate now ended l ids))
          (sym (append-nil seen))
        ∙ send_last_lem sends (at_end [] seen ids)
    stream_loop_lem ((time, chunk) ∷ chunks) zero seen ids =
        ap (λ (e : StreamEnd). ([], e))
          (sym (end_after-zero (length chunks) (at_end ((time, chunk) ∷ chunks) seen ids)))
    stream_loop_lem ((time, chunk) ∷ chunks) (suc sends) seen ids =
        let rest =
          stream_loop_lem chunks sends (seen ++ chunk ∷ [])
            (update_tool_call_index_mapping chunk ids) in
        let same = stream_step time chunk chunks seen ids in
        ap
          (λ (p : List (Response Any) × StreamEnd). (create_partial_response time chunk ∷ p.0, p.1))
          rest
        ∙ ap
            (λ (r : Option (Response Any)). (
              create_partial_response time chunk ∷ take sends (as_sent chunks ++ to_list r),
              end_after sends (length chunks) r,
            ))
            (sym same)
        ∙ ap
            (λ (e : StreamEnd). (
              create_partial_response time chunk
                  ∷ take sends
                      (as_sent chunks ++ to_list (at_end ((time, chunk) ∷ chunks) seen ids)),
              e,
            ))
            (sym (end_after-suc sends (length chunks) (at_end ((time, chunk) ∷ chunks) seen ids)))

    -- The last response that the reader is to get.
    abbrev pub last : List (ℕ × Chunk) → Option (Response Any)
    last chunks =
        let acc = accumulate (chunks_of chunks) in
        last_at bytes_of now ended acc acc.choices (mapped (chunks_of chunks) [])

    -- The reader gets, in order, a partial response for each chunk and then one last response, as
    -- far as the sends that the context allows. The last response has the error of the library's
    -- stream, if there is one; else it is made of what was accumulated of all chunks, with the
    -- indices that they gave. Where the library's stream has ended well and no choices were
    -- accumulated there is no last response, and the goroutine panics if the context allows the
    -- partial responses. Else it finishes if the context allows all responses, and ends with the
    -- context if not.
    pub stream_lem :
        (chunks : List (ℕ × Chunk)) (sends : ℕ)
        → stream bytes_of accumulate now ended sends chunks ≡ (
          take sends (partials chunks ++ to_list (last chunks)),
          ends sends (length chunks) ended (accumulate (chunks_of chunks)).choices,
        )
    unfolding stream
    stream_lem chunks sends =
        let acc = accumulate (chunks_of chunks) in
        stream_loop_lem chunks sends [] []
        ∙ ap₂
            (λ (p : List (Response Any)) (r : Option (Response Any)).
              (take sends (p ++ to_list r), end_after sends (length chunks) r))
            (as_sent_lem chunks)
            (last_response_lem bytes_of now accumulate ended (chunks_of chunks)
              (mapped (chunks_of chunks) []))
        ∙ ap (λ (e : StreamEnd). (take sends (partials chunks ++ to_list (last chunks)), e))
            (end_after-last_at Any bytes_of now ended acc acc.choices (mapped (chunks_of chunks) [])
              sends (length chunks))
