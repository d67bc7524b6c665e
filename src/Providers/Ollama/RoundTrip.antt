-- ===== src/Providers/Ollama/RoundTrip.antt =====
-- llms/providers/ollama/wire.go: a response goes back to the server as it came.
use maestro_llms.Base.{
  ℕ, suc, ◌≡◌, refl, sym, ap, ◌∙◌, String, ◌&&◌, List, [], ◌∷◌, ◌++◌, map, append-nil, append_assoc,
  ok, is_empty, if◌then◌else◌, str_eq, str_eq_iff, Bool-cases, inl, inr,
}
use maestro_llms.Llms.Message.{Role, ToolCall, call_part}
use maestro_llms.Providers.Ollama.{
  WireToolCall, WireMessage, WireResponse, Gathered, gather, gather_part, gather_type, part_allowed,
  finished, nothing_yet, wire_call, message_parts, role_for, id_of, call_at, calls_from,
  to_chat_response,
}
use text.Mathlib.TextLemmas.{nil-append as nil-append_text}

-- The gathering of calls.
gather-map :
    (cs : List ToolCall) (g : Gathered)
    → gather Role.assistant (map call_part cs) g
      ≡ ok (record g { tool_calls = g.tool_calls ++ map wire_call cs })
unfolding gather gather_part gather_type part_allowed
gather-map [] g = ap (λ cs. ok (record g { tool_calls = cs })) (sym (append-nil g.tool_calls))
gather-map (c ∷ cs) g =
    gather-map cs (record g { tool_calls = g.tool_calls ++ wire_call c ∷ [] })
    ∙ ap (λ ws. ok (record g { tool_calls = ws }))
        (append_assoc g.tool_calls (wire_call c ∷ []) (map wire_call cs))

module _ (show : ℕ → String) where
  -- The calls of a response, each under its ID.
  pub identified : ℕ → List WireToolCall → List WireToolCall
  identified i [] = []
  identified i (tc ∷ tcs) = record tc { id = id_of show i tc } ∷ identified (suc i) tcs

  calls_from-identified :
      (i : ℕ) (tcs : List WireToolCall) → map wire_call (calls_from show i tcs) ≡ identified i tcs
  unfolding calls_from call_at identified
  calls_from-identified i [] = refl
  calls_from-identified i (tc ∷ tcs) =
      ap (λ ws. record tc { id = id_of show i tc } ∷ ws) (calls_from-identified (suc i) tcs)

  is_empty-identified :
      (i : ℕ) (tcs : List WireToolCall) → is_empty (identified i tcs) ≡ is_empty tcs
  unfolding identified
  is_empty-identified i [] = refl
  is_empty-identified i (tc ∷ tcs) = refl

  -- The messages of a transcript that stand for a response of the server.
  pub replayed : WireResponse → List WireMessage
  replayed resp =
      if str_eq resp.message.content "" && is_empty resp.message.tool_calls
      then []
      else record {
        role = "assistant";
        content = resp.message.content;
        tool_calls = identified 0 resp.message.tool_calls;
        tool_call_id = "";
      }
        ∷ []

  -- Whatever the server answers, the message that the answer becomes converts back to one message
  -- of the assistant with the same content and the same calls, in order, with their names and
  -- arguments, each under its own ID or the synthetic one of its index; and to none where the answer has
  -- neither content nor calls.
  pub to_chat_response-message_parts :
      (resp : WireResponse)
      → message_parts (to_chat_response show resp).message ≡ ok (replayed resp)
  unfolding to_chat_response message_parts role_for finished replayed
  to_chat_response-message_parts resp = elim (Bool-cases (str_eq resp.message.content "")) [
    | inl silent ↦
        rw (silent, to_chat_response)
          (rw
            (
              gather-map (calls_from show 0 resp.message.tool_calls) nothing_yet,
              calls_from-identified 0 resp.message.tool_calls,
              is_empty-identified 0 resp.message.tool_calls,
              (str_eq_iff resp.message.content "").0 silent,
            )
            refl)
    | inr says ↦
        rw (says, to_chat_response)
          (rw
            (
              says,
              nil-append_text resp.message.content,
              gather-map (calls_from show 0 resp.message.tool_calls)
                  (record nothing_yet { text = resp.message.content }),
              calls_from-identified 0 resp.message.tool_calls,
              says,
            )
            refl)
  ]
