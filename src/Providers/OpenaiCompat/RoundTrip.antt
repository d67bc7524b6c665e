-- ===== src/Providers/OpenaiCompat/RoundTrip.antt =====
-- llms/providers/openaicompat/convert.go: a completion goes back to the server as it came.
use maestro_llms.Base.{
  ◌≡◌, refl, sym, ap, ◌∙◌, String, ◌&&◌, List, [], ◌∷◌, ◌++◌, map, append-nil, append_assoc, ok,
  err, is_empty, if◌then◌else◌, str_eq, str_eq_iff, Bool-cases, inl, inr,
}
use maestro_llms.Base.Int.{ℤ}
use maestro_llms.Base.{Option}
use maestro_llms.Llms.Message.{Role, ContentPart, ToolCall, text_part, call_part}
use maestro_llms.Providers.Requests.{BadRequest, Converted}
use maestro_llms.Providers.OpenaiCompat.{
  FunctionCall, ChatMessage, Spoken, function_call, speak, speak_type, assistant_message,
}
use maestro_llms.Providers.OpenaiCompat.Responses.{
  WireChoice, ChatCompletion, neutral_call, response_of, to_response,
}

speak-map :
    (cs : List ToolCall) (s : Spoken)
    → speak (map call_part cs) s ≡ ok (record s { calls = s.calls ++ map function_call cs })
unfolding speak speak_type
speak-map [] s = ap (λ cs. ok (record s { calls = cs })) (sym (append-nil s.calls))
speak-map (c ∷ cs) s =
    speak-map cs (record s { calls = s.calls ++ function_call c ∷ [] })
    ∙ ap (λ fs. ok (record s { calls = fs }))
        (append_assoc s.calls (function_call c ∷ []) (map function_call cs))

map-neutral_call : (fs : List FunctionCall) → map function_call (map neutral_call fs) ≡ fs
map-neutral_call [] = refl
map-neutral_call (f ∷ fs) = ap (λ rest. f ∷ rest) (map-neutral_call fs)

-- The parts of a content and calls, and the message that they become.
abbrev parts_of : String → List FunctionCall → List ContentPart
parts_of t fs =
    (if str_eq t "" then [] else text_part t ∷ []) ++ map call_part (map neutral_call fs)

-- The assistant message of a choice, which has to say something.
unfoldable pub replayed : String → List FunctionCall → Converted ChatMessage
replayed t fs =
    if str_eq t "" && is_empty fs
    then err (BadRequest.empty_content Role.assistant)
    else ok (ChatMessage.assistant t fs)

assistant_message-parts_of :
    (t : String) (fs : List FunctionCall) → assistant_message (parts_of t fs) ≡ replayed t fs
unfolding assistant_message replayed speak speak_type
assistant_message-parts_of t [] = elim (Bool-cases (str_eq t "")) [
  | inl silent ↦ rw silent refl
  | inr says ↦ rw (says, says, says) refl
]
assistant_message-parts_of t (f ∷ fs) = elim (Bool-cases (str_eq t "")) [
  | inl silent ↦
      rw
        (
          silent,
          speak-map (map neutral_call fs) (record { text = ""; calls = f ∷ [] }),
          map-neutral_call fs,
        )
        (ap (λ x. ok (ChatMessage.assistant x (f ∷ fs))) (sym ((str_eq_iff t "").0 silent)))
  | inr says ↦
      rw
        (
          says,
          says,
          speak-map (map neutral_call (f ∷ fs)) (record { text = t; calls = [] }),
          map-neutral_call fs,
          says,
        )
        refl
]

module _ (atoi : String → Option ℤ) where
  -- Whatever a server completes, the message of its first choice converts back to one assistant
  -- message with the same content and the same calls, in order, with their IDs, names and arguments;
  -- one with neither is refused as empty.
  pub to_response-assistant_message :
      (resp : ChatCompletion) (c : WireChoice) (cs : List WireChoice)
      → resp.choices ≡ c ∷ cs
      → assistant_message (to_response atoi resp).message.content ≡ replayed c.content c.tool_calls
  unfolding to_response response_of
  to_response-assistant_message resp c cs e =
      rw (e, to_response) (assistant_message-parts_of c.content c.tool_calls)
