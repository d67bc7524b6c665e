-- ===== src/Providers/Google/Replay.antt =====
-- llms/providers/google/convert.go: a response goes back to Gemini as it came.
use maestro_llms.Base.{
  ◌≡◌, refl, Bool, Option, none, some, List, [], ◌∷◌, ◌++◌, ok, if◌then◌else◌, str_eq, Bool-cases,
  inl, inr,
}
use maestro_llms.Llms.Message.{Bytes, ContentPart}
use maestro_llms.Providers.Json.{Fields}
use maestro_llms.Providers.Google.{
  Part, FunctionCall, CallNames, no_part, raw_to_map, call_part_of, part_of, message_parts,
}
use maestro_llms.Providers.Google.Responses.{
  GenerateResponse, id_of, shown, parts_of, all_parts, first_candidate, to_chat_response,
}

-- The parts of a request that stand for a part of a response: a call under its ID or its name, with
-- its thought signature, a text, and nothing for a thought.
replayed : (thought : Bool) → Option FunctionCall → Part → List Part → List Part
replayed Bool.true call p rest = rest
replayed Bool.false (some fc) p rest =
    record no_part {
      function_call = some (record fc { id = id_of fc });
      thought_signature = p.thought_signature;
    }
    ∷ rest
replayed Bool.false none p rest =
    if str_eq p.text "" then rest else record no_part { text = p.text } ∷ rest

pub sent_back : List (Option Part) → List Part
unfolding replayed
sent_back [] = []
sent_back (none ∷ ps) = sent_back ps
sent_back (some p ∷ ps) = replayed p.thought p.function_call p (sent_back ps)

module _ (unmarshal : Bytes → Option (Option Fields)) (marshal : Option Fields → Bytes) where
  -- The arguments of a call come back from their encoding.
  abbrev pub RoundTrips : Option FunctionCall → Type 0
  RoundTrips none = Unit
  RoundTrips (some fc) = raw_to_map unmarshal (marshal fc.args) ≡ some fc.args

  abbrev pub AllRoundTrip : List (Option Part) → Type 0
  AllRoundTrip [] = Unit
  AllRoundTrip (none ∷ ps) = AllRoundTrip ps
  AllRoundTrip (some p ∷ ps) = RoundTrips p.function_call × AllRoundTrip ps

  message_parts-shown :
      (names : CallNames) (thought : Bool) (call : Option FunctionCall) (p : Part)
      (ps : List ContentPart) (rest : List Part)
      → RoundTrips call
      → message_parts unmarshal names ps ≡ ok rest
      → message_parts unmarshal names (shown marshal thought call p ++ ps)
        ≡ ok (replayed thought call p rest)
  unfolding message_parts part_of call_part_of shown replayed
  message_parts-shown names Bool.true call p ps rest h e = e
  message_parts-shown names Bool.false (some fc) p ps rest h e = rw (h, e) refl
  message_parts-shown names Bool.false none p ps rest h e = elim (Bool-cases (str_eq p.text "")) [
    | inl silent ↦ rw silent e
    | inr says ↦ rw (says, says, e) refl
  ]

  message_parts-all_parts :
      (names : CallNames) (ps : List (Option Part))
      → AllRoundTrip ps
      → message_parts unmarshal names (all_parts marshal ps) ≡ ok (sent_back ps)
  unfolding message_parts all_parts parts_of sent_back
  message_parts-all_parts names [] h = refl
  message_parts-all_parts names (none ∷ ps) h = message_parts-all_parts names ps h
  message_parts-all_parts names (some p ∷ ps) h =
      message_parts-shown names p.thought p.function_call p (all_parts marshal ps) (sent_back ps)
        h.0 (message_parts-all_parts names ps h.1)

  -- Where the arguments of the calls of a response come back from their JSON encoding, the message
  -- that the response becomes is accepted again, with whatever names of calls, and converts back to
  -- the parts of the first candidate, in order: each call with its name, its arguments and its thought
  -- signature, under its ID or else its name, and each text that is not empty; thoughts are left out.
  pub message_parts-to_chat_response :
      (result : GenerateResponse) (names : CallNames)
      → AllRoundTrip (first_candidate result.candidates).parts
      → message_parts unmarshal names (to_chat_response marshal result).message.content
        ≡ ok (sent_back (first_candidate result.candidates).parts)
  unfolding to_chat_response
  message_parts-to_chat_response result names h =
      message_parts-all_parts names (first_candidate result.candidates).parts h
