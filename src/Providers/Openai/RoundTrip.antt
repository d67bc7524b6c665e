-- ===== src/Providers/Openai/RoundTrip.antt =====
-- llms/providers/openai/chatconvert.go: a response goes back to the service as it came.
use maestro_llms.Base.{
  ◌≡◌, refl, List, [], ◌∷◌, ◌++◌, map, ok, if◌then◌else◌, str_eq, Bool-cases, inl, inr,
}
use maestro_llms.Llms.Message.{Role, ContentPart, text_part}
use maestro_llms.Providers.Openai.{InputItem, message_items, item_type}
use maestro_llms.Providers.Openai.Responses.{
  OutputItem, OutputContent, Response, texts_of, parts_of, all_parts, to_chat_response,
}

-- The input items that stand for an output item.
texts_sent_back : List OutputContent → List InputItem
texts_sent_back [] = []
texts_sent_back (OutputContent.output_text t ∷ cs) =
    let rest = texts_sent_back cs in
    if str_eq t "" then rest else InputItem.message t "assistant" ∷ rest
texts_sent_back (OutputContent.other ty ∷ cs) = texts_sent_back cs

pub sent_back : List OutputItem → List InputItem
unfolding texts_sent_back
sent_back [] = []
sent_back (OutputItem.function_call id name args ∷ items) =
    InputItem.function_call args id name ∷ sent_back items
sent_back (OutputItem.message cs ∷ items) = texts_sent_back cs ++ sent_back items
sent_back (OutputItem.other ty ∷ items) = sent_back items

-- Texts that are not empty go before the rest of a message.
message_items-texts_of :
    (cs : List OutputContent) (ps : List ContentPart) (items : List InputItem)
    → message_items Role.assistant ps ≡ ok items
    → message_items Role.assistant (map text_part (texts_of cs) ++ ps)
      ≡ ok (texts_sent_back cs ++ items)
unfolding message_items texts_of texts_sent_back item_type
message_items-texts_of [] ps items e = e
message_items-texts_of (OutputContent.output_text t ∷ cs) ps items e =
    elim (Bool-cases (str_eq t "")) [
      | inl silent ↦ rw silent (message_items-texts_of cs ps items e)
      | inr says ↦ rw (says, says, message_items-texts_of cs ps items e) refl
    ]
message_items-texts_of (OutputContent.other ty ∷ cs) ps items e =
    message_items-texts_of cs ps items e

message_items-all_parts :
    (out : List OutputItem) → message_items Role.assistant (all_parts out) ≡ ok (sent_back out)
unfolding message_items all_parts parts_of sent_back item_type
message_items-all_parts [] = refl
message_items-all_parts (OutputItem.function_call id name args ∷ items) =
    rw (message_items-all_parts items) refl
message_items-all_parts (OutputItem.message cs ∷ items) =
    message_items-texts_of cs (all_parts items) (sent_back items) (message_items-all_parts items)
message_items-all_parts (OutputItem.other ty ∷ items) = message_items-all_parts items

-- Whatever the service puts out, the message that a response becomes is accepted again and converts
-- back to one input item for each function call and each text that is not empty, in the order of the
-- output, a call with its call ID, name and arguments.
pub to_chat_response-message_items :
    (resp : Response)
    → let m = (to_chat_response resp).message in
      message_items m.role m.content ≡ ok (sent_back resp.output)
unfolding to_chat_response
to_chat_response-message_items resp = message_items-all_parts resp.output
