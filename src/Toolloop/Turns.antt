-- ===== src/Toolloop/Turns.antt =====
-- llms/toolloop/run.go: the turns that Run appends to a transcript that can be sent.
use maestro_llms.Base.{
  ◌≡◌, ◌≢◌, refl, sym, ap, ◌∙◌, subst, String, true, false, List, [], ◌∷◌, ◌++◌, map, append_assoc,
  append-nil, arith, count,
}
use maestro_llms.Llms.Message.{
  Message, Role, ContentPart, ContentPartType, ToolCall, ToolResult as CallResult, ChatResponse,
  result_part, tool_result_message,
}
use maestro_llms.Middleware.Validation.{has_non_reasoning}
use maestro_llms.Middleware.Validation.Conversation.{
  LegalParts, LegalType, AllResults, ToolTurn, Conversation, Conversation-append, call_ids, call_of,
  result_ids, Distinct,
}
use maestro_llms.Toolloop.Calls.{is_empty_response, says_nothing}

-- What llms/chat.go asks of a provider's response: a legal assistant message with distinct call
-- IDs, and `tool_calls` as its mirror.
pub record GoodResponse (r : ChatResponse) : Type 0 where
  pub role : r.message.role ≡ Role.assistant
  pub parts : LegalParts Role.assistant r.message.content
  pub mirror : map (λ c. c.id) r.tool_calls ≡ call_ids r.message.content
  pub distinct : Distinct (call_ids r.message.content)

-- A transcript that ValidateMessages accepts.
abbrev pub Sendable : List Message → Type 0
Sendable ms = (ms ≢ []) × Conversation ms

append_not_empty {ℓ} : {A : Type ℓ} (xs ys : List A) → xs ≢ [] → xs ++ ys ≢ []
append_not_empty [] ys h = absurd (h refl)
append_not_empty (x ∷ xs) ys h = λ e. cc

abbrev pub ids_of : List ToolCall → List String
ids_of = map λ c. c.id

says_nothing-has_non_reasoning :
    (ps : List ContentPart) → says_nothing ps ≡ false → has_non_reasoning ps ≡ true
unfolding says_nothing has_non_reasoning
says_nothing-has_non_reasoning [] h = cc
says_nothing-has_non_reasoning (p ∷ ps) h = ground (arith, says_nothing-has_non_reasoning ps)

call_ids-has_non_reasoning :
    (ps : List ContentPart) → call_ids ps ≢ [] → has_non_reasoning ps ≡ true
unfolding has_non_reasoning
call_ids-has_non_reasoning [] h = absurd (h refl)
call_ids-has_non_reasoning (p ∷ ps) h = ground (arith, call_ids-has_non_reasoning ps)

no_ids : (cs : List ToolCall) → ids_of cs ≡ [] → cs ≡ []
no_ids [] e = refl
no_ids (c ∷ cs) e = cc

-- A response that the loop does not take for empty says something.
says_something :
    (r : ChatResponse)
    → GoodResponse r
    → is_empty_response r ≡ false
    → has_non_reasoning r.message.content ≡ true
unfolding is_empty_response
says_something r g h = go r.tool_calls refl
  where
    go : (cs : List ToolCall) → r.tool_calls ≡ cs → has_non_reasoning r.message.content ≡ true
    go [] e = says_nothing-has_non_reasoning r.message.content (ground arith)
    go (c ∷ cs) e = call_ids-has_non_reasoning r.message.content (λ n. ground (arith, g.mirror))

-- No ID is empty.
abbrev Named : List String → Type 0
Named [] = Unit
Named (id ∷ ids) = (id ≢ "") × Named ids

Named-append : (xs ys : List String) → Named xs → Named ys → Named (xs ++ ys)
Named-append [] ys a b = b
Named-append (x ∷ xs) ys a b = (a.0, Named-append xs ys a.1 b)

call_of-Named :
    (t : ContentPartType) (p : ContentPart)
    → LegalType t Role.assistant p
    → Named (call_of t p.tool_call)
call_of-Named ContentPartType.text p l = tt
call_of-Named ContentPartType.tool_call p (c, e, n, r) =
    subst (λ o. Named (call_of ContentPartType.tool_call o)) (sym e) (n, tt)
call_of-Named ContentPartType.tool_result p l = tt
call_of-Named ContentPartType.reasoning p l = tt
call_of-Named (ContentPartType.other t) p l = absurd l

call_ids-Named : (ps : List ContentPart) → LegalParts Role.assistant ps → Named (call_ids ps)
call_ids-Named [] l = tt
call_ids-Named (p ∷ ps) l =
    Named-append (call_of p.type p.tool_call) (call_ids ps) (call_of-Named p.type p l.0)
      (call_ids-Named ps l.1)

abbrev pub answered : List CallResult → List String
answered = map λ r. r.tool_call_id

-- The message of a list of results with names.
results_legal :
    (rs : List CallResult)
    → Named (answered rs)
    → LegalParts Role.tool (map result_part rs)
      × AllResults (map result_part rs)
      × (result_ids (map result_part rs) ≡ answered rs)
results_legal [] n = (tt, tt, refl)
results_legal (r ∷ rs) n =
    let (l, a, e) = results_legal rs n.1 in
    (((r, refl, n.0, refl), l), (refl, a), ap (◌∷◌ r.tool_call_id) e)

results-ToolTurn :
    (rs : List CallResult) → Named (answered rs) → rs ≢ [] → ToolTurn (tool_result_message rs)
unfolding has_non_reasoning
results-ToolTurn [] n h = absurd (h refl)
results-ToolTurn (r ∷ rs) n h =
    let (l, a, e) = results_legal (r ∷ rs) n in
    record { legal = record { says = refl; parts = l }; role = refl; results = a }

-- An assistant turn without calls, and one with its results.
pub final_turn :
    (ts : List Message) (r : ChatResponse)
    → Sendable ts
    → GoodResponse r
    → is_empty_response r ≡ false
    → r.tool_calls ≡ []
    → Sendable (ts ++ r.message ∷ [])
final_turn ts r s g nonempty none_called = (
  append_not_empty ts (r.message ∷ []) s.0,
  Conversation-append (r.message ∷ []) s.1 (
      Conversation.assistant_turn r.message [] []
        (record {
          says = says_something r g nonempty;
          parts = subst (λ k. LegalParts k r.message.content) (sym g.role) g.parts;
        })
        g.role g.distinct tt (λ id. ground (arith, g.mirror)) Conversation.done refl),
)

pub call_turn :
    (ts : List Message) (r : ChatResponse) (rs : List CallResult)
    → Sendable ts
    → GoodResponse r
    → is_empty_response r ≡ false
    → r.tool_calls ≢ []
    → answered rs ≡ ids_of r.tool_calls
    → Sendable ((ts ++ r.message ∷ []) ++ tool_result_message rs ∷ [])
call_turn ts r rs s g nonempty called answers =
    subst Sendable (sym (append_assoc ts (r.message ∷ []) (tool_result_message rs ∷ []))) (
      append_not_empty ts (r.message ∷ tool_result_message rs ∷ []) s.0,
      Conversation-append (r.message ∷ tool_result_message rs ∷ []) s.1 (
          Conversation.assistant_turn r.message (tool_result_message rs ∷ []) []
            (record {
              says = says_something r g nonempty;
              parts = subst (λ k. LegalParts k r.message.content) (sym g.role) g.parts;
            })
            g.role g.distinct (results-ToolTurn rs named some_result, tt) (λ id. ap (count id) same)
            Conversation.done refl),
    )
  where
    named : Named (answered rs)
    named = subst Named (sym (answers ∙ g.mirror)) (call_ids-Named r.message.content g.parts)

    same : result_ids (map result_part rs) ++ [] ≡ call_ids r.message.content
    same =
        append-nil (result_ids (map result_part rs))
        ∙ (results_legal rs named).2
        ∙ answers
        ∙ g.mirror

    some_result : rs ≢ []
    some_result e = called (no_ids r.tool_calls (sym answers ∙ ap answered e))
