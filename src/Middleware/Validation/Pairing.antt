-- ===== src/Middleware/Validation/Pairing.antt =====
-- llms/middleware/validation.go: ValidateMessages decides the conversations.
use maestro_llms.Base.{
  ℕ, suc, ◌≡◌, ◌≢◌, ◌⊎◌, refl, sym, ap, ◌∙◌, refuse, String, true, List, [], ◌∷◌, ◌++◌, arith, ok,
  not, >>=-eq-ok, ◌>>◌, inl, inr, ◌↔◌, count-append, empty_of_counts, is_empty, str_eq_refl, subst,
}
use maestro_llms.Llms.Message.{Role, ContentPart, Message}
use maestro_llms.Llms.Reasons.{Invalid}
use maestro_llms.Middleware.Validation.{
  PairingState, open_calls, close_calls, step, check_content, check_message, check_messages,
  validate_messages, validate_parts, no_calls, has_non_reasoning,
}
use maestro_llms.Middleware.Validation.Conversation.{
  Legal, LegalParts, LegalType, AllResults, ToolTurn, ToolTurns, result_ids, all_result_ids,
  Distinct, SameIds, Conversation,
}
use maestro_llms.Middleware.Validation.Legality.{validate_parts-LegalParts}
use maestro_llms.Middleware.Validation.Calls.{
  open_calls-count, open_calls_total, close_calls-AllResults, close_calls-count, close_calls_total,
}

-- What one round of the loop accepts.
check_message-Legal :
    (mi : ℕ) (m : Message) (s q : PairingState)
    → check_message mi m s ≡ ok q
    → Legal m × (step mi m s ≡ ok q)
unfolding check_message check_content
check_message-Legal mi m s q h =
    let (u, e, rest) =
      >>=-eq-ok (check_content mi m) (λ _. validate_parts mi 0 m.role m.content >> step mi m s) h in
    let (v, f, last) = >>=-eq-ok (validate_parts mi 0 m.role m.content) (λ _. step mi m s) rest in
    (
      record { says = ground arith; parts = (validate_parts-LegalParts mi 0 m.role m.content).0 f },
      last,
    )

check_message_of_Legal :
    (mi : ℕ) (m : Message) (s : PairingState) → Legal m → check_message mi m s ≡ step mi m s
unfolding check_message check_content
check_message_of_Legal mi m s l =
    rw (l.says, (validate_parts-LegalParts mi 0 m.role m.content).1 l.parts)

-- What a round does in each role.
step-user :
    (mi : ℕ) (m : Message) (s q : PairingState)
    → m.role ≡ Role.user
    → step mi m s ≡ ok q
    → (s.pending ≡ []) × (q ≡ s)
unfolding step
step-user mi m s q r h = ground arith

step-assistant :
    (mi : ℕ) (m : Message) (s q : PairingState)
    → m.role ≡ Role.assistant
    → step mi m s ≡ ok q
    → (s.pending ≡ []) × (open_calls mi m.content [] ≡ ok q.pending)
unfolding step
step-assistant mi m s q r h = ground arith

step-tool :
    (mi : ℕ) (m : Message) (s : PairingState)
    → m.role ≡ Role.tool
    → step mi m s ≡ close_calls mi m.content s
unfolding step
step-tool mi m s r = ground arith

step-other :
    (mi : ℕ) (m : Message) (s q : PairingState) (t : String)
    → m.role ≡ Role.other t
    → ¬ (step mi m s ≡ ok q)
unfolding step
step-other mi m s q t r h = ground arith

-- A transcript that opens with the tool messages for the IDs that are pending.
record Tail (pending : List String) (ms : List Message) : Type 0 where
  turns : List Message
  rest : List Message
  splits : ms ≡ turns ++ rest
  tools : ToolTurns turns
  answers : SameIds (all_result_ids turns) pending
  conversation : Conversation rest

-- A message of results answers at least one call.
result_of_ToolTurn :
    (m : Message)
    → ToolTurn m
    → (id : String) × (ids : List String) × (result_ids m.content ≡ id ∷ ids)
unfolding has_non_reasoning
result_of_ToolTurn m t = go m.content m.role t.legal.says t.legal.parts t.results
  where
    go :
        (ps : List ContentPart) (role : Role)
        → has_non_reasoning ps ≡ true
        → LegalParts role ps
        → AllResults ps
        → (id : String) × (ids : List String) × (result_ids ps ≡ id ∷ ids)
    go [] role says l r = cc
    go (p ∷ ps) role says l r =
        let (c, e, n, i) = subst (λ k. LegalType k role p) r.0 l.0 in
        (c.tool_call_id, result_ids ps, ground arith)

Tail-Conversation : (ms : List Message) → Tail [] ms → Conversation ms
Tail-Conversation ms t = go t.turns t.splits t.tools t.answers
  where
    go :
        (ts : List Message)
        → ms ≡ ts ++ t.rest
        → ToolTurns ts
        → SameIds (all_result_ids ts) []
        → Conversation ms
    go [] e tools answers = subst Conversation (sym e) t.conversation
    go (m ∷ ts) e tools answers =
        let (id, ids, f) = result_of_ToolTurn m tools.0 in
        absurd (
          ground (
            arith,
            answers id,
            str_eq_refl id,
            count-append (result_ids m.content) (all_result_ids ts) id,
          ))

Role-cases :
    (r : Role)
    → (r ≡ Role.user) ⊎ (r ≡ Role.assistant) ⊎ (r ≡ Role.tool) ⊎ ((t : String) × (r ≡ Role.other t))
Role-cases Role.user = inl refl
Role-cases Role.assistant = inr (inl refl)
Role-cases Role.tool = inr (inr (inl refl))
Role-cases (Role.other t) = inr (inr (inr (t, refl)))

-- A conversation is a tail with nothing pending.
Tail-of_Conversation :
    {ms : List Message} (pending : List String) → pending ≡ [] → Conversation ms → Tail pending ms
Tail-of_Conversation {ms} pending e c = record {
  turns = [];
  rest = ms;
  splits = refl;
  tools = tt;
  answers = λ id. ground arith;
  conversation = c;
}

module _ (mi : ℕ) (m : Message) (ms : List Message) (s mid : PairingState) (l : Legal m)
    (st : step mi m s ≡ ok mid) (d : Distinct s.pending)
    (ih : Distinct mid.pending → Tail mid.pending ms) where
  assistant-Tail : m.role ≡ Role.assistant → Tail s.pending (m ∷ ms)
  assistant-Tail r =
      let (nothing, opened) = step-assistant mi m s mid r st in
      let counts = open_calls-count mi m.role m.content [] mid.pending l.parts opened in
      let t = ih (λ id. ground (arith, counts id)) in
      Tail-of_Conversation s.pending nothing (
        Conversation.assistant_turn m t.turns t.rest l r (λ id. ground (arith, counts id)) t.tools
          (λ id. ground (arith, counts id, t.answers id)) t.conversation t.splits)

  user-Tail : m.role ≡ Role.user → Tail s.pending (m ∷ ms)
  user-Tail r =
      let (nothing, same) = step-user mi m s mid r st in
      let t = subst (λ k. Tail k ms) (ground arith) (ih (λ id. ground (arith, d id))) in
      Tail-of_Conversation s.pending nothing (Conversation.user_turn m l r (Tail-Conversation ms t))

  tool-Tail : m.role ≡ Role.tool → Tail s.pending (m ∷ ms)
  tool-Tail r =
      let closed = sym (step-tool mi m s r) ∙ st in
      let results = close_calls-AllResults mi m.content s mid closed in
      let counts = λ (id : String).
        close_calls-count mi m.role m.content s mid results l.parts closed id (d id) in
      let t = ih (λ id. ground (arith, counts id, d id)) in
      record {
        turns = m ∷ t.turns;
        rest = t.rest;
        splits = ap (◌∷◌ m) t.splits;
        tools = (record { legal = l; role = r; results = results }, t.tools);
        answers = λ id. ground (
          arith,
          counts id,
          t.answers id,
          count-append (result_ids m.content) (all_result_ids t.turns) id,
        );
        conversation = t.conversation;
      }

  round-Tail : Tail s.pending (m ∷ ms)
  round-Tail = elim (Role-cases m.role) [
    | inl r ↦ user-Tail r
    | inr (inl r) ↦ assistant-Tail r
    | inr (inr (inl r)) ↦ tool-Tail r
    | inr (inr (inr (t, r))) ↦ absurd (step-other mi m s mid t r st)
  ]

check_messages-Tail :
    (mi : ℕ) (ms : List Message) (s q : PairingState)
    → Distinct s.pending
    → check_messages mi ms s ≡ ok q
    → q.pending ≡ []
    → Tail s.pending ms
unfolding check_messages
check_messages-Tail mi [] s q d h e =
    Tail-of_Conversation s.pending (ground arith) Conversation.done
check_messages-Tail mi (m ∷ ms) s q d h e =
    let (mid, first, rest) = >>=-eq-ok (check_message mi m s) (check_messages (suc mi) ms) h in
    let (l, st) = check_message-Legal mi m s mid first in
    round-Tail mi m ms s mid l st d (λ dm. check_messages-Tail (suc mi) ms mid q dm rest e)

-- The other way: the loop goes through a conversation, and comes back to nothing pending.
step_user_of :
    (mi : ℕ) (m : Message) (s : PairingState)
    → m.role ≡ Role.user
    → s.pending ≡ []
    → step mi m s ≡ ok s
unfolding step
step_user_of mi m s r e = ground arith

step_assistant_of :
    (mi : ℕ) (m : Message) (s : PairingState) (q : List String)
    → m.role ≡ Role.assistant
    → s.pending ≡ []
    → open_calls mi m.content [] ≡ ok q
    → step mi m s ≡ ok (record { pending = q; resolved = [] })
unfolding step
step_assistant_of mi m s q r e f = ground arith

-- `k` is what the loop does behind the tool messages.
check_tools :
    (mi : ℕ) (ts rest : List Message) (s : PairingState)
    → ToolTurns ts
    → Distinct s.pending
    → SameIds (all_result_ids ts) s.pending
    → ((n : ℕ) (q : PairingState)
        → q.pending ≡ []
        → (z : PairingState) × (check_messages n rest q ≡ ok z) × (z.pending ≡ []))
    → (z : PairingState) × (check_messages mi (ts ++ rest) s ≡ ok z) × (z.pending ≡ [])
unfolding check_messages
check_tools mi [] rest s tools d a k =
    k mi s (empty_of_counts s.pending (λ id. ground (arith, a id)))
check_tools mi (m ∷ ts) rest s tools d a k =
    let t = tools.0 in
    let split = λ (id : String). count-append (result_ids m.content) (all_result_ids ts) id in
    let (q, f) =
      close_calls_total mi m.role m.content s t.results t.legal.parts d
        (λ id. ground (arith, a id, split id)) in
    let counts = λ (id : String).
      close_calls-count mi m.role m.content s q t.results t.legal.parts f id (d id) in
    let (z, g, e) =
      check_tools (suc mi) ts rest q tools.1 (λ id. ground (arith, counts id, d id))
        (λ id. ground (arith, counts id, a id, split id)) k in
    (z, rw (check_message_of_Legal mi m s t.legal, step-tool mi m s t.role, f) g, e)

check_Conversation :
    {ms : List Message} (c : Conversation ms) (mi : ℕ) (s : PairingState)
    → s.pending ≡ []
    → (z : PairingState) × (check_messages mi ms s ≡ ok z) × (z.pending ≡ [])
unfolding check_messages
check_Conversation Conversation.done mi s e = (s, refl, e)
check_Conversation (Conversation.user_turn m l r c) mi s e =
    let (z, f, g) = check_Conversation c (suc mi) s e in
    (z, rw (check_message_of_Legal mi m s l, step_user_of mi m s r e) f, g)
check_Conversation (Conversation.assistant_turn m ts rest l r d tools a c split) mi s e =
    let (q, f) = open_calls_total mi m.role m.content [] l.parts (λ id. ground (arith, d id)) in
    let counts = open_calls-count mi m.role m.content [] q l.parts f in
    let s' : PairingState = record { pending = q; resolved = [] } in
    let (z, g, done) =
      check_tools (suc mi) ts rest s' tools (λ id. ground (arith, counts id))
        (λ id. ground (arith, counts id, a id)) (check_Conversation c) in
    (z, rw (check_message_of_Legal mi m s l, step_assistant_of mi m s q r e f, split) g, done)

-- `ValidateMessages` returns no error exactly for the transcripts that are not empty and are a
-- conversation: legal messages, and every tool call answered exactly once, by the tool messages
-- right behind it.
pub validate_messages-Conversation :
    (ms : List Message) → (validate_messages ms ≡ ok tt) ↔ ((ms ≢ []) × Conversation ms)
unfolding validate_messages
validate_messages-Conversation ms = (sound ms, λ h. complete ms h.0 h.1)
  where
    sound : (xs : List Message) → validate_messages xs ≡ ok tt → (xs ≢ []) × Conversation xs
    sound [] h = cc
    sound (m ∷ xs) h =
        let (q, f, g) =
          >>=-eq-ok (check_messages 0 (m ∷ xs) no_calls)
            (λ s. refuse (not (is_empty s.pending)) (Invalid.ends_with_calls s.pending)) h in
        (
          (λ e. cc),
          Tail-Conversation (m ∷ xs)
              (check_messages-Tail 0 (m ∷ xs) no_calls q (λ id. omega arith) f (ground arith)),
        )

    complete : (xs : List Message) → xs ≢ [] → Conversation xs → validate_messages xs ≡ ok tt
    complete [] n c = absurd (n refl)
    complete (m ∷ xs) n c = let (z, f, e) = check_Conversation c 0 no_calls refl in rw (f, e)
