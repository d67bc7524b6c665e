-- ===== src/Toolloop/Compact/Policy.antt =====
-- llms/toolloop/compact/compact.go with llms/reasoning.go: the transcript that KeepLast returns.
use maestro_llms.Base.{
  ℕ, suc, ◌≡◌, ◌≢◌, refl, sym, ap, ◌∙◌, subst, Bool, true, false, not, ◌||◌, none, some, List, [],
  ◌∷◌, ◌++◌, map, map-append, arith, count, Bool-cases, inl, inr, ok, String, append_text, str_eq,
  if◌then◌else◌,
}
use maestro_llms.Base.Int.{ℤ}
use maestro_llms.Llms.Message.{
  Message, Role, ContentPart, ChatRequest, ChatResponse, text_part, user_text, is_user,
  is_reasoning_type,
}
use maestro_llms.Llms.Usage.{Usage, zero_usage}
use maestro_llms.Llms.Errors.{GoError, is_nil}
use maestro_llms.Llms.Reasoning.{Keep, kept_parts, without_reasoning}
use maestro_llms.Llms.Reasoning.Filter.{filter_message, filter_reasoning-map}
use maestro_llms.Middleware.Validation.{has_non_reasoning, validate_messages}
use maestro_llms.Middleware.Validation.Conversation.{
  Conversation, Legal, LegalParts, ToolTurns, AllResults, all_result_ids, call_ids, result_ids,
}
use maestro_llms.Middleware.Validation.Pairing.{validate_messages-Conversation}
use maestro_llms.Toolloop.Types.{CompactInput, CompactResult}
use maestro_llms.Toolloop.Compact.{
  Span, no_change, head_of, split, kept, drops, due, keep_last, dropped, summary_header,
  summary_request, SummarizeConfig, summarize,
}
use maestro_llms.Toolloop.Compact.Kept.{split-head_of, kept-Conversation}

module _ (keep : Keep) where
  has_non_reasoning-kept_parts :
      (ps : List ContentPart) → has_non_reasoning (kept_parts keep ps) ≡ has_non_reasoning ps
  unfolding has_non_reasoning kept_parts
  has_non_reasoning-kept_parts [] = refl
  has_non_reasoning-kept_parts (p ∷ ps) = ground (arith, has_non_reasoning-kept_parts ps)

  LegalParts-kept_parts :
      (role : Role) (ps : List ContentPart)
      → LegalParts role ps
      → LegalParts role (kept_parts keep ps)
  unfolding kept_parts
  LegalParts-kept_parts role [] h = tt
  LegalParts-kept_parts role (p ∷ ps) h =
      elim (Bool-cases (not (is_reasoning_type p.type) || keep p.reasoning)) [
        | inl stays ↦ rw stays (h.0, LegalParts-kept_parts role ps h.1)
        | inr goes ↦ rw goes (LegalParts-kept_parts role ps h.1)
      ]

  call_ids-kept_parts : (ps : List ContentPart) → call_ids (kept_parts keep ps) ≡ call_ids ps
  unfolding kept_parts
  call_ids-kept_parts [] = refl
  call_ids-kept_parts (p ∷ ps) = ground (arith, call_ids-kept_parts ps)

  result_ids-kept_parts : (ps : List ContentPart) → result_ids (kept_parts keep ps) ≡ result_ids ps
  unfolding kept_parts
  result_ids-kept_parts [] = refl
  result_ids-kept_parts (p ∷ ps) = ground (arith, result_ids-kept_parts ps)

  AllResults-kept_parts : (ps : List ContentPart) → AllResults ps → AllResults (kept_parts keep ps)
  unfolding kept_parts
  AllResults-kept_parts [] h = tt
  AllResults-kept_parts (p ∷ ps) h = ground (arith, AllResults-kept_parts ps h.1, h.0)

  Legal-filter_message : (m : Message) → Legal m → Legal (filter_message keep m)
  unfolding filter_message
  Legal-filter_message m l = record {
    says = has_non_reasoning-kept_parts m.content ∙ l.says;
    parts = LegalParts-kept_parts m.role m.content l.parts;
  }

  ToolTurns-map : (ts : List Message) → ToolTurns ts → ToolTurns (map (filter_message keep) ts)
  unfolding filter_message
  ToolTurns-map [] h = tt
  ToolTurns-map (t ∷ ts) h = (
    record {
      legal = Legal-filter_message t h.0.legal;
      role = h.0.role;
      results = AllResults-kept_parts t.content h.0.results;
    },
    ToolTurns-map ts h.1,
  )

  all_result_ids-map :
      (ts : List Message) → all_result_ids (map (filter_message keep) ts) ≡ all_result_ids ts
  unfolding filter_message
  all_result_ids-map [] = refl
  all_result_ids-map (t ∷ ts) =
      rw (result_ids-kept_parts t.content)
        (ap (λ r. result_ids t.content ++ r) (all_result_ids-map ts))

  Conversation-map :
      {ms : List Message} → Conversation ms → Conversation (map (filter_message keep) ms)
  Conversation-map Conversation.done = Conversation.done
  Conversation-map (Conversation.user_turn m l r c) =
      Conversation.user_turn (filter_message keep m) (Legal-filter_message m l) r
        (Conversation-map c)
  Conversation-map (Conversation.assistant_turn m ts rest l r d tools same c e) =
      let f = filter_message keep in
      let ids = call_ids-kept_parts m.content in
      Conversation.assistant_turn (f m) (map f ts) (map f rest) (Legal-filter_message m l) r
        (λ id. ground (arith, ap (count id) ids, d id)) (ToolTurns-map ts tools)
        (λ id. ap (count id) (all_result_ids-map ts) ∙ same id ∙ ap (count id) (sym ids))
        (Conversation-map c) (ap (map f) e ∙ map-append f ts rest)

-- Taking the reasoning out of a conversation leaves a conversation.
without_reasoning-Conversation :
    {ms : List Message} → Conversation ms → Conversation (without_reasoning ms)
unfolding without_reasoning
without_reasoning-Conversation {ms = ms} c =
    subst Conversation (sym (filter_reasoning-map (λ r. false) ms))
      (Conversation-map (λ r. false) c)

not_empty_map : (f : Message → Message) (xs : List Message) → xs ≢ [] → map f xs ≢ []
not_empty_map f [] h = h
not_empty_map f (x ∷ xs) h = λ e. cc

head_positive : (m : Message) (ms : List Message) → (k : ℕ) × (head_of (m ∷ ms) ≡ suc k)
unfolding head_of
head_positive m ms = elim (Bool-cases (is_user m.role)) [
  | inl user ↦ rw user (0, refl)
  | inr other ↦ rw other (head_of ms, refl)
]

kept_not_empty :
    (s : Span) (m : Message) (ms insert : List Message) (k : ℕ)
    → s.head ≡ suc k
    → kept s (m ∷ ms) insert ≢ []
unfolding kept
kept_not_empty s m ms insert k h = rw h (λ e. cc)

not_empty_kept :
    (ms insert : List Message) (keep : ℕ)
    → ms ≢ []
    → without_reasoning (kept (split ms keep) ms insert) ≢ []
unfolding without_reasoning
not_empty_kept [] insert keep h = absurd (h refl)
not_empty_kept (m ∷ ms) insert keep h =
    let (k, e) = head_positive m ms in
    let s = split (m ∷ ms) keep in
    subst (λ xs. xs ≢ []) (sym (filter_reasoning-map (λ r. false) (kept s (m ∷ ms) insert)))
      (not_empty_map (filter_message (λ r. false)) _
        (kept_not_empty s m ms insert k (split-head_of (m ∷ ms) keep ∙ e)))

adopted :
    (acts drops_some : Bool) (xs : List Message) (ms : List Message)
    → (if not acts
        then no_change
        else if not drops_some
        then no_change
        else record { usage = zero_usage; messages = some xs }).messages
      ≡ some ms
    → xs ≡ ms
adopted false d xs ms h = cc
adopted true false xs ms h = cc
adopted true true xs ms h = cc

-- Whatever KeepLast makes of a transcript that ValidateMessages accepts, ValidateMessages accepts: with
-- any number of turns kept, before a turn or on an overflow, its result can be sent.
pub keep_last-validate_messages :
    (turns : ℕ) (at_tokens : ℤ) (input : CompactInput) (ms : List Message)
    → validate_messages input.messages ≡ ok tt
    → (keep_last turns at_tokens input).messages ≡ some ms
    → validate_messages ms ≡ ok tt
unfolding keep_last
keep_last-validate_messages turns at_tokens input ms valid result =
    let old = (validate_messages-Conversation input.messages).0 valid in
    let out = without_reasoning (kept (split input.messages turns) input.messages []) in
    let new = adopted (due input at_tokens) (drops (split input.messages turns)) out ms result in
    subst (λ xs. validate_messages xs ≡ ok tt) new
      ((validate_messages-Conversation out).1 (
        not_empty_kept input.messages [] turns old.0,
        without_reasoning-Conversation
            (kept-Conversation input.messages [] turns old.1 Conversation.done),
      ))

text_says : (s : String) → has_non_reasoning (text_part s ∷ []) ≡ true
unfolding has_non_reasoning
text_says s = refl

summarized :
    {W : Type 0} (acts drops_some fine empty : Bool) (xs ms : List Message) (e f : GoError)
    (w w' : W) (usage : Usage)
    → (let r : CompactResult × GoError × W =
          if not acts
          then (no_change, GoError.nil, w)
          else if not drops_some
          then (no_change, GoError.nil, w)
          else if not fine
          then (no_change, e, w')
          else if empty
          then (record { usage = usage; messages = none }, f, w')
          else (record { usage = usage; messages = some xs }, GoError.nil, w') in
        r.0.messages)
      ≡ some ms
    → xs ≡ ms
summarized false d g b xs ms e f w w' u h = cc
summarized true false g b xs ms e f w w' u h = cc
summarized true true false b xs ms e f w w' u h = cc
summarized true true true true xs ms e f w w' u h = cc
summarized true true true false xs ms e f w w' u h = cc

-- The message that carries a summary.
summary-Conversation : (s : String) → Conversation (user_text s ∷ [])
summary-Conversation s =
    Conversation.user_turn (user_text s) (record { says = non_reasoning; parts = (tt, tt) }) refl
      Conversation.done
  where
    non_reasoning : has_non_reasoning (text_part s ∷ []) ≡ true
    non_reasoning = text_says s

-- Whatever Summarize makes of a transcript that ValidateMessages accepts, whatever text its client
-- writes, ValidateMessages accepts.
pub summarize-validate_messages :
    {W : Type 0} (complete : ChatRequest → W → ChatResponse × GoError × W)
    (render : List Message → String) (trim : String → String) (cfg : SummarizeConfig)
    (input : CompactInput) (w : W) (ms : List Message)
    → validate_messages input.messages ≡ ok tt
    → (summarize complete render trim cfg input w).0.messages ≡ some ms
    → validate_messages ms ≡ ok tt
unfolding summarize
summarize-validate_messages complete render trim cfg input w ms valid result =
    let old = (validate_messages-Conversation input.messages).0 valid in
    let s = split input.messages cfg.keep_turns in
    let called = complete (summary_request complete render trim cfg (dropped s input.messages)) w in
    let text = append_text summary_header (trim called.0.text) in
    let out = without_reasoning (kept s input.messages (user_text text ∷ [])) in
    let new =
      summarized (due input cfg.at_tokens) (drops s) (is_nil called.1)
        (str_eq (trim called.0.text) "") out ms _ _ _ _ called.0.usage result in
    subst (λ xs. validate_messages xs ≡ ok tt) new
      ((validate_messages-Conversation out).1 (
        not_empty_kept input.messages (user_text text ∷ []) cfg.keep_turns old.0,
        without_reasoning-Conversation (
            kept-Conversation input.messages (user_text text ∷ []) cfg.keep_turns old.1
              (summary-Conversation text)),
      ))
