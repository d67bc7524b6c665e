-- ===== src/Tests/MessageRuns.antt =====
-- llms: messages, usage and errors on concrete inputs.
use maestro_llms.Base.{◌≡◌, ◌≢◌, ◌↔◌, false, some, List, [], ◌∷◌, arith, ok}
use maestro_llms.Base.Int.{pos, ◌≤ℤ◌, ◌+ℤ◌, min_ℤ, max_int, clamp64}
use maestro_llms.Llms.Usage.{Usage, zero_usage}
use maestro_llms.Llms.Message.{Message, Role, ContentPart, ContentPartType, text_part, user_text}
use maestro_llms.Llms.Reasoning.{Keep}
use maestro_llms.Middleware.Validation.{validate_messages, validate_parts}
use maestro_llms.Middleware.Validation.Conversation.{LegalParts, Conversation}
use maestro_llms.Middleware.Validation.Legality.{validate_parts-LegalParts}
use maestro_llms.Middleware.Validation.Pairing.{validate_messages-Conversation}
use maestro_llms.Satint
use maestro_llms.Satint.Bounds.{add-clamp64}
use maestro_llms.Ratelimit.{effective_tokens}
use maestro_llms.Ratelimit.Charging.{UsageInRange, effective_tokens_bounds, owed}

abbrev thought : ContentPart
thought = record (text_part "") {
  type = ContentPartType.reasoning;
  reasoning = some (record { provider = "anthropic"; text = "hm"; provider_data = [] });
}

abbrev exchange : List Message
exchange =
    user_text "task"
    ∷ record { role = Role.assistant; content = thought ∷ text_part "done" ∷ [] }
    ∷ []

validate_messages-Conversation_example :
    (validate_messages exchange ≡ ok tt) ↔ ((exchange ≢ []) × Conversation exchange)
validate_messages-Conversation_example = validate_messages-Conversation exchange

validate_parts-LegalParts_example :
    (validate_parts 0 0 Role.assistant (thought ∷ []) ≡ ok tt)
    ↔ LegalParts Role.assistant (thought ∷ [])
validate_parts-LegalParts_example = validate_parts-LegalParts 0 0 Role.assistant (thought ∷ [])

abbrev drop_all : Keep
drop_all r = false

add-clamp64_example : Satint.add max_int (pos 1) ≡ clamp64 (max_int +ℤ pos 1)
add-clamp64_example =
    add-clamp64 max_int (pos 1) (omega arith, omega arith) (omega arith, omega arith)

-- Usage that reports a total and reasoning.
abbrev reported : Usage
reported = record zero_usage {
  input_tokens = pos 10;
  output_tokens = pos 20;
  reasoning_tokens = pos 30;
  total_tokens = pos 70;
}

pub reported-UsageInRange : UsageInRange reported
reported-UsageInRange = ground arith

effective_tokens_bounds_example :
    let charge = effective_tokens reported in
    (charge ≡ min_ℤ (owed reported) max_int)
    × (pos 0 ≤ℤ charge)
    × (charge ≤ℤ max_int)
    × (reported.total_tokens ≤ℤ charge)
    × (reported.input_tokens ≤ℤ charge)
    × (reported.embedding_tokens ≤ℤ charge)
    × (reported.billable_output_tokens ≤ℤ charge)
effective_tokens_bounds_example = effective_tokens_bounds reported reported-UsageInRange
