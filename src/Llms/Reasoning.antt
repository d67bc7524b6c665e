-- ===== src/Llms/Reasoning.antt =====
-- llms/reasoning.go: removing reasoning parts from a transcript.
pub mod Filter
use maestro_llms.Base.{
  ℕ, zero, suc, ◌+◌, String, Bool, true, false, not, ◌&&◌, ◌||◌, Option, none, some, List, [], ◌∷◌,
  ltb, if◌then◌else◌, str_eq,
}
use maestro_llms.Llms.Message.{ContentPart, ContentPartType, Message, Reasoning, is_reasoning_type}

-- The test that `filterReasoning` is given is on a `*Reasoning`.
abbrev pub Keep : Type 0
Keep = Option Reasoning → Bool

-- The parts that the copying loop of `filterReasoning` appends.
unfoldable pub kept_parts : Keep → List ContentPart → List ContentPart
kept_parts keep [] = []
kept_parts keep (p ∷ ps) =
    let rest = kept_parts keep ps in
    if not (is_reasoning_type p.type) || keep p.reasoning then p ∷ rest else rest

-- `dropCount`.
unfoldable pub drop_count : Keep → List ContentPart → ℕ
drop_count keep [] = 0
drop_count keep (p ∷ ps) =
    let rest = drop_count keep ps in
    if is_reasoning_type p.type && not (keep p.reasoning) then suc rest else rest

-- The loop from the first message that changes on: a message that loses nothing is taken as it is.
unfoldable pub filter_from : Keep → List Message → List Message
unfolding drop_count kept_parts
filter_from keep [] = []
filter_from keep (m ∷ ms) =
    let rest = filter_from keep ms in
    if ltb 0 (drop_count keep m.content)
    then record m { content = kept_parts keep m.content } ∷ rest
    else m ∷ rest

-- `filterReasoning`: what stands before the first change is copied.
unfoldable pub filter_reasoning : Keep → List Message → List Message
unfolding filter_from drop_count
filter_reasoning keep [] = []
filter_reasoning keep (m ∷ ms) =
    let rest = filter_reasoning keep ms in
    if ltb 0 (drop_count keep m.content) then filter_from keep (m ∷ ms) else m ∷ rest

abbrev pub from_provider : String → Keep
from_provider p none = false
from_provider p (some r) = str_eq r.provider p

-- `ReasoningFrom`.
unfoldable pub reasoning_from : String → List Message → List Message
unfolding filter_reasoning
reasoning_from p = filter_reasoning (from_provider p)

-- `WithoutReasoning`.
unfoldable pub without_reasoning : List Message → List Message
unfolding filter_reasoning
without_reasoning = filter_reasoning (λ _. false)
