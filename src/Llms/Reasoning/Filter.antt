-- ===== src/Llms/Reasoning/Filter.antt =====
-- llms/reasoning.go: the filter as a map over the messages.
use maestro_llms.Base.{◌≡◌, refl, false, List, [], ◌∷◌, map, arith, ltb}
use maestro_llms.Llms.Message.{Message, ContentPart}
use maestro_llms.Llms.Reasoning.{Keep, kept_parts, drop_count, filter_from, filter_reasoning}

-- A message with its rejected reasoning parts taken out.
abbrev pub filter_message : Keep → Message → Message
filter_message keep m = record m { content = kept_parts keep m.content }

kept_parts_all :
    (keep : Keep) (ps : List ContentPart)
    → ltb 0 (drop_count keep ps) ≡ false
    → kept_parts keep ps ≡ ps
unfolding kept_parts drop_count
kept_parts_all keep [] h = refl
kept_parts_all keep (p ∷ ps) h = ground (arith, kept_parts_all keep ps)

filter_from-map :
    (keep : Keep) (ms : List Message) → filter_from keep ms ≡ map (filter_message keep) ms
unfolding filter_from
filter_from-map keep [] = refl
filter_from-map keep (m ∷ ms) =
    ground (arith, filter_from-map keep ms, kept_parts_all keep m.content)

pub filter_reasoning-map :
    (keep : Keep) (ms : List Message) → filter_reasoning keep ms ≡ map (filter_message keep) ms
unfolding filter_reasoning
filter_reasoning-map keep [] = refl
filter_reasoning-map keep (m ∷ ms) = ground (
  arith,
  filter_reasoning-map keep ms,
  filter_from-map keep (m ∷ ms),
  kept_parts_all keep m.content,
)
