-- ===== src/Providers/Anthropic/Markers.antt =====
-- llms/providers/anthropic/convert.go: the cache_control markers of a message's blocks.
use maestro_llms.Base.{
  ℕ, ◌+◌, ◌-◌, ◌≡◌, refl, subst, ◌∙◌, String, Bool, true, false, ◌&&◌, Option, none, some, List, [],
  ◌∷◌, ◌++◌, leb, ok, err, >>=-eq-ok, if◌then◌else◌, str_eq, arith, Bool-cases, Option-cases, inl,
  inr,
}
use maestro_llms.Llms.Message.{ContentPart, ContentPartType, Reasoning, is_text_type}
use maestro_llms.Providers.Requests.{BadRequest}
use maestro_llms.Providers.Anthropic.{
  Block, MessageParam, CacheBudget, Blocks, ThinkingCodec, ThinkingType, ThinkingWire, honor,
  add_other, add_text, add_part, add_parts, count_breakpoints, thinking_block_param, block_of_wire,
}

-- The cache_control markers of blocks, and of messages.
unfoldable pub marks : List Block → ℕ
marks [] = 0
marks (Block.text t cached ∷ bs) = (if cached then 1 else 0) + marks bs
marks (b ∷ bs) = marks bs

unfoldable pub message_marks : List MessageParam → ℕ
unfolding marks
message_marks [] = 0
message_marks (m ∷ ms) = marks m.content + message_marks ms

pub marks-append : (xs ys : List Block) → marks (xs ++ ys) ≡ marks xs + marks ys
unfolding marks
marks-append [] ys = omega arith
marks-append (Block.text t c ∷ xs) ys = ground (arith, marks-append xs ys)
marks-append (Block.tool_use i p n ∷ xs) ys = marks-append xs ys
marks-append (Block.tool_result i c e ∷ xs) ys = marks-append xs ys
marks-append (Block.thinking s t ∷ xs) ys = marks-append xs ys
marks-append (Block.redacted d ∷ xs) ys = marks-append xs ys

pub message_marks-append :
    (xs ys : List MessageParam) → message_marks (xs ++ ys) ≡ message_marks xs + message_marks ys
unfolding message_marks
message_marks-append [] ys = omega arith
message_marks-append (m ∷ xs) ys = omega (arith, message_marks-append xs ys)

abbrev pub system_marks : Option (String × Bool) → ℕ
system_marks none = 0
system_marks (some (t, cached)) = if cached then 1 else 0

-- The markers that a budget has let through.
unfoldable pub honored : CacheBudget → ℕ
honored b = b.seen - b.skip

-- What a conversion of parts with n marked texts does to the blocks.
pub record Advance (s s' : Blocks) (n : ℕ) : Type 0 where
  pub results : marks s'.results ≡ marks s.results
  pub others : marks s'.others + honored s.budget ≡ marks s.others + honored s'.budget
  pub skip : s'.budget.skip ≡ s.budget.skip
  pub seen : s'.budget.seen ≡ s.budget.seen + n

stays : (s : Blocks) → Advance s s 0
stays s = record { results = refl; others = refl; skip = refl; seen = omega arith }

then_more : (s t u : Blocks) (n m : ℕ) → Advance s t n → Advance t u m → Advance s u (n + m)
then_more s t u n m a b = record {
  results = b.results ∙ a.results;
  others = omega (arith, a.others, b.others);
  skip = b.skip ∙ a.skip;
  seen = omega (arith, a.seen, b.seen);
}

-- A further block without a marker.
plain : (b : Block) (s : Blocks) → marks (b ∷ []) ≡ 0 → Advance s (add_other b s) 0
plain b s h = record {
  results = refl;
  others = omega (arith, marks-append s.others (b ∷ []), h);
  skip = refl;
  seen = omega arith;
}

add_text-Advance :
    (t : String) (marked : Bool) (s : Blocks)
    → Advance s (add_text t marked s) (if marked then 1 else 0)
unfolding add_text honor honored marks
add_text-Advance t true s = record {
  results = refl;
  others =
      ground (arith, marks-append s.others (Block.text t (leb s.budget.skip s.budget.seen) ∷ []));
  skip = refl;
  seen = omega arith;
}
add_text-Advance t false s = plain (Block.text t false) s refl

-- Whether a part asks for a marker, as countContentBreakpoints counts it.
abbrev wants : ContentPart → ℕ
wants p = if is_text_type p.type && p.cache_breakpoint then 1 else 0

moved : (s t t' : Blocks) (n : ℕ) → t ≡ t' → Advance s t n → Advance s t' n
moved s t t' n e a = subst (λ u. Advance s u n) e a

module _ (codec : ThinkingCodec) where
  block_of_wire-marks :
      (ty : ThinkingType) (w : ThinkingWire) (b : Block)
      → block_of_wire codec ty w ≡ ok b
      → marks (b ∷ []) ≡ 0
  unfolding block_of_wire marks
  block_of_wire-marks ThinkingType.thinking w b h = elim (Bool-cases (str_eq w.signature "")) [
    | inl unsigned ↦ absurd (ground (arith, h, unsigned))
    | inr signed ↦
        let e : Block.thinking w.signature w.thinking ≡ b = ground (arith, h, signed) in
        subst (λ x. marks (x ∷ []) ≡ 0) e refl
  ]
  block_of_wire-marks ThinkingType.redacted_thinking w b h =
      elim (Bool-cases (str_eq w.data_text "")) [
        | inl bare ↦ absurd (ground (arith, h, bare))
        | inr full ↦
            let e : Block.redacted w.data_text ≡ b = ground (arith, h, full) in
            subst (λ x. marks (x ∷ []) ≡ 0) e refl
      ]
  block_of_wire-marks (ThinkingType.other t) w b h = absurd (ground (arith, h))

  decoded-marks :
      (o : Option ThinkingWire) (b : Block)
      → (elim o [
        | none ↦ err BadRequest.malformed_reasoning
        | some w ↦ block_of_wire codec w.type w
      ])
        ≡ ok b
      → marks (b ∷ []) ≡ 0
  decoded-marks none b h = absurd (ground (arith, h))
  decoded-marks (some w) b h = block_of_wire-marks w.type w b h

  thinking_block_param-marks :
      (r : Option Reasoning) (b : Block) → thinking_block_param codec r ≡ ok b → marks (b ∷ []) ≡ 0
  unfolding thinking_block_param
  thinking_block_param-marks none b h = absurd (ground (arith, h))
  thinking_block_param-marks (some r) b h = decoded-marks (codec.unmarshal r.provider_data) b h

  -- One part.
  add_part-Advance :
      (ty : ContentPartType) (p : ContentPart) (s s' : Blocks)
      → add_part codec ty p s ≡ ok s'
      → Advance s s' (if is_text_type ty && p.cache_breakpoint then 1 else 0)
  unfolding add_part marks
  add_part-Advance ContentPartType.text p s s' h = elim (Bool-cases (str_eq p.text "")) [
    | inl empty ↦ absurd (ground (arith, h, empty))
    | inr full ↦
        let e : add_text p.text p.cache_breakpoint s ≡ s' = ground (arith, h, full) in
        moved s _ s' _ e (add_text-Advance p.text p.cache_breakpoint s)
  ]
  add_part-Advance ContentPartType.tool_call p s s' h = elim (Option-cases p.tool_call) [
    | inl unset ↦ absurd (ground (arith, h, unset))
    | inr (c, set) ↦
        let e : add_other (Block.tool_use c.id c.parameters c.name) s ≡ s' =
          ground (arith, h, set) in
        moved s _ s' _ e (plain _ s refl)
  ]
  add_part-Advance ContentPartType.tool_result p s s' h = elim (Option-cases p.tool_result) [
    | inl unset ↦ absurd (ground (arith, h, unset))
    | inr (r, set) ↦
        let b = Block.tool_result r.tool_call_id r.content r.is_error in
        let e : record s { results = s.results ++ b ∷ [] } ≡ s' = ground (arith, h, set) in
        moved s _ s' _ e (record {
          results = marks-append s.results (b ∷ []) ∙ omega arith;
          others = refl;
          skip = refl;
          seen = omega arith;
        })
  ]
  add_part-Advance ContentPartType.reasoning p s s' h =
      let (b, made, e) = >>=-eq-ok (thinking_block_param codec p.reasoning) _ h in
      let same : add_other b s ≡ s' = cc in
      moved s _ s' _ same (plain b s (thinking_block_param-marks p.reasoning b made))
  add_part-Advance (ContentPartType.other t) p s s' h = absurd (ground (arith, h))

  pub add_parts-Advance :
      (ps : List ContentPart) (s s' : Blocks)
      → add_parts codec ps s ≡ ok s'
      → Advance s s' (count_breakpoints ps)
  unfolding add_parts count_breakpoints
  add_parts-Advance [] s s' h = let e : s ≡ s' = cc in subst (λ t. Advance s t 0) e (stays s)
  add_parts-Advance (p ∷ ps) s s' h =
      let (t, first, rest) = >>=-eq-ok (add_part codec p.type p s) _ h in
      then_more s t s' _ _ (add_part-Advance p.type p s t first) (add_parts-Advance ps t s' rest)
