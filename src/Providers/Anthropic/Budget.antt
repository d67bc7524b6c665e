-- ===== src/Providers/Anthropic/Budget.antt =====
-- llms/providers/anthropic/convert.go: a request holds at most four cache_control markers.
use maestro_llms.Base.{
  ◌&&◌, ℕ, ◌+◌, ◌-◌, ◌≤◌, ◌≡◌, refl, sym, ap, subst, ◌∙◌, String, Bool, true, false, Option, none,
  some, List, [], ◌∷◌, ◌++◌, map, ok, >>=-eq-ok, if◌then◌else◌, str_eq, arith, Bool-cases, inl, inr,
  ◌⊎◌, ltb,
}
use maestro_llms.Llms.Message.{Role, ContentPart, Message, ChatRequest, Bytes, is_text_type}
use maestro_llms.Llms.Reasoning.{reasoning_from, from_provider, Keep, kept_parts}
use maestro_llms.Llms.Reasoning.Filter.{filter_message, filter_reasoning-map}
use maestro_llms.Providers.Json.{Json}
use maestro_llms.Providers.Anthropic.{
  Block, MessageParam, Side, Blocks, Building, ThinkingCodec, blocks_for_parts, add_turn,
  add_message, add_messages, flush, has_reply, count_breakpoints, count_content_breakpoints,
  system_has_breakpoint, max_cache_breakpoints, system_text,
}
use maestro_llms.Providers.Anthropic.Params.{
  Params, starts_with_user, tool_choice, build_tools, build_messages, skipped, to_params,
}
use maestro_llms.Providers.Anthropic.Markers.{
  marks, message_marks, marks-append, message_marks-append, system_marks, honored, Advance,
  add_parts-Advance,
}

-- The parts that ask for a marker, counted without the code's loops.
abbrev pub count_if : (ContentPart → Bool) → List ContentPart → ℕ
count_if test [] = 0
count_if test (p ∷ ps) = (if test p then 1 else 0) + count_if test ps

abbrev pub asks : ContentPart → Bool
asks p = p.cache_breakpoint

abbrev pub asks_by_text : ContentPart → Bool
asks_by_text p = p.cache_breakpoint && is_text_type p.type

abbrev pub every_part : List Message → List ContentPart
every_part [] = []
every_part (m ∷ ms) = m.content ++ every_part ms

count_if-append :
    (test : ContentPart → Bool) (ps qs : List ContentPart)
    → count_if test (ps ++ qs) ≡ count_if test ps + count_if test qs
count_if-append test [] qs = omega arith
count_if-append test (p ∷ ps) qs = omega (arith, count_if-append test ps qs)

count_breakpoints-count_if :
    (ps : List ContentPart) → count_breakpoints ps ≡ count_if asks_by_text ps
unfolding count_breakpoints
count_breakpoints-count_if [] = refl
count_breakpoints-count_if (p ∷ ps) = ground (arith, count_breakpoints-count_if ps)

breakpoints_asked :
    (ms : List Message) → count_content_breakpoints ms ≡ count_if asks_by_text (every_part ms)
unfolding count_content_breakpoints
breakpoints_asked [] = refl
breakpoints_asked (m ∷ ms) = omega (
  arith,
  count_if-append asks_by_text m.content (every_part ms),
  count_breakpoints-count_if m.content,
  breakpoints_asked ms,
)

system_asked : (ps : List ContentPart) → system_has_breakpoint ps ≡ ltb 0 (count_if asks ps)
unfolding system_has_breakpoint
system_asked [] = refl
system_asked (p ∷ ps) = ground (arith, system_asked ps)

-- The markers of a request in the making.
total : Building → ℕ
total s = message_marks s.out + marks s.user_buf

record Grow (s s' : Building) (n : ℕ) : Type 0 where
  markers : total s' + honored s.budget ≡ total s + honored s'.budget
  skip : s'.budget.skip ≡ s.budget.skip
  seen : s'.budget.seen ≡ s.budget.seen + n

flush-total : (s : Building) → message_marks (flush s).out ≡ total s
unfolding flush total marks message_marks
flush-total s = go s.user_buf refl
  where
    go :
        (buf : List Block)
        → s.user_buf ≡ buf
        → message_marks (flush s).out ≡ message_marks s.out + marks s.user_buf
    go [] e = rw (e, flush) (omega arith)
    go (b ∷ bs) e =
        rw (e, flush)
          (omega (
            arith,
            message_marks-append s.out (record { role = Side.user; content = b ∷ bs } ∷ []),
          ))

flush-buffer : (s : Building) → marks (flush s).user_buf ≡ 0
unfolding flush marks
flush-buffer s = go s.user_buf refl
  where
    go : (buf : List Block) → s.user_buf ≡ buf → marks (flush s).user_buf ≡ 0
    go [] e = rw (e, flush) refl
    go (b ∷ bs) e = rw (e, flush) refl

module _ (codec : ThinkingCodec) where
  user_turn-Grow :
      (bs : Blocks) (s : Building) (n : ℕ)
      → Advance (record { results = []; others = []; budget = s.budget }) bs n
      → Grow s
          (record s { user_buf = s.user_buf ++ (bs.results ++ bs.others); budget = bs.budget })
          n
  unfolding total marks
  user_turn-Grow bs s n a = record {
    markers = omega (
      arith,
      marks-append s.user_buf (bs.results ++ bs.others),
      marks-append bs.results bs.others,
      a.results,
      a.others,
    );
    skip = a.skip;
    seen = a.seen;
  }

  assistant_turn-Grow :
      (bs : Blocks) (s : Building) (n : ℕ)
      → Advance (record { results = []; others = []; budget = s.budget }) bs n
      → let m : MessageParam = record { role = Side.assistant; content = bs.others } in
        Grow s (record (flush s) { out = (flush s).out ++ m ∷ []; budget = bs.budget }) n
  unfolding total marks message_marks
  assistant_turn-Grow bs s n a =
      let m : MessageParam = record { role = Side.assistant; content = bs.others } in
      record {
        markers = omega (
          arith,
          message_marks-append (flush s).out (m ∷ []),
          flush-total s,
          flush-buffer s,
          a.others,
        );
        skip = a.skip;
        seen = a.seen;
      }

  add_turn-Grow :
      (role : Role) (parts : List ContentPart) (bs : Blocks) (s s' : Building) (n : ℕ)
      → Advance (record { results = []; others = []; budget = s.budget }) bs n
      → add_turn codec role parts bs s ≡ ok s'
      → Grow s s' n
  unfolding add_turn total message_marks marks
  add_turn-Grow Role.user parts bs s s' n a h =
      subst (λ t. Grow s t n) (ground (arith, h)) (user_turn-Grow bs s n a)
  add_turn-Grow Role.tool parts bs s s' n a h =
      subst (λ t. Grow s t n) (ground (arith, h)) (user_turn-Grow bs s n a)
  add_turn-Grow Role.assistant parts bs s s' n a h = elim (Bool-cases (has_reply parts)) [
    | inl says ↦ subst (λ t. Grow s t n) (ground (arith, h, says)) (assistant_turn-Grow bs s n a)
    | inr silent ↦ absurd (ground (arith, h, silent))
  ]
  add_turn-Grow (Role.other r) parts bs s s' n a h = absurd (ground (arith, h))

  add_messages-Grow :
      (ms : List Message) (s s' : Building)
      → add_messages codec ms s ≡ ok s'
      → Grow s s' (count_content_breakpoints ms)
  unfolding add_messages add_message blocks_for_parts count_content_breakpoints
  add_messages-Grow [] s s' h =
      let e : s ≡ s' = cc in
      subst (λ t. Grow s t 0) e (record { markers = refl; skip = refl; seen = omega arith })
  add_messages-Grow (m ∷ ms) s s' h =
      let (t, first, rest) = >>=-eq-ok (add_message codec m s) _ h in
      let (bs, parts, turn) = >>=-eq-ok (blocks_for_parts codec m.content s.budget) _ first in
      let a =
        add_turn-Grow m.role m.content bs s t _ (add_parts-Advance codec m.content _ bs parts)
          turn in
      let b = add_messages-Grow ms t s' rest in
      record {
        markers = omega (arith, a.markers, b.markers);
        skip = b.skip ∙ a.skip;
        seen = omega (arith, a.seen, b.seen);
      }

count-kept_parts :
    (keep : Keep) (ps : List ContentPart)
    → count_breakpoints (kept_parts keep ps) ≡ count_breakpoints ps
unfolding kept_parts count_breakpoints
count-kept_parts keep [] = refl
count-kept_parts keep (p ∷ ps) = ground (arith, count-kept_parts keep ps)

count-filter_message :
    (keep : Keep) (ms : List Message)
    → count_content_breakpoints (map (filter_message keep) ms) ≡ count_content_breakpoints ms
unfolding count_content_breakpoints
count-filter_message keep [] = refl
count-filter_message keep (m ∷ ms) =
    omega (arith, count-kept_parts keep m.content, count-filter_message keep ms)

count-reasoning_from :
    (provider : String) (ms : List Message)
    → count_content_breakpoints (reasoning_from provider ms) ≡ count_content_breakpoints ms
unfolding reasoning_from
count-reasoning_from provider ms =
    rw (filter_reasoning-map (from_provider provider) ms) (count-filter_message _ ms)

module _ (codec : ThinkingCodec) where
  -- The messages that buildMessages makes hold the markers that the budget lets through.
  build_messages-marks :
      (ms : List Message) (skip : ℕ) (out : List MessageParam)
      → build_messages codec ms (record { skip = skip; seen = 0 }) ≡ ok out
      → message_marks out ≡ count_content_breakpoints ms - skip
  unfolding build_messages total honored message_marks marks
  build_messages-marks ms skip out h =
      let start : Building = record {
        out = [];
        user_buf = [];
        budget = record { skip = skip; seen = 0 };
      } in
      let (s, built, rest) =
        >>=-eq-ok (add_messages codec (reasoning_from "anthropic" ms) start) _ h in
      let g = add_messages-Grow codec (reasoning_from "anthropic" ms) start s built in
      let (done, first, e) = >>=-eq-ok (starts_with_user (flush s).out) _ rest in
      let same : (flush s).out ≡ out = cc in
      ap message_marks (sym same)
      ∙ omega (arith, flush-total s, g.markers, g.skip, g.seen, count-reasoning_from "anthropic" ms)

  system_marks_bound :
      (sys : String) (marked : Bool)
      → system_marks (if str_eq sys "" then none else some (sys, marked))
        ≤ (if marked then 1 else 0)
  system_marks_bound sys marked = ground arith

  system_marks_exact :
      (sys : String) (marked : Bool)
      → let system : Option (String × Bool) = if str_eq sys "" then none else some (sys, marked) in
        (system ≡ none) ⊎ (system_marks system ≡ (if marked then 1 else 0))
  system_marks_exact sys marked = elim (Bool-cases (str_eq sys "")) [
    | inl silent ↦ rw silent (inl refl)
    | inr says ↦ rw says (inr (ground arith))
  ]

  up_to_room :
      (n : ℕ) (marked : Bool)
      → let room : ℕ = if marked then 3 else 4 in
        n - (n - (if marked then max_cache_breakpoints - 1 else max_cache_breakpoints))
        ≡ (if ltb n room then n else room)
  up_to_room n true = ground arith
  up_to_room n false = ground arith

  within_four :
      (n k : ℕ) (marked : Bool)
      → k ≤ (if marked then 1 else 0)
      → n - (n - (if marked then max_cache_breakpoints - 1 else max_cache_breakpoints)) + k ≤ 4
  within_four n k true h = omega (arith, h)
  within_four n k false h = omega (arith, h)

  module _ (parse : Bytes → Option Json) where
    -- A request that is converted holds one marker for each text part that asks for one, up to four, or up
    -- to three where the system prompt asks for one too. A system prompt that is sent has its marker
    -- just where a system part asks for one, and there are never more than four in all.
    pub to_params-marks :
        (model : String) (req : ChatRequest) (params : Params)
        → to_params codec parse model req ≡ ok params
        → let system_asks = ltb 0 (count_if asks req.system) in
          let room : ℕ = if system_asks then 3 else 4 in
          let asked = count_if asks_by_text (every_part req.messages) in
          (message_marks params.messages ≡ (if ltb asked room then asked else room))
          × ((params.system ≡ none) ⊎ (system_marks params.system ≡ (if system_asks then 1 else 0)))
          × (message_marks params.messages + system_marks params.system ≤ 4)
    unfolding to_params skipped
    to_params-marks model req params h =
        let (sys, texts, h1) = >>=-eq-ok (system_text req.system) _ h in
        let (msgs, built, h2) = >>=-eq-ok (build_messages codec req.messages _) _ h1 in
        let (tools, made, h3) = >>=-eq-ok (build_tools codec parse req.tools) _ h2 in
        let (choice, chosen, e) = >>=-eq-ok (tool_choice req.tool_choice req.tools) _ h3 in
        let same : params.messages ≡ msgs = ground (arith, e) in
        let system : params.system
            ≡ (if str_eq sys "" then none else some (sys, system_has_breakpoint req.system)) =
          cc in
        let count = ap message_marks same ∙ build_messages-marks req.messages _ msgs built in
        (
          rw (sym (breakpoints_asked req.messages), sym (system_asked req.system))
              (count
                ∙ up_to_room (count_content_breakpoints req.messages)
                    (system_has_breakpoint req.system)),
          rw (system, sym (system_asked req.system))
              (system_marks_exact sys (system_has_breakpoint req.system)),
          rw (count, system)
              (within_four (count_content_breakpoints req.messages) _
                (system_has_breakpoint req.system)
                (system_marks_bound sys (system_has_breakpoint req.system))),
        )
