-- ===== src/Toolloop/Compact.antt =====
-- llms/toolloop/compact/compact.go: the cut rule and KeepLast. Indices into a transcript are numbers.
pub mod Breaks
pub mod Kept
pub mod Policy
use text.Mathlib.Text.{starts_with}
use maestro_llms.Base.{
  ℕ, zero, suc, ◌+◌, ◌-◌, String, Bool, true, false, not, ◌&&◌, ◌||◌, ◌==◌, ltb, leb, Option, none,
  some, List, [], ◌∷◌, ◌++◌, if◌then◌else◌, length, take, drop, is_empty, last?, str_eq,
  append_text,
}
use maestro_llms.Base.Int.{ℤ, pos, pos_part, ltb_ℤ, leb_ℤ, add64}
use maestro_llms.Llms.Errors.{GoError, is_nil}
use maestro_llms.Llms.Reasons.{CompactReason}
use maestro_llms.Llms.Usage.{Usage, zero_usage}
use maestro_llms.Llms.Message.{
  Message, ContentPart, ChatRequest, ChatResponse, ToolChoiceType, text_part, user_text, is_user,
  is_assistant, is_text_type,
}
use maestro_llms.Llms.Reasoning.{without_reasoning}
use maestro_llms.Toolloop.Types.{CompactInput, CompactResult}

-- `summaryHeader`, with its two line ends written out.
abbrev pub summary_header : String
summary_header =
    "Summary of the earlier part of this conversation (older turns were removed to fit the context window):\n\n"

abbrev one_summary : List ContentPart → Bool
one_summary (p ∷ []) = is_text_type p.type && starts_with p.text summary_header
one_summary _ = false

-- `isSummary`.
unfoldable pub is_summary : Message → Bool
is_summary m = is_user m.role && one_summary m.content

-- `due`.
unfoldable pub due : CompactInput → ℤ → Bool
unfolding add64
due input at_tokens = elim input.reason [
  | CompactReason.overflow ↦ true
  | CompactReason.before_turn ↦
      ltb_ℤ (pos 0) at_tokens
      && leb_ℤ at_tokens (add64 input.last_usage.input_tokens input.last_usage.output_tokens)
]

pub record Span : Type 0 where
  pub head : ℕ
  pub pin : ℕ
  pub pin_end : ℕ
  pub cut : ℕ

-- `span.drops`, for a head up to the cut and a pin up to its end.
unfoldable pub drops : Span → Bool
drops s = ltb (s.pin_end - s.pin) (s.cut - s.head)

-- `msgs[i:j]`.
abbrev pub slice : ℕ → ℕ → List Message → List Message
slice i j msgs = take (j - i) (drop i msgs)

-- `span.dropped` and `span.kept`.
unfoldable pub dropped : Span → List Message → List Message
dropped s msgs = slice s.head s.pin msgs ++ slice s.pin_end s.cut msgs

unfoldable pub kept : Span → List Message → List Message → List Message
kept s msgs insert = take s.head msgs ++ (insert ++ (slice s.pin s.pin_end msgs ++ drop s.cut msgs))

-- The first loop of `split`: behind the first user message, or the end.
unfoldable pub head_of : List Message → ℕ
head_of [] = 0
head_of (m ∷ ms) = if is_user m.role then 1 else suc (head_of ms)

-- `test(&msgs[i])`.
abbrev pub test_at : (Message → Bool) → ℕ → List Message → Bool
test_at test i [] = false
test_at test zero (m ∷ ms) = test m
test_at test (suc i) (m ∷ ms) = test_at test i ms

-- The loops that step back from `i`, not past `head`, while the message before passes a test.
unfoldable pub back : (Message → Bool) → List Message → ℕ → ℕ → ℕ
back test msgs head zero = 0
back test msgs head (suc i) =
    let before = back test msgs head i in
    if leb (suc i) head then suc i else if test_at test i msgs then before else suc i

-- The loop that collects `starts`, over the messages from index `i` on.
unfoldable pub starts_from : List Message → ℕ → ℕ → List Message → List ℕ
unfolding back
starts_from msgs head i [] = []
starts_from msgs head i (m ∷ ms) =
    let rest = starts_from msgs head (suc i) ms in
    if is_assistant m.role then back (λ n. is_user n.role) msgs head i ∷ rest else rest

-- `starts[n]`; out of range does not happen.
abbrev pub nth : ℕ → List ℕ → ℕ
nth n [] = 0
nth zero (x ∷ xs) = x
nth (suc n) (x ∷ xs) = nth n xs

-- The `cut` of `split`.
unfoldable pub cut_of : List Message → ℕ → ℕ → ℕ
unfolding starts_from
cut_of msgs head keep =
    let starts = starts_from msgs head head (drop head msgs) in
    if ltb 0 keep && leb (length starts) keep
    then head
    else if ltb 0 keep
    then nth (length starts - keep) starts
    else back (λ n. is_user n.role) msgs head (length msgs)

-- The tests of the two loops of `inFlightPrompt`.
abbrev pub prompt : Message → Bool
prompt m = is_user m.role && not (is_summary m)

abbrev pub ends_with_assistant : List Message → Bool
ends_with_assistant [] = true
ends_with_assistant (m ∷ []) = is_assistant m.role
ends_with_assistant (m ∷ n ∷ ms) = ends_with_assistant (n ∷ ms)

-- `inFlightPrompt`: the pin and its end.
unfoldable pub in_flight_prompt : List Message → ℕ → ℕ × ℕ
unfolding back
in_flight_prompt msgs head =
    let end = back (λ m. not (prompt m)) msgs head (length msgs) in
    if ends_with_assistant msgs then (head, head) else (back prompt msgs head end, end)

-- `split`.
unfoldable pub split : List Message → ℕ → Span
unfolding cut_of in_flight_prompt
split msgs keep =
    let head = head_of msgs in
    let cut = cut_of msgs head keep in
    let (pin, end) = in_flight_prompt msgs head in
    if ltb pin end && leb end cut
    then record { head = head; pin = pin; pin_end = end; cut = cut }
    else record { head = head; pin = cut; pin_end = cut; cut = cut }

-- No change.
abbrev pub no_change : CompactResult
no_change = record { usage = zero_usage; messages = none }

-- The Compactor that `KeepLast` returns for a config it accepts.
unfoldable pub keep_last : ℕ → ℤ → CompactInput → CompactResult
unfolding due drops kept split
keep_last turns at_tokens input =
    let s = split input.messages turns in
    if not (due input at_tokens) then no_change else if not (drops s) then no_change else record {
      usage = zero_usage;
      messages = some (without_reasoning (kept s input.messages []));
    }

pub record KeepLastConfig : Type 0 where
  pub turns : ℤ
  pub at_tokens : ℤ

-- `KeepLast`: none for a negative field.
unfoldable pub new_keep_last : KeepLastConfig → Option (CompactInput → CompactResult)
new_keep_last cfg =
    if ltb_ℤ cfg.turns (pos 0) || ltb_ℤ cfg.at_tokens (pos 0)
    then none
    else some (keep_last (pos_part cfg.turns) cfg.at_tokens)

-- `SummarizeConfig` behind the checks and defaults of `Summarize`.
pub record SummarizeConfig : Type 0 where
  pub prompt : String
  pub purpose : String
  pub keep_turns : ℕ
  pub at_tokens : ℤ
  pub max_tokens : ℤ

module _ {W : Type 0} (complete : ChatRequest → W → ChatResponse × GoError × W)
    (render : List Message → String) (trim : String → String) where
  -- The request of the summarizer.
  pub summary_request : SummarizeConfig → List Message → ChatRequest
  summary_request cfg old = record {
    system = text_part cfg.prompt ∷ [];
    messages = user_text (render old) ∷ [];
    tools = [];
    tool_choice = record { type = ToolChoiceType.unset; name = "" };
    purpose = cfg.purpose;
    max_tokens = cfg.max_tokens;
  }

  -- The Compactor that `Summarize` returns, with `render` and strings.TrimSpace as arguments.
  unfoldable pub summarize : SummarizeConfig → CompactInput → W → CompactResult × GoError × W
  unfolding due drops dropped kept split summary_request
  summarize cfg input w =
      let s = split input.messages cfg.keep_turns in
      let (resp, e, w') = complete (summary_request cfg (dropped s input.messages)) w in
      let summary = trim resp.text in
      let out = kept s input.messages (user_text (append_text summary_header summary) ∷ []) in
      if not (due input cfg.at_tokens)
      then (no_change, GoError.nil, w)
      else if not (drops s)
      then (no_change, GoError.nil, w)
      else if not (is_nil e)
      then (no_change, GoError.errorf "compact: summarizer: " e, w')
      else if str_eq summary ""
      then (
        record { usage = resp.usage; messages = none },
        GoError.opaque "compact: summarizer returned no text" GoError.nil,
        w',
      )
      else (record { usage = resp.usage; messages = some (without_reasoning out) }, GoError.nil, w')
