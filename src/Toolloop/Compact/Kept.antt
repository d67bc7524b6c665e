-- ===== src/Toolloop/Compact/Kept.antt =====
-- llms/toolloop/compact/compact.go: what is kept of a conversation is a conversation.
use maestro_llms.Base.{
  ℕ, zero, suc, ◌+◌, ◌-◌, ◌≤◌, ◌≡◌, refl, sym, ap, ◌∙◌, subst, Bool, true, false, not, ◌&&◌, ltb,
  leb, List, [], ◌∷◌, ◌++◌, arith, length, take, drop, Bool-cases, inl, inr, if◌then◌else◌,
}
use maestro_llms.Llms.Message.{Message, is_user, is_tool, is_assistant}
use maestro_llms.Middleware.Validation.Conversation.{
  Conversation, Conversation-append, Legal, ToolTurns,
}
use maestro_llms.Toolloop.Compact.{
  Span, head_of, back, test_at, starts_from, nth, cut_of, prompt, in_flight_prompt,
  ends_with_assistant, split, kept, slice,
}
use maestro_llms.Toolloop.Compact.Breaks.{breaks, breaks_end, breaks-Cuts}

users : Message → Bool
users m = is_user m.role

head_breaks : (b : Bool) (ms : List Message) → breaks b (head_of ms) ms ≡ true
unfolding head_of
head_breaks b [] = refl
head_breaks b (m ∷ ms) = elim (Bool-cases (is_user m.role)) [
  | inl user ↦ rw user (subst (λ q. breaks q 0 ms ≡ true) (sym user) (breaks_start ms))
  | inr other ↦ rw other (head_breaks (is_user m.role) ms)
]
  where
    breaks_start : (xs : List Message) → breaks true 0 xs ≡ true
    breaks_start [] = refl
    breaks_start (x ∷ xs) = refl

user_breaks :
    (b : Bool) (i : ℕ) (ms : List Message)
    → test_at (λ n. is_user n.role) i ms ≡ true
    → breaks b i ms ≡ true
user_breaks b i [] h = cc
user_breaks b zero (m ∷ ms) h = ground (arith, h)
user_breaks b (suc i) (m ∷ ms) h = user_breaks (is_user m.role) i ms h

back-breaks :
    (ms : List Message) (head i : ℕ)
    → breaks true i ms ≡ true
    → breaks true (back (λ n. is_user n.role) ms head i) ms ≡ true
unfolding back
back-breaks ms head zero h = h
back-breaks ms head (suc i) h = elim (Bool-cases (leb (suc i) head)) [
  | inl stop ↦ rw stop h
  | inr more ↦ elim (Bool-cases (test_at (λ n. is_user n.role) i ms)) [
    | inl user ↦ rw more (rw user (back-breaks ms head i (user_breaks true i ms user)))
    | inr other ↦ rw more (rw other h)
  ]
]

-- The message at an index, and what follows it.
same_first : {x m : Message} {xs rest : List Message} → x ∷ xs ≡ m ∷ rest → x ≡ m
same_first e = cc

at_breaks :
    (b : Bool) (i : ℕ) (msgs : List Message) {m : Message} {rest : List Message}
    → drop i msgs ≡ m ∷ rest
    → is_tool m.role ≡ false
    → breaks b i msgs ≡ true
at_breaks b i [] e h = refl
at_breaks b zero (x ∷ xs) e h =
    ground (arith, subst (λ z. is_tool z.role ≡ false) (sym (same_first e)) h)
at_breaks b (suc i) (x ∷ xs) e h = at_breaks (is_user x.role) i xs e h

drop_next :
    (i : ℕ) (msgs : List Message) {m : Message} {rest : List Message}
    → drop i msgs ≡ m ∷ rest
    → drop (suc i) msgs ≡ rest
drop_next zero [] e = cc
drop_next zero (x ∷ xs) e = cc
drop_next (suc i) [] e = cc
drop_next (suc i) (x ∷ xs) e = drop_next i xs e

abbrev AllBreak : List Message → List ℕ → Type 0
AllBreak msgs [] = Unit
AllBreak msgs (i ∷ is) = (breaks true i msgs ≡ true) × AllBreak msgs is

starts_break :
    (msgs : List Message) (head i : ℕ) (suffix : List Message)
    → drop i msgs ≡ suffix
    → AllBreak msgs (starts_from msgs head i suffix)
unfolding starts_from
starts_break msgs head i [] e = tt
starts_break msgs head i (m ∷ ms) e =
    let rest = starts_break msgs head (suc i) ms (drop_next i msgs e) in
    elim (Bool-cases (is_assistant m.role)) [
      | inl assistant ↦
          rw assistant (back-breaks msgs head i (at_breaks true i msgs e (ground arith)), rest)
      | inr other ↦ rw other rest
    ]

zero_breaks : (msgs : List Message) → breaks true 0 msgs ≡ true
zero_breaks [] = refl
zero_breaks (m ∷ ms) = refl

nth-breaks :
    (msgs : List Message) (n : ℕ) (is : List ℕ)
    → AllBreak msgs is
    → breaks true (nth n is) msgs ≡ true
nth-breaks msgs n [] h = zero_breaks msgs
nth-breaks msgs zero (i ∷ is) h = h.0
nth-breaks msgs (suc n) (i ∷ is) h = nth-breaks msgs n is h.1

either_breaks :
    (msgs : List Message) (b : Bool) (i j : ℕ)
    → breaks true i msgs ≡ true
    → breaks true j msgs ≡ true
    → breaks true (if b then i else j) msgs ≡ true
either_breaks msgs true i j hi hj = hi
either_breaks msgs false i j hi hj = hj

cut_breaks :
    (msgs : List Message) (keep : ℕ) → breaks true (cut_of msgs (head_of msgs) keep) msgs ≡ true
unfolding cut_of
cut_breaks msgs keep =
    let head = head_of msgs in
    let starts = starts_from msgs head head (drop head msgs) in
    either_breaks msgs (ltb 0 keep && leb (length starts) keep) head _ (head_breaks true msgs) (
      either_breaks msgs (ltb 0 keep) _ _
        (nth-breaks msgs _ starts (starts_break msgs head head (drop head msgs) refl))
        (back-breaks msgs head (length msgs) (breaks_end true msgs)))

-- Every message of a list passes a test.
abbrev All : (Message → Bool) → List Message → Type 0
All test [] = Unit
All test (m ∷ ms) = (test m ≡ true) × All test ms

All-snoc :
    (test : Message → Bool) (n : ℕ) (ms : List Message)
    → All test (take n ms)
    → test_at test n ms ≡ true
    → All test (take (suc n) ms)
All-snoc test n [] h t = tt
All-snoc test zero (m ∷ ms) h t = (t, tt)
All-snoc test (suc n) (m ∷ ms) h t = (h.0, All-snoc test n ms h.1 t)

test_at-drop :
    (test : Message → Bool) (r n : ℕ) (ms : List Message)
    → test_at test n (drop r ms) ≡ test_at test (r + n) ms
test_at-drop test zero n ms = let e : n ≡ 0 + n = omega arith in ap (λ k. test_at test k ms) e
test_at-drop test (suc r) n [] = refl
test_at-drop test (suc r) n (m ∷ ms) =
    let e : suc (r + n) ≡ suc r + n = omega arith in
    test_at-drop test r n ms ∙ ap (λ k. test_at test k (m ∷ ms)) e

back_le : (test : Message → Bool) (ms : List Message) (head i : ℕ) → back test ms head i ≤ i
unfolding back
back_le test ms head zero = omega arith
back_le test ms head (suc i) = ground (arith, back_le test ms head i)

nothing : (test : Message → Bool) (i : ℕ) (ms : List Message) → All test (slice (suc i) (suc i) ms)
nothing test i ms =
    let e : 0 ≡ suc i - suc i = omega arith in subst (λ k. All test (take k (drop (suc i) ms))) e tt

stepped :
    (test : Message → Bool) (ms : List Message) (i r : ℕ)
    → r ≤ i
    → All test (slice r i ms)
    → test_at test i ms ≡ true
    → All test (slice r (suc i) ms)
stepped test ms i r le h passes =
    let e : suc (i - r) ≡ suc i - r = omega arith in
    let f : r + (i - r) ≡ i = omega arith in
    subst (λ k. All test (take k (drop r ms))) e
      (All-snoc test (i - r) (drop r ms) h
        (test_at-drop test r (i - r) ms ∙ ap (λ k. test_at test k ms) f ∙ passes))

-- The messages that `back` steps over pass the test.
back-All :
    (test : Message → Bool) (ms : List Message) (head i : ℕ)
    → All test (slice (back test ms head i) i ms)
unfolding back
back-All test ms head zero = tt
back-All test ms head (suc i) = elim (Bool-cases (leb (suc i) head)) [
  | inl stop ↦ rw stop (nothing test i ms)
  | inr more ↦ elim (Bool-cases (test_at test i ms)) [
    | inl passes ↦ rw more (
        rw passes (
          stepped test ms i (back test ms head i) (back_le test ms head i) (back-All test ms head i)
            passes))
    | inr fails ↦ rw more (rw fails (nothing test i ms))
  ]
]

abbrev AllLegal : List Message → Type 0
AllLegal [] = Unit
AllLegal (m ∷ ms) = Legal m × AllLegal ms

legal_tools : (ts rest : List Message) → ToolTurns ts → AllLegal rest → AllLegal (ts ++ rest)
legal_tools [] rest h l = l
legal_tools (t ∷ ts) rest h l = (h.0.legal, legal_tools ts rest h.1 l)

Conversation-AllLegal : {ms : List Message} → Conversation ms → AllLegal ms
Conversation-AllLegal Conversation.done = tt
Conversation-AllLegal (Conversation.user_turn m l r c) = (l, Conversation-AllLegal c)
Conversation-AllLegal (Conversation.assistant_turn m ts rest l r d tools same c e) =
    (l, subst AllLegal (sym e) (legal_tools ts rest tools (Conversation-AllLegal c)))

AllLegal-take : (n : ℕ) (ms : List Message) → AllLegal ms → AllLegal (take n ms)
AllLegal-take zero ms h = tt
AllLegal-take (suc n) [] h = tt
AllLegal-take (suc n) (m ∷ ms) h = (h.0, AllLegal-take n ms h.1)

AllLegal-drop : (n : ℕ) (ms : List Message) → AllLegal ms → AllLegal (drop n ms)
AllLegal-drop zero ms h = h
AllLegal-drop (suc n) [] h = tt
AllLegal-drop (suc n) (m ∷ ms) h = AllLegal-drop n ms h.1

prompts-Conversation : (ms : List Message) → AllLegal ms → All prompt ms → Conversation ms
prompts-Conversation [] l h = Conversation.done
prompts-Conversation (m ∷ ms) l h =
    Conversation.user_turn m l.0 (ground (arith, h.0)) (prompts-Conversation ms l.1 h.1)

either_branch :
    {A : Type 0} (P : A → Type 0) (b : Bool) (x y : A) → P x → P y → P (if b then x else y)
either_branch P true x y hx hy = hx
either_branch P false x y hx hy = hy

empty-Conversation : (i : ℕ) (ms : List Message) → Conversation (slice i i ms)
empty-Conversation i ms =
    let e : 0 ≡ i - i = omega arith in
    subst (λ k. Conversation (take k (drop i ms))) e Conversation.done

in_flight-Conversation :
    (msgs : List Message) (head : ℕ)
    → Conversation msgs
    → Conversation (slice (in_flight_prompt msgs head).0 (in_flight_prompt msgs head).1 msgs)
unfolding in_flight_prompt
in_flight-Conversation msgs head c =
    let end = back (λ m. not (prompt m)) msgs head (length msgs) in
    let pin = back prompt msgs head end in
    either_branch (λ (p : ℕ × ℕ). Conversation (slice p.0 p.1 msgs)) (ends_with_assistant msgs) _ _
      (empty-Conversation head msgs)
      (prompts-Conversation (slice pin end msgs)
        (AllLegal-take (end - pin) _ (AllLegal-drop pin msgs (Conversation-AllLegal c)))
        (back-All prompt msgs head end))

pub split-head_of : (msgs : List Message) (keep : ℕ) → (split msgs keep).head ≡ head_of msgs
unfolding split
split-head_of msgs keep =
    let (pin, end) = in_flight_prompt msgs (head_of msgs) in
    either_branch (λ (s : Span). s.head ≡ head_of msgs)
      (ltb pin end && leb end (cut_of msgs (head_of msgs) keep)) _ _ refl refl

-- Both ends of what may be dropped are breaks.
both_break :
    (msgs : List Message) (keep : ℕ)
    → (breaks true (split msgs keep).head msgs ≡ true)
      × (breaks true (split msgs keep).cut msgs ≡ true)
unfolding split
both_break msgs keep =
    let head = head_of msgs in
    let cut = cut_of msgs head keep in
    let (pin, end) = in_flight_prompt msgs head in
    let both : (breaks true head msgs ≡ true) × (breaks true cut msgs ≡ true) =
      (head_breaks true msgs, cut_breaks msgs keep) in
    either_branch (λ (s : Span). (breaks true s.head msgs ≡ true) × (breaks true s.cut msgs ≡ true))
      (ltb pin end && leb end cut) _ _ both both

-- The pinned messages are a conversation.
pinned-Conversation :
    (msgs : List Message) (keep : ℕ)
    → Conversation msgs
    → Conversation (slice (split msgs keep).pin (split msgs keep).pin_end msgs)
unfolding split
pinned-Conversation msgs keep c =
    let head = head_of msgs in
    let cut = cut_of msgs head keep in
    let (pin, end) = in_flight_prompt msgs head in
    either_branch (λ (s : Span). Conversation (slice s.pin s.pin_end msgs))
      (ltb pin end && leb end cut) _ _ (in_flight-Conversation msgs head c)
      (empty-Conversation cut msgs)

-- The cut rule keeps a conversation a conversation: the head, a conversation that is inserted, the
-- in-flight prompt and the kept turns are one, whatever number of turns is kept. No tool call loses
-- its result, and no result its call.
pub kept-Conversation :
    (msgs insert : List Message) (keep : ℕ)
    → Conversation msgs
    → Conversation insert
    → Conversation (kept (split msgs keep) msgs insert)
unfolding kept
kept-Conversation msgs insert keep c i =
    Conversation-append _ (breaks-Cuts c (split msgs keep).head (both_break msgs keep).0).0 (
      Conversation-append _ i (
        Conversation-append _ (pinned-Conversation msgs keep c)
          (breaks-Cuts c (split msgs keep).cut (both_break msgs keep).1).1))
