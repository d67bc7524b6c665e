-- ===== src/Toolloop/Compact/Breaks.antt =====
-- llms/toolloop/compact/compact.go: where a conversation may be cut.
use maestro_llms.Base.{
  ℕ, zero, suc, ◌≡◌, refl, sym, ap, ◌∙◌, subst, Bool, true, false, not, ◌||◌, List, [], ◌∷◌, ◌++◌,
  arith, length, take, drop,
}
use maestro_llms.Llms.Message.{Message, is_user, is_tool}
use maestro_llms.Middleware.Validation.Conversation.{Conversation, ToolTurns}

-- No tool message stands at index `i`, or a user message stands before it. `after_user` says whether
-- one stands before index 0.
abbrev pub breaks : Bool → ℕ → List Message → Bool
breaks after_user i [] = true
breaks after_user zero (m ∷ ms) = after_user || not (is_tool m.role)
breaks after_user (suc i) (m ∷ ms) = breaks (is_user m.role) i ms

pub breaks_end : (b : Bool) (ms : List Message) → breaks b (length ms) ms ≡ true
breaks_end b [] = refl
breaks_end b (m ∷ ms) = breaks_end (is_user m.role) ms

breaks_weaker : (i : ℕ) (ms : List Message) → breaks false i ms ≡ true → breaks true i ms ≡ true
breaks_weaker i [] h = refl
breaks_weaker zero (m ∷ ms) h = refl
breaks_weaker (suc i) (m ∷ ms) h = h

breaks_stronger :
    (b : Bool) (i : ℕ) (ms : List Message) → breaks b i ms ≡ true → breaks true i ms ≡ true
breaks_stronger true i ms h = h
breaks_stronger false i ms h = breaks_weaker i ms h

-- Both sides of an index are conversations.
abbrev pub Cuts : ℕ → List Message → Type 0
Cuts i ms = Conversation (take i ms) × Conversation (drop i ms)

-- A break behind tool messages falls behind them all.
behind_tools :
    (ts rest : List Message) (j : ℕ)
    → ToolTurns ts
    → breaks false j (ts ++ rest) ≡ true
    → (k : ℕ) × (take j (ts ++ rest) ≡ ts ++ take k rest)
      × (drop j (ts ++ rest) ≡ drop k rest)
      × (breaks true k rest ≡ true)
behind_tools [] rest j tools h = (j, refl, refl, breaks_weaker j rest h)
behind_tools (t ∷ ts) rest zero tools h = absurd (ground (arith, tools.0.role))
behind_tools (t ∷ ts) rest (suc j) tools h =
    let (k, a, b, c) = behind_tools ts rest j tools.1 (ground (arith, tools.0.role, h)) in
    (k, ap (◌∷◌ t) a, b, c)

pub breaks-Cuts :
    {ms : List Message} → Conversation ms → (i : ℕ) → breaks true i ms ≡ true → Cuts i ms
breaks-Cuts Conversation.done zero h = (Conversation.done, Conversation.done)
breaks-Cuts Conversation.done (suc i) h = (Conversation.done, Conversation.done)
breaks-Cuts (Conversation.user_turn m l r c) zero h =
    (Conversation.done, Conversation.user_turn m l r c)
breaks-Cuts (Conversation.user_turn m {ms = ms} l r c) (suc i) h =
    let (a, b) = breaks-Cuts c i (breaks_stronger (is_user m.role) i ms h) in
    (Conversation.user_turn m l r a, b)
breaks-Cuts (Conversation.assistant_turn m ts rest l r d tools same c e) zero h =
    (Conversation.done, Conversation.assistant_turn m ts rest l r d tools same c e)
breaks-Cuts (Conversation.assistant_turn m ts rest {ms = ms} l r d tools same c e) (suc j) h =
    let (k, a, b, f) = behind_tools ts rest j tools (
      subst (λ xs. breaks false j xs ≡ true) e (subst (λ q. breaks (is_user q) j ms ≡ true) r h)) in
    let (x, y) = breaks-Cuts c k f in
    (
      Conversation.assistant_turn m ts (take k rest) l r d tools same x (ap (take j) e ∙ a),
      subst Conversation (sym (ap (drop j) e ∙ b)) y,
    )
