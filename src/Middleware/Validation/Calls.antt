-- ===== src/Middleware/Validation/Calls.antt =====
-- llms/middleware/validation.go: the two loops of pairingState, by how often an ID is open.
use maestro_llms.Base.{
  ℕ, ◌+◌, ◌≤◌, ◌≡◌, ◌⊎◌, refl, String, true, false, List, [], ◌∷◌, arith, ok, err, str_eq_iff,
  str_eq_refl, >>=-eq-ok, inl, inr, has, has-count, remove, count, count-remove, count-append,
  if◌then◌else◌, subst,
}
use maestro_llms.Llms.Message.{Role, ContentPart, ContentPartType}
use maestro_llms.Llms.Reasons.{Invalid}
use maestro_llms.Middleware.Validation.{
  PairingState, open_call, open_calls, close_call, close_calls,
}
use maestro_llms.Middleware.Validation.Conversation.{
  LegalType, LegalParts, call_of, call_ids, result_of, result_ids, AllResults, Distinct,
}

-- A legal part is no call, or opens one ID.
open_call_cases :
    (mi : ℕ) (role : Role) (p : ContentPart) (pending : List String) (t : ContentPartType)
    → p.type ≡ t
    → LegalType t role p
    → ((call_of p.type p.tool_call ≡ []) × (open_call mi p pending ≡ ok pending))
      ⊎ ((id : String) × (call_of p.type p.tool_call ≡ id ∷ [])
          × (open_call mi p pending ≡ (
              if has pending id
              then err (Invalid.duplicate_tool_call mi id)
              else ok (id ∷ pending))))
unfolding open_call
open_call_cases mi role p pending ContentPartType.text e l = inl (ground arith, ground arith)
open_call_cases mi role p pending ContentPartType.tool_call e (c, ec, n, r) =
    inr (c.id, ground arith, ground arith)
open_call_cases mi role p pending ContentPartType.tool_result e l = inl (ground arith, ground arith)
open_call_cases mi role p pending ContentPartType.reasoning e l = inl (ground arith, ground arith)
open_call_cases mi role p pending (ContentPartType.other t) e l = absurd l

open_call-count :
    (mi : ℕ) (role : Role) (p : ContentPart) (pending q : List String)
    → LegalType p.type role p
    → open_call mi p pending ≡ ok q
    → (id : String)
    → (count id q ≡ count id (call_of p.type p.tool_call) + count id pending)
      × (count id pending ≤ 1 → count id q ≤ 1)
open_call-count mi role p pending q l h id =
    elim (open_call_cases mi role p pending p.type refl l) [
      | inl (none_open, e) ↦ ground arith
      | inr (x, opens, e) ↦ ground (arith, has-count pending x, str_eq_iff x id)
    ]

-- After the loop of `assistant` an ID is pending as often as it was and as the message calls it.
pub open_calls-count :
    (mi : ℕ) (role : Role) (ps : List ContentPart) (pending q : List String)
    → LegalParts role ps
    → open_calls mi ps pending ≡ ok q
    → (id : String)
    → (count id q ≡ count id (call_ids ps) + count id pending)
      × (count id pending ≤ 1 → count id q ≤ 1)
unfolding open_calls
open_calls-count mi role [] pending q l h id = ground arith
open_calls-count mi role (p ∷ ps) pending q l h id =
    let (mid, e, rest) = >>=-eq-ok (open_call mi p pending) (open_calls mi ps) h in
    ground (
      arith,
      open_call-count mi role p pending mid l.0 e id,
      open_calls-count mi role ps mid q l.1 rest id,
      count-append (call_of p.type p.tool_call) (call_ids ps) id,
    )

-- The loop refuses nothing but a repeated ID.
pub open_calls_total :
    (mi : ℕ) (role : Role) (ps : List ContentPart) (pending : List String)
    → LegalParts role ps
    → ((id : String) → count id (call_ids ps) + count id pending ≤ 1)
    → (q : List String) × (open_calls mi ps pending ≡ ok q)
unfolding open_calls
open_calls_total mi role [] pending l h = (pending, refl)
open_calls_total mi role (p ∷ ps) pending l h =
    elim (open_call_cases mi role p pending p.type refl l.0) [
      | inl (none_open, e) ↦
          let (q, f) = open_calls_total mi role ps pending l.1 (λ id. ground (arith, h id)) in
          (q, rw e f)
      | inr (x, opens, e) ↦
          let (q, f) = open_calls_total mi role ps (x ∷ pending) l.1 (λ id. ground (arith, h id)) in
          (q, rw (e, fresh x opens) f)
    ]
  where
    fresh : (x : String) → call_of p.type p.tool_call ≡ x ∷ [] → has pending x ≡ false
    fresh x opens = ground (arith, h x, has-count pending x, str_eq_refl x)

-- A result part closes one ID.
close_call_cases :
    (mi : ℕ) (role : Role) (p : ContentPart) (s : PairingState)
    → p.type ≡ ContentPartType.tool_result
    → LegalType ContentPartType.tool_result role p
    → (id : String) × (result_of p.type p.tool_result ≡ id ∷ [])
      × (close_call mi p s ≡ (
          if has s.pending id
          then ok (record { pending = remove s.pending id; resolved = id ∷ s.resolved })
          else if has s.resolved id
          then err (Invalid.duplicate_tool_result mi id)
          else err (Invalid.orphaned_tool_result mi id)))
unfolding close_call
close_call_cases mi role p s e (r, er, n, x) = (r.tool_call_id, ground arith, ground arith)

close_call_refuses :
    (mi : ℕ) (p : ContentPart) (s q : PairingState)
    → close_call mi p s ≡ ok q
    → p.type ≡ ContentPartType.tool_result
unfolding close_call
close_call_refuses mi p s q h = ground arith

-- A message that the loop of `tool` accepts holds results only.
pub close_calls-AllResults :
    (mi : ℕ) (ps : List ContentPart) (s q : PairingState)
    → close_calls mi ps s ≡ ok q
    → AllResults ps
unfolding close_calls
close_calls-AllResults mi [] s q h = tt
close_calls-AllResults mi (p ∷ ps) s q h =
    let (mid, e, rest) = >>=-eq-ok (close_call mi p s) (close_calls mi ps) h in
    (close_call_refuses mi p s mid e, close_calls-AllResults mi ps mid q rest)

close_call-count :
    (mi : ℕ) (role : Role) (p : ContentPart) (s q : PairingState)
    → p.type ≡ ContentPartType.tool_result
    → LegalType p.type role p
    → close_call mi p s ≡ ok q
    → (id : String) → count id s.pending ≤ 1
    → count id s.pending ≡ count id (result_of p.type p.tool_result) + count id q.pending
close_call-count mi role p s q t l h id d =
    let (x, closes, e) = close_call_cases mi role p s t (subst (λ k. LegalType k role p) t l) in
    ground (arith, has-count s.pending x, count-remove s.pending x id, str_eq_iff x id)

-- The loop of `tool` closes each ID as often as the message holds a result for it.
pub close_calls-count :
    (mi : ℕ) (role : Role) (ps : List ContentPart) (s q : PairingState)
    → AllResults ps
    → LegalParts role ps
    → close_calls mi ps s ≡ ok q
    → (id : String) → count id s.pending ≤ 1
    → count id s.pending ≡ count id (result_ids ps) + count id q.pending
unfolding close_calls
close_calls-count mi role [] s q r l h id d = ground arith
close_calls-count mi role (p ∷ ps) s q r l h id d =
    let (mid, e, rest) = >>=-eq-ok (close_call mi p s) (close_calls mi ps) h in
    ground (
      arith,
      close_call-count mi role p s mid r.0 l.0 e id d,
      close_calls-count mi role ps mid q r.1 l.1 rest id,
      count-append (result_of p.type p.tool_result) (result_ids ps) id,
    )

-- The loop refuses no result for an ID that is open.
pub close_calls_total :
    (mi : ℕ) (role : Role) (ps : List ContentPart) (s : PairingState)
    → AllResults ps
    → LegalParts role ps
    → Distinct s.pending
    → ((id : String) → count id (result_ids ps) ≤ count id s.pending)
    → (q : PairingState) × (close_calls mi ps s ≡ ok q)
unfolding close_calls
close_calls_total mi role [] s r l d h = (s, refl)
close_calls_total mi role (p ∷ ps) s r l d h =
    let (x, closes, e) =
      close_call_cases mi role p s r.0 (subst (λ k. LegalType k role p) r.0 l.0) in
    let open_x : has s.pending x ≡ true = ground (
      arith,
      h x,
      has-count s.pending x,
      str_eq_refl x,
      count-append (result_of p.type p.tool_result) (result_ids ps) x,
    ) in
    let s' : PairingState = record { pending = remove s.pending x; resolved = x ∷ s.resolved } in
    let (q, f) =
      close_calls_total mi role ps s' r.1 l.1
        (λ id. ground (arith, d id, count-remove s.pending x id))
        (λ id. ground (
          arith,
          h id,
          d id,
          count-remove s.pending x id,
          str_eq_iff x id,
          count-append (result_of p.type p.tool_result) (result_ids ps) id,
        )) in
    (q, rw (e, open_x) f)
