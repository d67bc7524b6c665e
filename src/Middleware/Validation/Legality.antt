-- ===== src/Middleware/Validation/Legality.antt =====
-- llms/middleware/validation.go: validateParts accepts exactly the legal parts.
use maestro_llms.Base.{
  ℕ, suc, ◌≡◌, refl, List, [], ◌∷◌, arith, ok, str_eq_iff, >>=-eq-ok, Option-cases, inl, inr, ◌↔◌,
}
use maestro_llms.Llms.Message.{Role, ContentPart, ContentPartType}
use maestro_llms.Middleware.Validation.{validate_type, validate_part, validate_parts}
use maestro_llms.Middleware.Validation.Conversation.{LegalType, LegalParts}

module _ (mi pi : ℕ) (p : ContentPart) where
  LegalType-sound :
      (t : ContentPartType) (role : Role)
      → validate_type t mi pi role p ≡ ok tt
      → LegalType t role p
  unfolding validate_type
  LegalType-sound ContentPartType.text role h = tt
  LegalType-sound ContentPartType.tool_call role h = elim (Option-cases p.tool_call) [
    | inl e ↦ ground arith
    | inr (c, e) ↦ (c, e, ground (arith, str_eq_iff c.id ""), ground arith)
  ]
  LegalType-sound ContentPartType.tool_result role h = elim (Option-cases p.tool_result) [
    | inl e ↦ ground arith
    | inr (c, e) ↦ (c, e, ground (arith, str_eq_iff c.tool_call_id ""), ground arith)
  ]
  LegalType-sound ContentPartType.reasoning role h = elim (Option-cases p.reasoning) [
    | inl e ↦ ground arith
    | inr (c, e) ↦ (c, e, ground (arith, str_eq_iff c.provider ""), ground arith)
  ]
  LegalType-sound (ContentPartType.other t) role h = cc

  LegalType-complete :
      (t : ContentPartType) (role : Role)
      → LegalType t role p
      → validate_type t mi pi role p ≡ ok tt
  unfolding validate_type
  LegalType-complete ContentPartType.text role h = refl
  LegalType-complete ContentPartType.tool_call role (c, e, n, r) =
      ground (arith, str_eq_iff c.id "")
  LegalType-complete ContentPartType.tool_result role (c, e, n, r) =
      ground (arith, str_eq_iff c.tool_call_id "")
  LegalType-complete ContentPartType.reasoning role (c, e, n, r) =
      ground (arith, str_eq_iff c.provider "")
  LegalType-complete (ContentPartType.other t) role h = absurd h

-- `validateParts` returns no error exactly when every part has its payload and stands in a message
-- of a role that may hold it.
pub validate_parts-LegalParts :
    (mi pi : ℕ) (role : Role) (ps : List ContentPart)
    → (validate_parts mi pi role ps ≡ ok tt) ↔ LegalParts role ps
unfolding validate_parts validate_part
validate_parts-LegalParts mi pi role [] = (λ h. tt, λ h. refl)
validate_parts-LegalParts mi pi role (p ∷ ps) = (
  λ h.
      let parts =
        >>=-eq-ok (validate_type p.type mi pi role p) (λ _. validate_parts mi (suc pi) role ps) h in
      (
        LegalType-sound mi pi p p.type role parts.1,
        (validate_parts-LegalParts mi (suc pi) role ps).0 parts.2,
      ),
  λ h.
      rw (LegalType-complete mi pi p p.type role h.0)
        ((validate_parts-LegalParts mi (suc pi) role ps).1 h.1),
)
