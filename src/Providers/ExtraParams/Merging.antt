-- ===== src/Providers/ExtraParams/Merging.antt =====
-- llms/providers/internal/extraparams: what a merged object holds at a path.
use maestro_llms.Base.{
  ◌≡◌, refl, sym, ap, ◌∙◌, subst, ◌⊎◌, inl, inr, String, true, false, Option, none, some, List, [],
  ◌∷◌, arith, if◌then◌else◌, str_eq, str_eq_iff, Bool-cases,
}
use maestro_llms.Providers.Json.{Json, Fields, get, set, as_object, object_at}
use maestro_llms.Providers.ExtraParams.{merged_object, or_empty, merge, overrides}

-- Go maps: no key twice, at any depth below objects.
abbrev pub IsMap : Fields → Type 0
IsMap Fields.no_fields = Unit
IsMap (Fields.field k (Json.object f) rest) = (get rest k ≡ none) × IsMap f × IsMap rest
IsMap (Fields.field k v rest) = (get rest k ≡ none) × IsMap rest

-- The value at a path of keys.
unfoldable pub find : Json → List String → Option Json
unfolding get
find v [] = some v
find (Json.object f) (k ∷ path) = elim (get f k) [ none ↦ none | some v ↦ find v path ]
find v (k ∷ path) = none

abbrev pub object_of : Option Json → Option Fields
object_of none = none
object_of (some v) = as_object v

-- What becomes of a value where another is merged over it: two objects are merged, and otherwise
-- the other replaces it; where an ancestor was replaced there is none.
unfoldable pub laid_over : Option Json → Option Json → Option Json
laid_over old none = none
laid_over old (some (Json.object sv)) =
    some (merged_object (object_of old) (merge (or_empty (object_of old)) sv) sv)
laid_over old (some v) = some v

get-set :
    (m : Fields) (k k' : String) (v : Json)
    → get (set m k v) k' ≡ (if str_eq k k' then some v else get m k')
unfolding get set
get-set Fields.no_fields k k' v = refl
get-set (Fields.field k2 v2 rest) k k' v =
    ground (arith, get-set rest k k' v, str_eq_iff k2 k, str_eq_iff k2 k', str_eq_iff k k')

-- One key of a merge.
unfoldable pub over_or_old : Option Json → Option Json → Option Json
over_or_old old none = old
over_or_old old (some v) = laid_over old (some v)

get-rest :
    (k k' : String) (v : Json) (rest : Fields)
    → get rest k ≡ none
    → str_eq k k' ≡ true
    → get rest k' ≡ none
get-rest k k' v rest h e = subst (λ q. get rest q ≡ none) ((str_eq_iff k k').0 e) h

one_key :
    (dst rest merged : Fields) (k k' : String) (v w : Json)
    → get rest k ≡ none
    → laid_over (get dst k) (some v) ≡ some w
    → get merged k' ≡ over_or_old (get (set dst k w) k') (get rest k')
    → get merged k' ≡ over_or_old (get dst k') (if str_eq k k' then some v else get rest k')
unfolding over_or_old
one_key dst rest merged k k' v w alone laid h = elim (Bool-cases (str_eq k k')) [
  | inr away ↦ rw away (h ∙ rw (get-set dst k k' w, away) refl)
  | inl here ↦ rw here (
      h
      ∙ rw (get-rest k k' v rest alone here, get-set dst k k' w, here)
          (sym
            (subst (λ q. laid_over (get dst q) (some v) ≡ some w) ((str_eq_iff k k').0 here) laid)))
]

object_of_cases : (o : Option Json) → object_of o ≡ (elim o [ none ↦ none | some v ↦ as_object v ])
object_of_cases none = refl
object_of_cases (some v) = refl

object_of-get : (m : Fields) (k : String) → object_of (get m k) ≡ object_at m k
unfolding object_at
object_of-get m k = object_of_cases (get m k)

pub get-merge :
    (src dst : Fields) (k : String)
    → IsMap src
    → get (merge dst src) k ≡ over_or_old (get dst k) (get src k)
unfolding merge get over_or_old laid_over
get-merge Fields.no_fields dst k h = refl
get-merge (Fields.field k' (Json.object sv) rest) dst k h =
    one_key dst rest _ k' k (Json.object sv) _ h.0
      (ap (λ o. some (merged_object o (merge (or_empty o) sv) sv)) (object_of-get dst k'))
      (get-merge rest _ k h.2)
get-merge (Fields.field k' Json.null rest) dst k h =
    one_key dst rest _ k' k Json.null _ h.0 refl (get-merge rest _ k h.1)
get-merge (Fields.field k' (Json.bool b) rest) dst k h =
    one_key dst rest _ k' k (Json.bool b) _ h.0 refl (get-merge rest _ k h.1)
get-merge (Fields.field k' (Json.number n) rest) dst k h =
    one_key dst rest _ k' k (Json.number n) _ h.0 refl (get-merge rest _ k h.1)
get-merge (Fields.field k' (Json.text t) rest) dst k h =
    one_key dst rest _ k' k (Json.text t) _ h.0 refl (get-merge rest _ k h.1)
get-merge (Fields.field k' (Json.array vs) rest) dst k h =
    one_key dst rest _ k' k (Json.array vs) _ h.0 refl (get-merge rest _ k h.1)

-- A path that is not overridden has no value in src.
pub not_found :
    (path : List String) (src : Fields) (k : String) (o : Option Json)
    → get src k ≡ o
    → overrides src (k ∷ path) ≡ false
    → find (Json.object src) (k ∷ path) ≡ none
unfolding find overrides
not_found path src k none e h = rw (e, find) refl
not_found [] src k (some v) e h = absurd (ground (arith, e, h))
not_found (k2 ∷ path) src k (some (Json.object sub)) e h =
    rw (e, find) (not_found path sub k2 _ refl (rw (e, overrides) at h))
not_found (k2 ∷ path) src k (some Json.null) e h = absurd (ground (arith, e, h))
not_found (k2 ∷ path) src k (some (Json.bool b)) e h = absurd (ground (arith, e, h))
not_found (k2 ∷ path) src k (some (Json.number n)) e h = absurd (ground (arith, e, h))
not_found (k2 ∷ path) src k (some (Json.text t)) e h = absurd (ground (arith, e, h))
not_found (k2 ∷ path) src k (some (Json.array vs)) e h = absurd (ground (arith, e, h))

first_or_rest :
    (k' k : String) (v : Json) (rest sub : Fields)
    → (if str_eq k' k then some v else get rest k) ≡ some (Json.object sub)
    → (v ≡ Json.object sub) ⊎ (get rest k ≡ some (Json.object sub))
first_or_rest k' k v rest sub e = elim (Bool-cases (str_eq k' k)) [
  | inl here ↦ let found : some v ≡ some (Json.object sub) = rw here at e in inl cc
  | inr away ↦ inr (rw away at e)
]

pub IsMap-get :
    (src : Fields) (k : String) (sub : Fields)
    → IsMap src
    → get src k ≡ some (Json.object sub)
    → IsMap sub
unfolding get
IsMap-get Fields.no_fields k sub h e = cc
IsMap-get (Fields.field k' (Json.object f) rest) k sub h e =
    elim (first_or_rest k' k (Json.object f) rest sub e) [
      | inl same ↦ let f_sub : f ≡ sub = cc in subst (λ g. IsMap g) f_sub h.1
      | inr later ↦ IsMap-get rest k sub h.2 later
    ]
IsMap-get (Fields.field k' Json.null rest) k sub h e =
    elim (first_or_rest k' k Json.null rest sub e) [
      | inl same ↦ cc
      | inr later ↦ IsMap-get rest k sub h.1 later
    ]
IsMap-get (Fields.field k' (Json.bool b) rest) k sub h e =
    elim (first_or_rest k' k (Json.bool b) rest sub e) [
      | inl same ↦ cc
      | inr later ↦ IsMap-get rest k sub h.1 later
    ]
IsMap-get (Fields.field k' (Json.number n) rest) k sub h e =
    elim (first_or_rest k' k (Json.number n) rest sub e) [
      | inl same ↦ cc
      | inr later ↦ IsMap-get rest k sub h.1 later
    ]
IsMap-get (Fields.field k' (Json.text t) rest) k sub h e =
    elim (first_or_rest k' k (Json.text t) rest sub e) [
      | inl same ↦ cc
      | inr later ↦ IsMap-get rest k sub h.1 later
    ]
IsMap-get (Fields.field k' (Json.array vs) rest) k sub h e =
    elim (first_or_rest k' k (Json.array vs) rest sub e) [
      | inl same ↦ cc
      | inr later ↦ IsMap-get rest k sub h.1 later
    ]
