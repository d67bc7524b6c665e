-- ===== src/Providers/ExtraParams/Paths.antt =====
-- llms/providers/internal/extraparams: Overrides tells what Merge changes.
use maestro_llms.Base.{
  ◌≡◌, refl, sym, ◌∙◌, inl, inr, String, Bool, true, false, Option, none, some, List, [], ◌∷◌,
  arith, if◌then◌else◌, Bool-cases, is_some,
}
use maestro_llms.Providers.Json.{Json, Fields, get}
use maestro_llms.Providers.ExtraParams.{merged_object, merge, overrides}
use maestro_llms.Providers.ExtraParams.Merging.{
  IsMap, find, laid_over, over_or_old, get-merge, not_found, IsMap-get,
}

itself : (o : Option Json) → (elim o [ none ↦ none | some v ↦ some v ]) ≡ o
itself none = refl
itself (some v) = refl

laid_over-none : (o : Option Json) → laid_over none o ≡ o
unfolding laid_over merged_object
laid_over-none none = refl
laid_over-none (some (Json.object sv)) = refl
laid_over-none (some Json.null) = refl
laid_over-none (some (Json.bool b)) = refl
laid_over-none (some (Json.number n)) = refl
laid_over-none (some (Json.text t)) = refl
laid_over-none (some (Json.array vs)) = refl

-- What the theorem says of a path below the key, for the values there before the merge.
abbrev below : Option Json → List String → Option Json
below none path = none
below (some v) path = find v path

abbrev overrides_below : Option Json → String → List String → Bool
overrides_below none k path = false
overrides_below (some (Json.object sub)) k path = overrides sub (k ∷ path)
overrides_below (some v) k path = true

over_nothing :
    (path : List String) (k : String) (sv : Fields)
    → find (Json.object sv) (k ∷ path) ≡ (
        if overrides sv (k ∷ path) then laid_over none (find (Json.object sv) (k ∷ path)) else none)
over_nothing path k sv = elim (Bool-cases (overrides sv (k ∷ path))) [
  | inl set_there ↦ rw set_there (sym (laid_over-none _))
  | inr unset ↦ rw unset (not_found path sv k _ refl unset)
]

deep_key :
    (path : List String) (k2 : String) (d s : Option Json)
    → ((dv sv : Fields)
        → s ≡ some (Json.object sv)
        → find (Json.object (merge dv sv)) (k2 ∷ path) ≡ (
            if overrides sv (k2 ∷ path)
            then laid_over (find (Json.object dv) (k2 ∷ path)) (find (Json.object sv) (k2 ∷ path))
            else find (Json.object dv) (k2 ∷ path)))
    → below (over_or_old d s) (k2 ∷ path) ≡ (
        if overrides_below s k2 path
        then laid_over (below d (k2 ∷ path)) (below s (k2 ∷ path))
        else below d (k2 ∷ path))
unfolding over_or_old laid_over merged_object find
deep_key path k2 d none ih = refl
deep_key path k2 (some (Json.object dv)) (some (Json.object sv)) ih = ih dv sv refl
deep_key path k2 none (some (Json.object sv)) ih = over_nothing path k2 sv
deep_key path k2 (some Json.null) (some (Json.object sv)) ih = over_nothing path k2 sv
deep_key path k2 (some (Json.bool b)) (some (Json.object sv)) ih = over_nothing path k2 sv
deep_key path k2 (some (Json.number n)) (some (Json.object sv)) ih = over_nothing path k2 sv
deep_key path k2 (some (Json.text t)) (some (Json.object sv)) ih = over_nothing path k2 sv
deep_key path k2 (some (Json.array vs)) (some (Json.object sv)) ih = over_nothing path k2 sv
deep_key path k2 d (some Json.null) ih = refl
deep_key path k2 d (some (Json.bool b)) ih = refl
deep_key path k2 d (some (Json.number n)) ih = refl
deep_key path k2 d (some (Json.text t)) ih = refl
deep_key path k2 d (some (Json.array vs)) ih = refl

find-below :
    (f : Fields) (k : String) (path : List String)
    → find (Json.object f) (k ∷ path) ≡ below (get f k) path
unfolding find
find-below f k path = go (get f k)
  where
    go : (o : Option Json) → (elim o [ none ↦ none | some v ↦ find v path ]) ≡ below o path
    go none = refl
    go (some v) = refl

overrides-below :
    (src : Fields) (k k2 : String) (path : List String)
    → overrides src (k ∷ k2 ∷ path) ≡ overrides_below (get src k) k2 path
unfolding overrides
overrides-below src k k2 path = ground arith

overrides-top : (src : Fields) (k : String) → overrides src (k ∷ []) ≡ is_some (get src k)
unfolding overrides
overrides-top src k = ground arith

below-nil : (o : Option Json) → below o [] ≡ o
unfolding find
below-nil none = refl
below-nil (some v) = refl

top_key :
    (d s : Option Json)
    → below (over_or_old d s) []
      ≡ (if is_some s then laid_over (below d []) (below s []) else below d [])
unfolding over_or_old
top_key d none = refl
top_key d (some v) = below-nil (laid_over d (some v)) ∙ rw (below-nil d, below-nil (some v)) refl

-- Where src is a map, the merge holds at a path just what dst held, if Overrides denies the path;
-- and otherwise what both held, one laid over the other: objects merged, any other value of src in
-- place of that of dst.
pub merge-overrides :
    (path : List String) (dst src : Fields) (k : String)
    → IsMap src
    → find (Json.object (merge dst src)) (k ∷ path) ≡ (
        if overrides src (k ∷ path)
        then laid_over (find (Json.object dst) (k ∷ path)) (find (Json.object src) (k ∷ path))
        else find (Json.object dst) (k ∷ path))
merge-overrides [] dst src k h =
    rw
      (
        find-below (merge dst src) k [],
        find-below dst k [],
        find-below src k [],
        overrides-top src k,
        get-merge src dst k h,
      )
      (top_key (get dst k) (get src k))
merge-overrides (k2 ∷ path) dst src k h =
    rw
      (
        find-below (merge dst src) k (k2 ∷ path),
        find-below dst k (k2 ∷ path),
        find-below src k (k2 ∷ path),
        overrides-below src k k2 path,
        get-merge src dst k h,
      )
      (deep_key path k2 (get dst k) (get src k)
        (λ dv sv e. merge-overrides path dv sv k2 (IsMap-get src k sv h e)))
