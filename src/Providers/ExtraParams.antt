-- ===== src/Providers/ExtraParams.antt =====
-- llms/providers/internal/extraparams: the deep merge of ProviderParams into a request body.
pub mod Merging
pub mod Paths
use maestro_llms.Base.{String, Bool, true, false, Option, none, some, List, [], ◌∷◌}
use maestro_llms.Llms.Message.{Bytes}
use maestro_llms.Providers.Json
use maestro_llms.Providers.Json.{Json, Fields, get, set, object_at}

-- What `Merge` puts at a key for an object of src: `deep` is the merge into an object of dst.
unfoldable pub merged_object : Option Fields → Fields → Fields → Json
merged_object none deep sv = Json.object sv
merged_object (some dv) deep sv = Json.object deep

abbrev pub or_empty : Option Fields → Fields
or_empty none = Fields.no_fields
or_empty (some f) = f

-- `Merge`: dst after it.
unfoldable pub merge : Fields → Fields → Fields
unfolding merged_object object_at set
merge dst Fields.no_fields = dst
merge dst (Fields.field k (Json.object sv) rest) =
    let deep = merge (or_empty (object_at dst k)) sv in
    merge (set dst k (merged_object (object_at dst k) deep sv)) rest
merge dst (Fields.field k Json.null rest) = merge (set dst k Json.null) rest
merge dst (Fields.field k (Json.bool b) rest) = merge (set dst k (Json.bool b)) rest
merge dst (Fields.field k (Json.number n) rest) = merge (set dst k (Json.number n)) rest
merge dst (Fields.field k (Json.text t) rest) = merge (set dst k (Json.text t)) rest
merge dst (Fields.field k (Json.array vs) rest) = merge (set dst k (Json.array vs)) rest

-- `MergeJSON`, with the decoder of a body and the encoder as arguments: none where the body is
-- neither an object nor null.
unfoldable pub merge_json : (Bytes → Option Json) → (Json → Bytes) → Bytes → Fields → Option Bytes
unfolding merge
merge_json decode encode body src = elim (decode body) [
  | none ↦ none
  | some (Json.object dst) ↦ some (encode (Json.object (merge dst src)))
  | some Json.null ↦ some (encode (Json.object (merge Fields.no_fields src)))
  | some _ ↦ none
]

-- `Overrides`.
unfoldable pub overrides : Fields → List String → Bool
unfolding get
overrides src [] = false
overrides src (k ∷ []) = elim (get src k) [ none ↦ false | some v ↦ true ]
overrides src (k ∷ k' ∷ path) = elim (get src k) [
  | none ↦ false
  | some (Json.object sub) ↦ overrides sub (k' ∷ path)
  | some _ ↦ true
]
