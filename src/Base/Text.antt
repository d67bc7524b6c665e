-- ===== src/Base/Text.antt =====
-- Equality of texts, and finite sets of texts as lists, for Go's `map[string]struct{}`.
use Prim.Native.Nat.{ℕ, ◌+◌}
use Prim.Native.String.{String}
use mathlib.Core.Path.{◌≡◌, refl}
use mathlib.Core.Logic.{◌↔◌}
use mathlib.Core.Bool.{Bool, true, false, ◌||◌}
use mathlib.Core.List.{List, [], ◌∷◌, ◌++◌}
use native.Mathlib.Omega.{arith}
use text.Mathlib.Text.{◌==◌ as eqb}
use text.Mathlib.TextEquality.{eq_iff}
use maestro_llms.Base.Tests.{ltb, if◌then◌else◌}

abbrev pub str_eq : String → String → Bool
str_eq s t = eqb s t

pub str_eq_iff : (s t : String) → (str_eq s t ≡ true) ↔ (s ≡ t)
str_eq_iff s t = eq_iff s t

pub str_eq_refl : (s : String) → str_eq s s ≡ true
str_eq_refl s = (eq_iff s s).1 refl

-- `_, ok := set[id]`
abbrev pub has : List String → String → Bool
has [] id = false
has (x ∷ xs) id = str_eq x id || has xs id

-- `delete(set, id)`
abbrev pub remove : List String → String → List String
remove [] id = []
remove (x ∷ xs) id = if str_eq x id then remove xs id else x ∷ remove xs id

-- How often a text stands in a list.
abbrev pub count : String → List String → ℕ
count id [] = 0
count id (x ∷ xs) = (if str_eq x id then 1 else 0) + count id xs

pub has-count : (xs : List String) (id : String) → has xs id ≡ ltb 0 (count id xs)
has-count [] id = refl
has-count (x ∷ xs) id = ground (arith, has-count xs id)

pub count-remove :
    (xs : List String) (x id : String)
    → count id (remove xs x) ≡ (if str_eq x id then 0 else count id xs)
count-remove [] x id = ground arith
count-remove (y ∷ xs) x id =
    ground (arith, count-remove xs x id, str_eq_iff y x, str_eq_iff x id, str_eq_iff y id)

pub count-append :
    (xs ys : List String) (id : String) → count id (xs ++ ys) ≡ count id xs + count id ys
count-append [] ys id = ground arith
count-append (x ∷ xs) ys id = ground (arith, count-append xs ys id)

pub empty_of_counts : (xs : List String) → ((id : String) → count id xs ≡ 0) → xs ≡ []
empty_of_counts [] h = refl
empty_of_counts (x ∷ xs) h = absurd (ground (arith, h x, str_eq_refl x))
