-- ===== src/Prelude/Dict.antt =====
-- A Go map with text keys, as an association list: the entry that stands first is the live one.
use Prim.Native.String.{String}
use mathlib.Core.Path.{◌≡◌, refl}
use mathlib.Core.Bool.{Bool}
use mathlib.Core.Logic.{◌≢◌}
use mathlib.Core.List.{List, [], ◌∷◌}
use mathlib.Core.Option.{Option, none, some}
use native.Mathlib.Omega.{arith}
use text.Mathlib.TextEquality.{eq_iff}
use llm_api_router.Prelude.Tests.{if◌then◌else◌, is_some}
use llm_api_router.Prelude.Text.{str_eq, str_eq_refl}

abbrev pub Assoc {ℓ} : Type ℓ → Type ℓ
Assoc Value = List (String × Value)

module _ {ℓ} {V : Type ℓ} where
  -- `v, ok := m[k]`.
  unfoldable pub lookup : String → Assoc V → Option V
  lookup k [] = none
  lookup k ((j, v) ∷ m) = if str_eq j k then some v else lookup k m

  -- `m[k] = v`.
  unfoldable pub insert : String → V → Assoc V → Assoc V
  insert k v [] = (k, v) ∷ []
  insert k v ((j, w) ∷ m) = if str_eq j k then (j, v) ∷ m else (j, w) ∷ insert k v m

  -- `delete(m, k)`.
  unfoldable pub delete : String → Assoc V → Assoc V
  delete k [] = []
  delete k ((j, w) ∷ m) = if str_eq j k then delete k m else (j, w) ∷ delete k m

  -- Dropping the entries that fail a test, in a `for … range` with `delete`.
  unfoldable pub retain : (String → V → Bool) → Assoc V → Assoc V
  retain p [] = []
  retain p ((j, w) ∷ m) = if p j w then (j, w) ∷ retain p m else retain p m

  unfoldable pub member : String → Assoc V → Bool
  member k m = is_some (lookup k m)

  -- `m[k]` with its zero value.
  unfoldable pub lookup_or : String → V → Assoc V → V
  lookup_or k d m = elim (lookup k m) [ none ↦ d | some v ↦ v ]

module _ {ℓ} {V : Type ℓ} where
  pub lookup-insert :
      (k j : String) (v : V) (m : Assoc V)
      → lookup j (insert k v m) ≡ (if str_eq k j then some v else lookup j m)
  unfolding lookup insert
  lookup-insert key other v [] = refl
  lookup-insert key other v ((head, w) ∷ rest) =
      let later = lookup-insert key other v rest in
      ground (arith, later, eq_iff head key, eq_iff head other, eq_iff key other)

  pub lookup-delete :
      (k j : String) (m : Assoc V)
      → lookup j (delete k m) ≡ (if str_eq k j then none else lookup j m)
  unfolding lookup delete
  lookup-delete k j [] = ground arith
  lookup-delete k j ((i, w) ∷ m) =
      ground (arith, eq_iff k j, eq_iff i k, eq_iff i j, lookup-delete k j m)

  pub lookup-insert_self : (k : String) (v : V) (m : Assoc V) → lookup k (insert k v m) ≡ some v
  lookup-insert_self k v m = rw (lookup-insert k k v m, str_eq_refl k)

  pub lookup-delete_self : (k : String) (m : Assoc V) → lookup k (delete k m) ≡ none
  lookup-delete_self k m = rw (lookup-delete k k m, str_eq_refl k)

  pub lookup_or-insert_self :
      (k : String) (d v : V) (m : Assoc V) → lookup_or k d (insert k v m) ≡ v
  unfolding lookup_or
  lookup_or-insert_self k d v m = rw (lookup-insert_self k v m, lookup_or)

  pub lookup_or-insert_ne :
      (k j : String) (d v : V) (m : Assoc V)
      → k ≢ j
      → lookup_or j d (insert k v m) ≡ lookup_or j d m
  unfolding lookup_or
  lookup_or-insert_ne k j d v m h = ground (arith, eq_iff k j, lookup-insert k j v m)

  pub lookup_or-some :
      (k : String) (d v : V) (m : Assoc V) → lookup k m ≡ some v → lookup_or k d m ≡ v
  unfolding lookup_or
  lookup_or-some k d v m h = rw (h, lookup_or)
