-- ===== src/Prelude/Sort.antt =====
-- `sort.SliceStable`: insertion sort by a strict order, which keeps the order of ties.
use mathlib.Core.Path.{◌≡◌, refl}
use mathlib.Core.Logic.{inl, inr}
use mathlib.Core.Bool.{Bool, true, false}
use mathlib.Core.List.{List, [], ◌∷◌, Perm}
use mathlib.Core.List.Perm
use native.Mathlib.Omega.{arith}
use llm_api_router.Prelude.Tests.{if◌then◌else◌, Bool-cases}
use llm_api_router.Prelude.Lists.{All, All-imply, select}

module _ {ℓ} {A : Type ℓ} (less : A → A → Bool) where
  -- `x` stood before every element of the list, so it goes behind those that are less than it.
  unfoldable pub insert_sorted : A → List A → List A
  insert_sorted x [] = x ∷ []
  insert_sorted x (y ∷ ys) = if less y x then y ∷ insert_sorted x ys else x ∷ y ∷ ys

  unfoldable pub stable_sort : List A → List A
  unfolding insert_sorted
  stable_sort [] = []
  stable_sort (x ∷ xs) = insert_sorted x (stable_sort xs)

module _ {ℓ} {A : Type ℓ} (less : A → A → Bool) where
  insert_sorted-perm : (x : A) (ys : List A) → Perm (x ∷ ys) (insert_sorted less x ys)
  unfolding insert_sorted
  insert_sorted-perm x [] = Perm.refl (x ∷ [])
  insert_sorted-perm x (y ∷ ys) = elim (Bool-cases (less y x)) [
    | inl h ↦ rw h (Perm.trans (Perm.swap y x ys) (Perm.cons y (insert_sorted-perm x ys)))
    | inr h ↦ rw h (Perm.refl _)
  ]

  -- The sorted list holds the same elements.
  pub stable_sort-perm : (xs : List A) → Perm xs (stable_sort less xs)
  unfolding stable_sort
  stable_sort-perm [] = Perm.refl []
  stable_sort-perm (x ∷ xs) =
      Perm.trans (Perm.cons x (stable_sort-perm xs)) (insert_sorted-perm x (stable_sort less xs))

  -- No element is less than one that stands before it.
  abbrev pub IsSorted : List A → Type 0
  IsSorted [] = Unit
  IsSorted (x ∷ xs) = All (λ y. less y x ≡ false) xs × IsSorted xs

  insert_sorted-All {κ} :
      (P : A → Type κ) (x : A) (ys : List A) → P x → All P ys → All P (insert_sorted less x ys)
  unfolding insert_sorted
  insert_sorted-All P x [] p _ = (p, tt)
  insert_sorted-All P x (y ∷ ys) p (q, h) = ground (arith, insert_sorted-All P x ys p h)

module _ {ℓ κ} {A : Type ℓ} (less : A → A → Bool) (P : A → Type κ) where
  pub stable_sort-All : (xs : List A) → All P xs → All P (stable_sort less xs)
  unfolding stable_sort
  stable_sort-All [] h = tt
  stable_sort-All (x ∷ xs) (p, h) =
      insert_sorted-All less P x (stable_sort less xs) p (stable_sort-All xs h)

-- Every element is related to all that stand after it.
abbrev pub Ordered {ℓ} : {A : Type ℓ} → (A → A → Type 0) → List A → Type 0
Ordered R [] = Unit
Ordered R (x ∷ xs) = All (R x) xs × Ordered R xs

pub IsSorted-Ordered {ℓ} :
    {A : Type ℓ} (less : A → A → Bool) (R : A → A → Type 0)
    → ((x y : A) → less y x ≡ false → R x y)
    → (xs : List A) → IsSorted less xs
    → Ordered R xs
IsSorted-Ordered less R f [] h = tt
IsSorted-Ordered less R f (x ∷ xs) (p, h) =
    (All-imply (λ y. less y x ≡ false) (R x) (f x) xs p, IsSorted-Ordered less R f xs h)

-- What Go asks of a `less` function: it is asymmetric, and "not less" is transitive.
pub record IsOrder {ℓ} {A : Type ℓ} (less : A → A → Bool) : Type ℓ where
  pub asym : (a b : A) → less a b ≡ true → less b a ≡ false
  pub not_less_trans : (a b c : A) → less b a ≡ false → less c b ≡ false → less c a ≡ false

module _ {ℓ} {A : Type ℓ} (less : A → A → Bool) (o : IsOrder less) where
  weaken :
      (x y : A) (ys : List A)
      → less y x ≡ false
      → All (λ z. less z y ≡ false) ys
      → All (λ z. less z x ≡ false) ys
  weaken x y [] h _ = tt
  weaken x y (z ∷ ys) h (q, k) = (o.not_less_trans x y z h q, weaken x y ys h k)

  insert_sorted-IsSorted :
      (x : A) (ys : List A) → IsSorted less ys → IsSorted less (insert_sorted less x ys)
  unfolding insert_sorted
  insert_sorted-IsSorted x [] _ = (tt, tt)
  insert_sorted-IsSorted x (y ∷ ys) (q, h) = elim (Bool-cases (less y x)) [
    | inl e ↦ rw e (
      insert_sorted-All less (λ z. less z y ≡ false) x ys (o.asym y x e) q,
      insert_sorted-IsSorted x ys h,
    )
    | inr e ↦ rw e ((e, weaken x y ys e q), (q, h))
  ]

  -- The result is in order.
  pub stable_sort-IsSorted : (xs : List A) → IsSorted less (stable_sort less xs)
  unfolding stable_sort
  stable_sort-IsSorted [] = tt
  stable_sort-IsSorted (x ∷ xs) =
      insert_sorted-IsSorted x (stable_sort less xs) (stable_sort-IsSorted xs)

-- Elements none of which is less than another keep the order that they had.
module _ {ℓ} {A : Type ℓ} (less : A → A → Bool) (p : A → Bool)
    (tie : (a b : A) → p a ≡ true → p b ≡ true → less a b ≡ false) where
  select-insert_sorted :
      (x : A) (ys : List A) → select p (insert_sorted less x ys) ≡ select p (x ∷ ys)
  unfolding insert_sorted
  select-insert_sorted x [] = refl
  select-insert_sorted x (y ∷ ys) = ground (arith, select-insert_sorted x ys, tie y x)

  pub select-stable_sort : (xs : List A) → select p (stable_sort less xs) ≡ select p xs
  unfolding stable_sort
  select-stable_sort [] = refl
  select-stable_sort (x ∷ xs) =
      ground (arith, select-insert_sorted x (stable_sort less xs), select-stable_sort xs)
