-- ===== src/Prelude/Places.antt =====
-- Where a test first holds in a list, under appending, changing and erasing elements.
use Prim.Native.Nat.{ℕ, zero, suc, ◌+◌}
use mathlib.Core.Path.{◌≡◌, refl}
use mathlib.Core.Bool.{Bool, true, false}
use mathlib.Core.Logic.{inl, inr}
use mathlib.Core.List.{List, [], ◌∷◌, ◌++◌}
use mathlib.Core.Option.{some}
use native.Mathlib.Omega.{arith}
use llm_api_router.Prelude.Tests.{Bool-cases, Option-cases, is_some}
use llm_api_router.Prelude.Lists.{All, length, modify, erase_idx, find_idx?}

pub find_idx?-append {ℓ} :
    {A : Type ℓ} (f : A → Bool) (xs ys : List A)
    → is_some (find_idx? f xs) ≡ true
    → is_some (find_idx? f (xs ++ ys)) ≡ true
find_idx?-append f [] ys h = cc
find_idx?-append f (x ∷ xs) ys h = elim (Bool-cases (f x)) [
  | inl hit ↦ rw hit
  | inr miss ↦
      let tail : is_some (find_idx? f xs) ≡ true = ground (arith, h, miss) in
      ground (arith, miss, find_idx?-append f xs ys tail)
]

pub find_idx?-modify {ℓ} :
    {A : Type ℓ} (f : A → Bool) (g : A → A) (xs : List A) (i : ℕ)
    → ((x : A) → f (g x) ≡ f x)
    → find_idx? f (modify g xs i) ≡ find_idx? f xs
find_idx?-modify f g [] i h = refl
find_idx?-modify f g (x ∷ xs) zero h = rw (h x)
find_idx?-modify f g (x ∷ xs) (suc i) h = rw (find_idx?-modify f g xs i h)

pub All-erase_idx {ℓ κ} :
    {A : Type ℓ} (P : A → Type κ) (xs : List A) (i : ℕ) → All P xs → All P (erase_idx xs i)
All-erase_idx P [] i _ = tt
All-erase_idx P (x ∷ xs) zero (h, k) = k
All-erase_idx P (x ∷ xs) (suc i) (h, k) = (h, All-erase_idx P xs i k)

-- What one test finds is still found when what another found is erased.
pub find_idx?-erase_idx {ℓ} :
    {A : Type ℓ} (f g : A → Bool) (xs : List A) {i : ℕ}
    → ((x : A) → f x ≡ true → g x ≡ false)
    → find_idx? f xs ≡ some i
    → is_some (find_idx? g xs) ≡ true
    → is_some (find_idx? g (erase_idx xs i)) ≡ true
find_idx?-erase_idx f g [] h e k = cc
find_idx?-erase_idx f g (x ∷ xs) {i} h e k = elim (Bool-cases (f x)) [
  | inl hit ↦ let z : i ≡ 0 = ground (arith, e, hit) in rw z (ground (arith, k, h x hit))
  | inr miss ↦ elim (Option-cases (find_idx? f xs)) [
    | inl absent ↦ ground (arith, e, miss, absent)
    | inr (j, found) ↦
        let z : i ≡ suc j = ground (arith, e, miss, found) in
        rw z (elim (Bool-cases (g x)) [
          | inl here ↦ rw here
          | inr there ↦
              let rest : is_some (find_idx? g xs) ≡ true = ground (arith, k, there) in
              ground (arith, there, find_idx?-erase_idx f g xs h found rest)
        ])
  ]
]

pub length-erase_idx {ℓ} :
    {A : Type ℓ} (f : A → Bool) (xs : List A) {i : ℕ}
    → find_idx? f xs ≡ some i
    → length (erase_idx xs i) + 1 ≡ length xs
length-erase_idx f [] e = cc
length-erase_idx f (x ∷ xs) {i} e = elim (Bool-cases (f x)) [
  | inl hit ↦ let z : i ≡ 0 = ground (arith, e, hit) in rw z (omega arith)
  | inr miss ↦ elim (Option-cases (find_idx? f xs)) [
    | inl absent ↦ ground (arith, e, miss, absent)
    | inr (j, found) ↦
        let z : i ≡ suc j = ground (arith, e, miss, found) in
        rw z (omega (arith, length-erase_idx f xs found))
  ]
]
