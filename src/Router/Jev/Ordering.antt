-- ===== src/Router/Jev/Ordering.antt =====
-- The order in which a jev rule tries its pool.
use mathlib.Core.List.{Perm}
use mathlib.Core.List.Perm
use llm_api_router.Prelude.{
  ℕ, suc, ◌+◌, ◌≤◌, ◌<◌, ◌≡◌, refl, sym, ap, subst, Bool, true, false, not, List, [], ◌∷◌, ◌++◌,
  arith, length, select, ◌==◌, ==_iff, All, All-imply, ltb_ℤ, leb_ℤ, Bool-cases, inl, inr,
}
use llm_api_router.Prelude.Sort.{
  stable_sort-perm, stable_sort-IsSorted, stable_sort-All, Ordered, IsSorted-Ordered, IsOrder,
}
use llm_api_router.Router.Jev.{Pool, tier_at}
use llm_api_router.Router.Jev.Attempts.{
  indices_from, is_up, others, weaker_first, stronger_first, ups, downs, jev_order,
}

weaker_first-IsOrder : (pool : Pool) → IsOrder (weaker_first pool)
weaker_first-IsOrder pool = record {
  asym = λ a b h. ground (arith, h);
  not_less_trans = λ a b c h k. ground (arith, h, k);
}

stronger_first-IsOrder : (pool : Pool) → IsOrder (stronger_first pool)
stronger_first-IsOrder pool = record {
  asym = λ a b h. ground (arith, h);
  not_less_trans = λ a b c h k. ground (arith, h, k);
}

perm_middle {ℓ} : {A : Type ℓ} (x : A) (as_ bs : List A) → Perm (x ∷ as_ ++ bs) (as_ ++ x ∷ bs)
perm_middle x [] bs = Perm.refl (x ∷ bs)
perm_middle x (a ∷ as_) bs =
    Perm.trans (Perm.swap a x (as_ ++ bs)) (Perm.cons a (perm_middle x as_ bs))

-- A list is, in another order, what passes a test and what does not.
select-perm {ℓ} :
    {A : Type ℓ} (p : A → Bool) (xs : List A) → Perm xs (select p xs ++ select (λ x. not (p x)) xs)
select-perm p [] = Perm.refl []
select-perm p (x ∷ xs) =
    let rest = select-perm p xs in
    let no = select (λ y. not (p y)) xs in
    elim (Bool-cases (p x)) [
      | inl e ↦ rw (e) (Perm.cons x rest)
      | inr e ↦ rw (e) (Perm.trans (Perm.cons x rest) (perm_middle x (select p xs) no))
    ]

-- The choice is one of the indices, once.
others-all :
    (pool : Pool) (i c : ℕ)
    → c < i
    → select (λ k. not (k == c)) (indices_from i pool) ≡ indices_from i pool
unfolding indices_from
others-all [] i c h = refl
others-all (x ∷ pool) i c h =
    let other : (i == c) ≡ false = ground (arith, h) in
    rw (other) (ap (λ l. i ∷ l) (others-all pool (suc i) c (omega (arith, h))))

indices-perm :
    (pool : Pool) (i c : ℕ)
    → i ≤ c
    → c < i + length pool
    → Perm (indices_from i pool) (c ∷ select (λ k. not (k == c)) (indices_from i pool))
unfolding indices_from
indices-perm [] i c h k = ground (arith, h, k)
indices-perm (x ∷ pool) i c h k =
    let rest = select (λ n. not (n == c)) (indices_from (suc i) pool) in
    elim (Bool-cases (i == c)) [
      | inl e ↦
          let same = (==_iff i c).0 e in
          rw (e) (
            subst (λ l. Perm (i ∷ indices_from (suc i) pool) (c ∷ l))
              (sym (others-all pool (suc i) c (omega (arith, same))))
              (subst (λ n. Perm (i ∷ indices_from (suc i) pool) (n ∷ indices_from (suc i) pool))
                same (Perm.refl (i ∷ indices_from (suc i) pool))))
      | inr e ↦
          let later : i < c = ground (arith, e, h) in
          rw (e) (
            Perm.trans
              (Perm.cons i (indices-perm pool (suc i) c (omega (arith, later)) (omega (arith, k))))
              (Perm.swap c i rest))
    ]

select-All {ℓ} : {A : Type ℓ} (p : A → Bool) (xs : List A) → All (λ x. p x ≡ true) (select p xs)
select-All p [] = tt
select-All p (x ∷ xs) = ground (arith, select-All p xs)

-- The first of two candidates has at most the tier of the second.
abbrev pub AtMost : Pool → ℕ → ℕ → Type 0
AtMost pool a b = leb_ℤ (tier_at pool a) (tier_at pool b) ≡ true

abbrev pub AtLeast : Pool → ℕ → ℕ → Type 0
AtLeast pool a b = leb_ℤ (tier_at pool b) (tier_at pool a) ≡ true

weaker_first-AtMost : (pool : Pool) (a b : ℕ) → weaker_first pool b a ≡ false → AtMost pool a b
weaker_first-AtMost pool a b h = ground (arith, h)

stronger_first-AtLeast :
    (pool : Pool) (a b : ℕ) → stronger_first pool b a ≡ false → AtLeast pool a b
stronger_first-AtLeast pool a b h = ground (arith, h)

not_up-AtLeast : (pool : Pool) (c i : ℕ) → not (is_up pool c i) ≡ true → AtLeast pool c i
not_up-AtLeast pool c i h = ground (arith, h)

-- A choice, then candidates of a higher tier from the lowest up, then others from the highest down.
abbrev pub IsFromChoice : Pool → ℕ → List ℕ → Type 0
IsFromChoice pool c order =
    (higher : List ℕ) × (lower : List ℕ) × (order ≡ c ∷ higher ++ lower)
    × (All (λ i. ltb_ℤ (tier_at pool c) (tier_at pool i) ≡ true) higher
        × Ordered (AtMost pool) higher)
    × (All (AtLeast pool c) lower × Ordered (AtLeast pool) lower)

-- From a choice in the pool, every candidate is tried, each once: first the choice, then those of
-- a higher tier from the lowest up, and then the others from the highest down.
pub jev_order-perm :
    (pool : Pool) (c : ℕ)
    → c < length pool
    → Perm (indices_from 0 pool) (jev_order pool c) × IsFromChoice pool c (jev_order pool c)
unfolding jev_order ups downs others
jev_order-perm pool c h =
    let rest = others pool c in
    let up = select (is_up pool c) rest in
    let down = select (λ i. not (is_up pool c i)) rest in
    let lower = downs pool c in
    (
      Perm.trans (indices-perm pool 0 c (omega arith) (omega (arith, h))) (
          Perm.cons c (
            Perm.trans (select-perm (is_up pool c) rest) (
              Perm.trans (Perm.append_right down (stable_sort-perm (weaker_first pool) up))
                (Perm.append_left (ups pool c) (stable_sort-perm (stronger_first pool) down))))),
      (
        ups pool c,
        lower,
        refl,
        (
          stable_sort-All (weaker_first pool) (λ i. is_up pool c i ≡ true) up
              (select-All (is_up pool c) rest),
          IsSorted-Ordered (weaker_first pool) (AtMost pool) (weaker_first-AtMost pool) (ups pool c)
              (stable_sort-IsSorted (weaker_first pool) (weaker_first-IsOrder pool) up),
        ),
        (
          All-imply (λ i. not (is_up pool c i) ≡ true) (AtLeast pool c) (not_up-AtLeast pool c)
              lower
              (stable_sort-All (stronger_first pool) (λ i. not (is_up pool c i) ≡ true) down
                (select-All (λ i. not (is_up pool c i)) rest)),
          IsSorted-Ordered (stronger_first pool) (AtLeast pool) (stronger_first-AtLeast pool) lower
              (stable_sort-IsSorted (stronger_first pool) (stronger_first-IsOrder pool) down),
        ),
      ),
    )
