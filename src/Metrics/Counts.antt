-- ===== src/Metrics/Counts.antt =====
-- Counts, sums and histograms of a list that grows at its end.
use llm_api_router.Prelude.{
  ℕ, suc, ◌+◌, ◌≡◌, ap, ◌∙◌, refl, Bool, true, List, [], ◌∷◌, ◌++◌, arith, leb, ltb, if◌then◌else◌,
}
use llm_api_router.Domain.Metric.{bump_buckets}

module _ {ℓ} {A : Type ℓ} where
  abbrev pub how_many : (A → Bool) → List A → ℕ
  how_many p [] = 0
  how_many p (x ∷ xs) = if p x then suc (how_many p xs) else how_many p xs

  abbrev pub sum_of : (A → ℕ) → List A → ℕ
  sum_of f [] = 0
  sum_of f (x ∷ xs) = f x + sum_of f xs

  abbrev pub peak_of : (A → ℕ) → List A → ℕ
  peak_of f [] = 0
  peak_of f (x ∷ xs) = if ltb (peak_of f xs) (f x) then f x else peak_of f xs

  pub how_many-snoc :
      (p : A → Bool) (xs : List A) (x : A)
      → how_many p (xs ++ x ∷ []) ≡ (if p x then how_many p xs + 1 else how_many p xs)
  how_many-snoc p [] x = ground arith
  how_many-snoc p (y ∷ xs) x = let later = how_many-snoc p xs x in ground (arith, later)

  pub sum_of-snoc : (f : A → ℕ) (xs : List A) (x : A) → sum_of f (xs ++ x ∷ []) ≡ sum_of f xs + f x
  sum_of-snoc f [] x = omega arith
  sum_of-snoc f (y ∷ xs) x = let later = sum_of-snoc f xs x in omega (arith, later)

  pub peak_of-snoc :
      (f : A → ℕ) (xs : List A) (x : A)
      → peak_of f (xs ++ x ∷ []) ≡ (if ltb (peak_of f xs) (f x) then f x else peak_of f xs)
  peak_of-snoc f [] x = refl
  peak_of-snoc f (y ∷ xs) x = let later = peak_of-snoc f xs x in ground (arith, later)

  -- How many of a list are within each bound, and, last, how many there are.
  abbrev pub histogram : (A → ℕ) → List ℕ → List A → List ℕ
  histogram f [] xs = how_many (λ _. true) xs ∷ []
  histogram f (bound ∷ bounds) xs = how_many (λ x. leb (f x) bound) xs ∷ histogram f bounds xs

module _ {ℓ} {A : Type ℓ} (f : A → ℕ) where
  -- One round over the slots counts one more element.
  pub bump_buckets-histogram :
      (bounds : List ℕ) (xs : List A) (x : A)
      → bump_buckets bounds (histogram f bounds xs) (f x) ≡ histogram f bounds (xs ++ x ∷ [])
  unfolding bump_buckets
  bump_buckets-histogram [] xs x =
      let more : suc (how_many (λ _. true) xs) ≡ how_many (λ _. true) (xs ++ x ∷ []) =
        omega (arith, how_many-snoc (λ _. true) xs x) in
      ap (λ n. n ∷ []) more
  bump_buckets-histogram (bound ∷ bounds) xs x =
      let within : A → Bool = λ y. leb (f y) bound in
      let more : (if within x then suc (how_many within xs) else how_many within xs)
          ≡ how_many within (xs ++ x ∷ []) =
        ground (arith, how_many-snoc within xs x) in
      ap (λ n. n ∷ bump_buckets bounds (histogram f bounds xs) (f x)) more
      ∙ ap (λ l. how_many within (xs ++ x ∷ []) ∷ l) (bump_buckets-histogram bounds xs x)
