-- ===== src/Router/Jev/Tiers.antt =====
-- The indices that the tier searches of router/jev.go give.
use llm_api_router.Prelude.{
  ℕ, zero, suc, ◌+◌, ◌<◌, ℤ, pos, negsuc, ◌≤ℤ◌, ◌<ℤ◌, ◌≡◌, refl, sym, ap, subst, true, ◌||◌, [],
  ◌∷◌, arith, length, ltb→lt, leb→le, ltb_ℤ, leb_ℤ, eqb_ℤ, Bool-cases, ◌⊎◌, inl, inr,
}
use llm_api_router.Domain.Rule.{JevCandidate}
use llm_api_router.Router.Jev.{
  Pool, tier_at, nearer, distance, higher, tier_index_from, jev_tier_index, no_tier, highest_from,
  jev_nearest_index,
}

nearer-cases :
    (i : ℕ) (d : ℤ) (best : ℕ × ℤ) → (nearer i d best ≡ (i, d)) ⊎ (nearer i d best ≡ best)
unfolding nearer
nearer-cases i d best = elim (Bool-cases (ltb_ℤ best.1 (pos 0) || ltb_ℤ d best.1)) [
  | inl e ↦ inl (rw (nearer, e) refl)
  | inr e ↦ inr (rw (nearer, e) refl)
]

tier_index_from-lt :
    (cs : Pool) (i : ℕ) (best : ℕ × ℤ) (t : ℤ)
    → best.0 < i + length cs
    → tier_index_from i best cs t < i + length cs
unfolding tier_index_from
tier_index_from-lt [] i best t h = h
tier_index_from-lt (c ∷ cs) i best t h =
    let next = nearer i (distance c.tier t) best in
    let within : next.0 < suc i + length cs = elim (nearer-cases i (distance c.tier t) best) [
      | inl e ↦ omega (arith, ap (λ (p : ℕ × ℤ). p.0) e)
      | inr e ↦ omega (arith, h, ap (λ (p : ℕ × ℤ). p.0) e)
    ] in
    let rest = tier_index_from-lt cs (suc i) next t within in
    elim (Bool-cases (eqb_ℤ c.tier t)) [
      | inl e ↦ rw (tier_index_from, e) (omega arith)
      | inr e ↦ rw (tier_index_from, e) (omega (arith, rest))
    ]

-- The candidate found in a pool is one of it.
pub jev_tier_index-lt :
    (pool : Pool) (t : ℤ) → 0 < length pool → jev_tier_index pool t < length pool
unfolding jev_tier_index
jev_tier_index-lt pool t h =
    omega (arith, tier_index_from-lt pool 0 (0, negsuc 0) t (omega (arith, h)))

higher-cases :
    (i : ℕ) (tier ceiling : ℤ) (best : ℕ × ℤ)
    → ((tier ≤ℤ ceiling) × (best.1 <ℤ tier) × (higher i tier ceiling best ≡ (i, tier)))
      ⊎ (((ceiling <ℤ tier) ⊎ (tier ≤ℤ best.1)) × (higher i tier ceiling best ≡ best))
unfolding higher
higher-cases i tier ceiling best = elim (Bool-cases (leb_ℤ tier ceiling)) [
  | inl e ↦ elim (Bool-cases (ltb_ℤ best.1 tier)) [
    | inl f ↦ inl (leb→le _ _ e, ltb→lt _ _ f, rw (higher, e, f) refl)
    | inr f ↦ inr (inr (ground (arith, f)), rw (higher, e, f) refl)
  ]
  | inr e ↦ inr (inl (ground (arith, e)), rw (higher, e) refl)
]

-- What holds of the best candidate so far: its tier is the one noted, or none was found.
abbrev pub Noted : Pool → ℕ × ℤ → Type 0
Noted pool best = (best.1 ≡ no_tier) ⊎ (tier_at pool best.0 ≡ best.1) × (best.0 < length pool)

-- A list is the end of a pool, from an index on.
abbrev EndOf : Pool → ℕ → Pool → Type 0
EndOf pool i cs =
    (k : ℕ) → k < length cs → (tier_at pool (i + k) ≡ tier_at cs k) × (i + k < length pool)

end_suc :
    (pool : Pool) (i : ℕ) (c : JevCandidate) (cs : Pool)
    → EndOf pool i (c ∷ cs)
    → EndOf pool (suc i) cs
unfolding tier_at
end_suc pool i c cs at k h =
    let e : i + suc k ≡ suc i + k = omega arith in
    subst (λ n. (tier_at pool n ≡ tier_at cs k) × (n < length pool)) e
      (at (suc k) (omega (arith, h)))

highest_from-Noted :
    (pool cs : Pool) (i : ℕ) (best : ℕ × ℤ) (ceiling : ℤ)
    → EndOf pool i cs
    → Noted pool best
    → Noted pool (highest_from i best cs ceiling)
unfolding highest_from tier_at
highest_from-Noted pool [] i best ceiling at h = h
highest_from-Noted pool (c ∷ cs) i best ceiling at h =
    let e : i + 0 ≡ i = omega arith in
    let here = subst (λ n. (tier_at pool n ≡ c.tier) × (n < length pool)) e (at 0 (omega arith)) in
    highest_from-Noted pool cs (suc i) (higher i c.tier ceiling best) ceiling
      (end_suc pool i c cs at)
      (elim (higher-cases i c.tier ceiling best) [
        | inl (_, _, taken) ↦ subst (Noted pool) (sym taken) (inr here)
        | inr (_, kept) ↦ subst (Noted pool) (sym kept) h
      ])

le_trans : (a b c : ℤ) → a ≤ℤ b → b ≤ℤ c → a ≤ℤ c
le_trans a b c h k = omega (arith, h, k)

-- One step never lowers the tier, takes none above the ceiling, and misses none below it.
module _ (i : ℕ) (tier ceiling : ℤ) (best : ℕ × ℤ) where
  higher-le : best.1 ≤ℤ (higher i tier ceiling best).1
  higher-le = elim (higher-cases i tier ceiling best) [
    | inl (_, up, taken) ↦ subst (λ (p : ℕ × ℤ). best.1 ≤ℤ p.1) (sym taken) (omega (arith, up))
    | inr (_, kept) ↦ subst (λ (p : ℕ × ℤ). best.1 ≤ℤ p.1) (sym kept) (omega arith)
  ]

  higher-ceiling : best.1 ≤ℤ ceiling → (higher i tier ceiling best).1 ≤ℤ ceiling
  higher-ceiling h = elim (higher-cases i tier ceiling best) [
    | inl (low, _, taken) ↦ subst (λ (p : ℕ × ℤ). p.1 ≤ℤ ceiling) (sym taken) low
    | inr (_, kept) ↦ subst (λ (p : ℕ × ℤ). p.1 ≤ℤ ceiling) (sym kept) h
  ]

  higher-tier : tier ≤ℤ ceiling → tier ≤ℤ (higher i tier ceiling best).1
  higher-tier h = elim (higher-cases i tier ceiling best) [
    | inl (_, _, taken) ↦ subst (λ (p : ℕ × ℤ). tier ≤ℤ p.1) (sym taken) (omega arith)
    | inr (inl above, kept) ↦ ground (arith, above, h)
    | inr (inr below, kept) ↦ subst (λ (p : ℕ × ℤ). tier ≤ℤ p.1) (sym kept) below
  ]

-- The tier found is not below where the search began.
highest_from-le :
    (cs : Pool) (i : ℕ) (best : ℕ × ℤ) (ceiling : ℤ) → best.1 ≤ℤ (highest_from i best cs ceiling).1
unfolding highest_from
highest_from-le [] i best ceiling = omega arith
highest_from-le (c ∷ cs) i best ceiling =
    let next = higher i c.tier ceiling best in
    le_trans best.1 next.1 (highest_from (suc i) next cs ceiling).1
      (higher-le i c.tier ceiling best) (highest_from-le cs (suc i) next ceiling)

-- It is not above the ceiling.
highest_from-ceiling :
    (cs : Pool) (i : ℕ) (best : ℕ × ℤ) (ceiling : ℤ)
    → best.1 ≤ℤ ceiling
    → (highest_from i best cs ceiling).1 ≤ℤ ceiling
unfolding highest_from
highest_from-ceiling [] i best ceiling h = h
highest_from-ceiling (c ∷ cs) i best ceiling h =
    highest_from-ceiling cs (suc i) (higher i c.tier ceiling best) ceiling
      (higher-ceiling i c.tier ceiling best h)

-- It is not below a candidate that is at or below the ceiling.
highest_from-best :
    (cs : Pool) (i : ℕ) (best : ℕ × ℤ) (ceiling : ℤ) (k : ℕ)
    → k < length cs
    → tier_at cs k ≤ℤ ceiling
    → tier_at cs k ≤ℤ (highest_from i best cs ceiling).1
unfolding highest_from tier_at
highest_from-best [] i best ceiling k h g = ground (arith, h)
highest_from-best (c ∷ cs) i best ceiling zero h g =
    let next = higher i c.tier ceiling best in
    le_trans c.tier next.1 (highest_from (suc i) next cs ceiling).1
      (higher-tier i c.tier ceiling best g) (highest_from-le cs (suc i) next ceiling)
highest_from-best (c ∷ cs) i best ceiling (suc k) h g =
    highest_from-best cs (suc i) (higher i c.tier ceiling best) ceiling k (omega (arith, h)) g

-- With a candidate at or below the ceiling, the one found is no lower than it, and no higher than
-- the ceiling.
pub jev_nearest_index-within :
    (pool : Pool) (ceiling : ℤ) (k : ℕ)
    → k < length pool
    → tier_at pool k ≤ℤ ceiling
    → no_tier <ℤ tier_at pool k
    → (tier_at pool k ≤ℤ tier_at pool (jev_nearest_index pool ceiling))
      × (tier_at pool (jev_nearest_index pool ceiling) ≤ℤ ceiling)
      × (jev_nearest_index pool ceiling < length pool)
unfolding jev_nearest_index
jev_nearest_index-within pool ceiling k h low fits =
    let start : ℕ × ℤ = (0, no_tier) in
    let found = highest_from 0 start pool ceiling in
    let up = highest_from-best pool 0 start ceiling k h low in
    let capped = highest_from-ceiling pool 0 start ceiling (omega (arith, low, fits)) in
    let noted =
      highest_from-Noted pool pool 0 start ceiling
        (λ k h. let e : 0 + k ≡ k = omega arith in (ap (tier_at pool) e, omega (arith, h)))
        (inl refl) in
    let taken : ltb_ℤ no_tier found.1 ≡ true = ground (arith, up, fits) in
    elim noted [
      | inl e ↦ ground (arith, e, taken)
      | inr (e, within) ↦
          rw (jev_nearest_index, taken)
            (
              subst (λ t. tier_at pool k ≤ℤ t) (sym e) up,
              subst (λ t. t ≤ℤ ceiling) (sym e) capped,
              within,
            )
    ]

-- The candidate found below a ceiling is one of the pool.
pub jev_nearest_index-lt :
    (pool : Pool) (ceiling : ℤ) → 0 < length pool → jev_nearest_index pool ceiling < length pool
unfolding jev_nearest_index
jev_nearest_index-lt pool ceiling h =
    let start : ℕ × ℤ = (0, no_tier) in
    let found = highest_from 0 start pool ceiling in
    let noted =
      highest_from-Noted pool pool 0 start ceiling
        (λ k h. let e : 0 + k ≡ k = omega arith in (ap (tier_at pool) e, omega (arith, h)))
        (inl refl) in
    elim (Bool-cases (ltb_ℤ no_tier found.1)) [
      | inl e ↦
          rw (jev_nearest_index, e)
            (elim noted [ inl f ↦ ground (arith, e, f) | inr (_, within) ↦ within ])
      | inr e ↦ rw (jev_nearest_index, e) (jev_tier_index-lt pool ceiling h)
    ]
