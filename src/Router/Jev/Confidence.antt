-- ===== src/Router/Jev/Confidence.antt =====
-- An unsure decision stays at the default tier or goes one up.
use llm_api_router.Prelude.{
  ℕ, suc, ◌+◌, ◌<◌, ℤ, pos, ◌≤ℤ◌, ◌<ℤ◌, ◌+ℤ◌, InInt64, ◌≡◌, sym, ap, subst, Bool, true, false, some,
  arith, length, ltb_ℤ, add64, add64_exact, +ℤ_parts, max_int64, if◌then◌else◌, Bool-cases, inl,
  inr, pos_part, neg_part,
}
use llm_api_router.Domain.Rule.{JevRouter}
use llm_api_router.Router.Jev.{JevOutcome, Pool, tier_at, jev_tier_index, no_tier}
use llm_api_router.Router.Jev.Clamp.{
  Choice, clamp_unsure, is_unsure, clamp_confidence, clamp_context, settle,
}
use llm_api_router.Router.Jev.Tiers.{jev_tier_index-lt, jev_nearest_index-within}

-- A tier that `jevNearestIndex` tells from none, and that the next tier does not overflow.
abbrev pub Fits : ℤ → Type 0
Fits t = (no_tier <ℤ t) × (t <ℤ max_int64)

abbrev pub above_one : ℤ → ℤ
above_one t = add64 t (pos 1)

next-InInt64 : (t : ℤ) → Fits t → InInt64 (t +ℤ pos 1)
unfolding ◌+ℤ◌
next-InInt64 (ℤ.pos n) (low, high) = ground (arith, high)
next-InInt64 (ℤ.negsuc n) (low, high) = ground (arith, low)

above_one-parts :
    (t : ℤ)
    → Fits t
    → pos_part (above_one t) + neg_part t ≡ suc (neg_part (above_one t) + pos_part t)
above_one-parts t f =
    let e = add64_exact t (pos 1) (next-InInt64 t f) in
    subst (λ u. pos_part u + neg_part t ≡ suc (neg_part u + pos_part t)) (sym e)
      (omega (arith, +ℤ_parts t (pos 1)))

-- Between the default tier and the next.
abbrev pub Near : Pool → ℕ → ℕ → Type 0
Near pool def c =
    (tier_at pool def ≤ℤ tier_at pool c)
    × (tier_at pool c ≤ℤ above_one (tier_at pool def))
    × (c < length pool)

clamp_unsure-Near :
    (pool : Pool) (def c : ℕ) (out : JevOutcome)
    → def < length pool
    → c < length pool
    → Fits (tier_at pool def)
    → Near pool def (clamp_unsure pool def c out).0
unfolding clamp_unsure
clamp_unsure-Near pool def c out h k f =
    let t = tier_at pool def in
    let step = above_one-parts t f in
    elim (Bool-cases (ltb_ℤ (tier_at pool c) t)) [
      | inl e ↦ rw (clamp_unsure, e) (omega arith, omega (arith, step), h)
      | inr e ↦ elim (Bool-cases (ltb_ℤ (above_one t) (tier_at pool c))) [
        | inl g ↦
            rw (clamp_unsure, e, g)
              (jev_nearest_index-within pool (above_one t) def h (omega (arith, step)) f.0)
        | inr g ↦ rw (clamp_unsure, e, g) (ground (arith, e), ground (arith, g), k)
      ]
    ]

-- The context clamp only ever answers with the default.
clamp_context-Near :
    (pool : Pool) (def : ℕ) (n : ℤ) (choice : Choice)
    → Near pool def choice.0
    → Near pool def (clamp_context pool def n choice).0
unfolding clamp_context
clamp_context-Near pool def n (c, out) h =
    let stay : ltb_ℤ (tier_at pool c) (tier_at pool def) ≡ false = ground (arith, h.0) in
    rw (clamp_context, stay) h

clamp_confidence-Near :
    (pool : Pool) (j : JevRouter) (def c : ℕ) (out : JevOutcome)
    → def < length pool
    → c < length pool
    → Fits (tier_at pool def)
    → is_unsure j out ≡ true
    → Near pool def (clamp_confidence pool j def (some c) out).0
unfolding clamp_confidence
clamp_confidence-Near pool j def c out d h f unsure =
    let at = λ (b : Bool). if b then clamp_unsure pool def c out else (c, out) in
    subst (λ (r : Choice). Near pool def r.0) (sym (ap at unsure))
      (clamp_unsure-Near pool def c out d h f)

-- When the decision model is less sure than the rule asks, and the choice is no pin, the candidate
-- that is served first is no weaker than the default one and at most one tier above it.
pub settle-Near :
    (pool : Pool) (j : JevRouter) (n : ℤ) (c : ℕ) (out : JevOutcome)
    → c < length pool
    → Fits (tier_at pool (jev_tier_index pool j.default_tier))
    → is_unsure j out ≡ true
    → Near pool (jev_tier_index pool j.default_tier) (settle pool j n (some c) out).0
unfolding settle
settle-Near pool j n c out h f unsure =
    let def = jev_tier_index pool j.default_tier in
    let d = jev_tier_index-lt pool j.default_tier (omega (arith, h)) in
    clamp_context-Near pool def n (clamp_confidence pool j def (some c) out)
      (clamp_confidence-Near pool j def c out d h f unsure)
