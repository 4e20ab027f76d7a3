-- ===== src/Router/Jev/FailOpen.antt =====
-- A jev rule never leaves a request without an attempt, unless it blocks it.
use llm_api_router.Prelude.{
  ℕ, zero, suc, ◌<◌, ℤ, String, ◌≡◌, refl, subst, true, false, ◌&&◌, Option, none, some, List, [],
  ◌∷◌, ◌++◌, arith, length, get_elem?, is_some, is_pos, ltb_ℤ, add64, pos, Bool-cases, Option-cases,
  ◌⊎◌, inl, inr,
}
use llm_api_router.Domain.Rule.{JevCandidate, JevRouter, RoutingRule, enabled_candidates}
use llm_api_router.Domain.Settings.{Config}
use llm_api_router.Config.Store.{get_server}
use llm_api_router.Router.State.{ServerAttempt}
use llm_api_router.Router.Jev.{
  JevOutcome, Pool, Capability, jev_candidate_ids, jev_tier_index, tier_at,
}
use llm_api_router.Router.Jev.Memory.{JevMemory}
use llm_api_router.Router.Jev.Decision.{Ask, JevRequest, Decision, Verdict, blocked, chosen, decide}
use llm_api_router.Router.Jev.Clamp.{
  Choice, clamp_unsure, is_unsure, clamp_confidence, clamp_context, settle,
  jev_downgrade_max_context,
}
use llm_api_router.Router.Jev.Attempts.{
  attempts_at, jev_order, usable_pool, is_nil_pool, after_decision, jev_route, jev_attempts,
  fresh_outcome, ups, downs,
}
use llm_api_router.Router.Jev.Tiers.{jev_tier_index-lt, jev_nearest_index-lt}
use llm_api_router.Router.Jev.Verdicts.{VerdictOk, decide-Ok}
use llm_api_router.Router.Jev.Usable.{
  AllKnown, Usable, jev_candidate_ids-length, usable_pool-Usable,
}

clamp_unsure-lt :
    (pool : Pool) (def c : ℕ) (out : JevOutcome)
    → def < length pool
    → c < length pool
    → (clamp_unsure pool def c out).0 < length pool
unfolding clamp_unsure
clamp_unsure-lt pool def c out h k = elim (Bool-cases (ltb_ℤ (tier_at pool c) (tier_at pool def))) [
  | inl e ↦ rw (clamp_unsure, e) h
  | inr e ↦ elim (Bool-cases (ltb_ℤ (add64 (tier_at pool def) (pos 1)) (tier_at pool c))) [
    | inl f ↦
        rw (clamp_unsure, e, f)
          (jev_nearest_index-lt pool (add64 (tier_at pool def) (pos 1)) (omega (arith, h)))
    | inr f ↦ rw (clamp_unsure, e, f) k
  ]
]

clamp_confidence-lt :
    (pool : Pool) (j : JevRouter) (def : ℕ) (choice : Option ℕ) (out : JevOutcome)
    → def < length pool
    → VerdictOk j (length pool) (chosen choice) out.reason
    → (clamp_confidence pool j def choice out).0 < length pool
unfolding clamp_confidence
clamp_confidence-lt pool j def none out h k = h
clamp_confidence-lt pool j def (some c) out h k = elim (Bool-cases (is_unsure j out)) [
  | inl e ↦ rw (clamp_confidence, e) (clamp_unsure-lt pool def c out h k)
  | inr e ↦ rw (clamp_confidence, e) k
]

clamp_context-lt :
    (pool : Pool) (def : ℕ) (n : ℤ) (choice : Choice)
    → def < length pool
    → choice.0 < length pool
    → (clamp_context pool def n choice).0 < length pool
unfolding clamp_context
clamp_context-lt pool def n (c, out) h k =
    elim (Bool-cases
      (ltb_ℤ (tier_at pool c) (tier_at pool def) && ltb_ℤ jev_downgrade_max_context n)) [
        | inl e ↦ rw (clamp_context, e) h
        | inr e ↦ rw (clamp_context, e) k
      ]

settle-lt :
    (pool : Pool) (j : JevRouter) (n : ℤ) (choice : Option ℕ) (out : JevOutcome)
    → 0 < length pool
    → VerdictOk j (length pool) (chosen choice) out.reason
    → (settle pool j n choice out).0 < length pool
unfolding settle
settle-lt pool j n choice out h k =
    let def = jev_tier_index pool j.default_tier in
    let d = jev_tier_index-lt pool j.default_tier h in
    clamp_context-lt pool def n (clamp_confidence pool j def choice out) d
      (clamp_confidence-lt pool j def choice out d k)

get_elem?-known :
    (store : Config) (pool : Pool) (i : ℕ)
    → i < length pool
    → AllKnown store pool
    → (c : JevCandidate) × (get_elem? pool i ≡ some c)
      × (is_some (get_server store c.server_id) ≡ true)
get_elem?-known store [] i h k = ground (arith, h)
get_elem?-known store (c ∷ cs) zero h (k, _) = (c, refl, k)
get_elem?-known store (c ∷ cs) (suc i) h (_, k) = get_elem?-known store cs i (omega (arith, h)) k

-- The first of an order is served.
attempts_at-first :
    (store : Config) (rule : RoutingRule) (pool : Pool) (i : ℕ) (is : List ℕ)
    → i < length pool
    → AllKnown store pool
    → 0 < length (attempts_at store rule pool (i ∷ is))
unfolding attempts_at
attempts_at-first store rule pool i is h k =
    let (c, e, known) = get_elem?-known store pool i h k in
    elim (Option-cases (get_server store c.server_id)) [
      | inl f ↦ ground (arith, known, f)
      | inr (srv, f) ↦ rw (attempts_at, e, f) (omega arith)
    ]

not_nil : (pool : Pool) → 0 < length pool → is_nil_pool pool ≡ false
not_nil [] h = ground (arith, h)
not_nil (c ∷ cs) h = refl

-- An attempt to make, or a request that a gate blocked.
abbrev pub Served : JevRouter → List ServerAttempt → JevOutcome → Type 0
Served j attempts out =
    (0 < length attempts)
    ⊎ (out.reason ≡ "blocked") × ((j.security ≡ true) ⊎ (is_pos j.cache_ttl ≡ true))

after_decision-Served :
    (store : Config) (rule : RoutingRule) (j : JevRouter) (req : JevRequest) (pool : Pool)
    (ids : List String) (d : Decision) (v : Verdict)
    → Usable store pool
    → VerdictOk j (length pool) v d.outcome.reason
    → let r = after_decision store rule j req pool ids d v in Served j r.1 r.2
unfolding after_decision jev_order
after_decision-Served store rule j req pool ids d blocked h k = inr k
after_decision-Served store rule j req pool ids d (chosen choice) (n, h) k =
    let settled = settle pool j req.context_tokens choice d.outcome in
    inl (
      attempts_at-first store rule pool settled.0 (ups pool settled.0 ++ downs pool settled.0)
        (settle-lt pool j req.context_tokens choice d.outcome n k) h)

module _ (digest : List String → String) (ask : Ask) (audio vision : Capability) where
  -- For a rule that has a candidate enabled, all of them on servers that are in the store, there
  -- is an attempt to make, whatever the decision model, the caches and the backends answer, unless
  -- the outcome is blocked; and it can be that only where the security gate or the cache is on.
  pub jev_attempts-Served :
      (store : Config) (m : JevMemory) (rule : RoutingRule) (j : JevRouter) (req : JevRequest)
      → 0 < length (enabled_candidates j)
      → AllKnown store (enabled_candidates j)
      → let r = jev_attempts digest ask audio vision store m rule j req in Served j r.1 r.2
  unfolding jev_attempts jev_route
  jev_attempts-Served store m rule j req n h =
      let pool = usable_pool audio vision store req (enabled_candidates j) in
      let ids = jev_candidate_ids pool in
      let d = decide digest ask store m j req pool ids (fresh_outcome j) in
      let usable = usable_pool-Usable audio vision store req (enabled_candidates j) (n, h) in
      let ok =
        subst (λ k. VerdictOk j k d.verdict d.outcome.reason) (jev_candidate_ids-length pool)
          (decide-Ok digest ask store m j req pool ids (fresh_outcome j)) in
      let some_candidate : is_nil_pool (enabled_candidates j) ≡ false =
        not_nil (enabled_candidates j) n in
      rw (jev_attempts, some_candidate)
        (after_decision-Served store rule j req pool ids d d.verdict usable ok)
