-- ===== src/Router/Jev/Attempts.antt =====
-- router/jev.go: the order of a pool from the choice on, and the attempt list of a jev rule.
use llm_api_router.Prelude.{
  ℕ, suc, pos, String, Bool, not, ◌&&◌, none, some, List, [], ◌∷◌, ◌++◌, get_elem?, select, length,
  is_empty, is_zero, ltb, ltb_ℤ, ◌==◌, if◌then◌else◌,
}
use llm_api_router.Prelude.Sort.{stable_sort}
use llm_api_router.Domain.Server.{Server}
use llm_api_router.Domain.Rule.{JevCandidate, JevRouter, RoutingRule, enabled_candidates}
use llm_api_router.Domain.Settings.{Config}
use llm_api_router.Config.Store.{get_server}
use llm_api_router.Router.State.{ServerAttempt}
use llm_api_router.Router.Jev.{
  JevOutcome, Pool, Capability, tier_at, jev_candidate_ids, jev_vision_pool, jev_audio_pool,
  resolve_vision_pool,
}
use llm_api_router.Router.Jev.Memory.{JevMemory, jev_sticky_put}
use llm_api_router.Router.Jev.Decision.{
  JevRequest, Ask, Decision, Verdict, blocked, chosen, decide, zero_float,
}
use llm_api_router.Router.Jev.Clamp.{settle}

-- `for i := range pool`, from an index on.
unfoldable pub indices_from : ℕ → Pool → List ℕ
indices_from i [] = []
indices_from i (c ∷ cs) = i ∷ indices_from (suc i) cs

abbrev pub is_up : Pool → ℕ → ℕ → Bool
is_up pool choice i = ltb_ℤ (tier_at pool choice) (tier_at pool i)

-- The rest of the pool, without the choice.
unfoldable pub others : Pool → ℕ → List ℕ
unfolding indices_from
others pool choice = select (λ i. not (i == choice)) (indices_from 0 pool)

abbrev pub weaker_first : Pool → ℕ → ℕ → Bool
weaker_first pool a b = ltb_ℤ (tier_at pool a) (tier_at pool b)

abbrev pub stronger_first : Pool → ℕ → ℕ → Bool
stronger_first pool a b = ltb_ℤ (tier_at pool b) (tier_at pool a)

unfoldable pub ups : Pool → ℕ → List ℕ
unfolding stable_sort
ups pool choice = stable_sort (weaker_first pool) (select (is_up pool choice) (others pool choice))

unfoldable pub downs : Pool → ℕ → List ℕ
unfolding stable_sort
downs pool choice =
    stable_sort (stronger_first pool) (select (λ i. not (is_up pool choice i)) (others pool choice))

unfoldable pub jev_order : Pool → ℕ → List ℕ
jev_order pool choice = choice ∷ ups pool choice ++ downs pool choice

unfoldable pub candidate_attempt : RoutingRule → JevCandidate → Server → ServerAttempt
candidate_attempt rule c srv = record {
  server = srv;
  target_model = if is_empty c.target_model then rule.target_model else c.target_model;
  convert = c.convert;
  context_window = if is_zero c.context_window then rule.context_window else c.context_window;
}

-- A candidate whose server is not there is left out.
unfoldable pub attempts_at : Config → RoutingRule → Pool → List ℕ → List ServerAttempt
unfolding candidate_attempt
attempts_at store rule pool [] = []
attempts_at store rule pool (i ∷ is) =
    let rest = attempts_at store rule pool is in
    elim (get_elem? pool i) [
      | none ↦ rest
      | some c ↦ elim (get_server store c.server_id) [
        | none ↦ rest
        | some srv ↦ candidate_attempt rule c srv ∷ rest
      ]
    ]

abbrev pub is_nil_pool : Pool → Bool
is_nil_pool [] = Bool.true
is_nil_pool _ = Bool.false

-- A filter that would leave nothing is not applied.
unfoldable pub unless_empty : Pool → Pool → Pool
unless_empty filtered pool = if is_nil_pool filtered then pool else filtered

-- For a request with images, the candidates that may see them.
unfoldable pub sighted_pool : Capability → Config → List String → Pool → Pool
unfolding resolve_vision_pool jev_vision_pool unless_empty
sighted_pool vision store [] pool = pool
sighted_pool vision store (i ∷ is) pool =
    let resolved = resolve_vision_pool vision store pool in
    unless_empty (jev_vision_pool resolved) resolved

-- The candidates that are no audio models, where that leaves some.
unfoldable pub text_pool : Capability → Config → Pool → Pool
unfolding jev_audio_pool
text_pool audio store pool =
    let heard = jev_audio_pool audio store pool in
    if ltb 0 (length heard) && ltb (length heard) (length pool) then heard else pool

unfoldable pub usable_pool : Capability → Capability → Config → JevRequest → Pool → Pool
unfolding sighted_pool text_pool
usable_pool audio vision store req pool =
    sighted_pool vision store req.images (text_pool audio store pool)

-- The memory after it, the attempts and the outcome. A blocked request gets no attempt.
abbrev pub JevResult : Type 0
JevResult = JevMemory × List ServerAttempt × JevOutcome

abbrev pub fresh_outcome : JevRouter → JevOutcome
fresh_outcome j = record {
  choice = "";
  confidence = zero_float;
  latency_ms = pos 0;
  model = j.model;
  reason = "";
  input_tokens = pos 0;
  output_tokens = pos 0;
  scores = "";
}

abbrev pub id_at : List String → ℕ → String
id_at ids i = elim (get_elem? ids i) [ none ↦ "" | some s ↦ s ]

-- After the decision: the clamps, the pin of the conversation, and the list.
unfoldable pub after_decision :
    Config
    → RoutingRule
    → JevRouter
    → JevRequest
    → Pool
    → List String
    → Decision
    → Verdict
    → JevResult
unfolding settle jev_sticky_put
after_decision store rule j req pool ids d blocked = (d.memory, [], d.outcome)
after_decision store rule j req pool ids d (chosen choice) =
    let (c, out) = settle pool j req.context_tokens choice d.outcome in
    (
      jev_sticky_put d.memory req.answered_at req.session_key (id_at ids c),
      attempts_at store rule pool (jev_order pool c),
      out,
    )

module _ (digest : List String → String) (ask : Ask) (audio vision : Capability) where
  -- With a pool that has a candidate enabled.
  unfoldable pub jev_route :
      Config → JevMemory → RoutingRule → JevRouter → JevRequest → Pool → JevResult
  unfolding decide after_decision
  jev_route store m rule j req pool =
      let ids = jev_candidate_ids pool in
      let d = decide digest ask store m j req pool ids (fresh_outcome j) in
      after_decision store rule j req pool ids d d.verdict

  unfoldable pub jev_attempts :
      Config → JevMemory → RoutingRule → JevRouter → JevRequest → JevResult
  unfolding jev_route usable_pool
  jev_attempts store m rule j req =
      let pool = enabled_candidates j in
      if is_nil_pool pool
      then (m, [], record (fresh_outcome j) { reason = "no-pool" })
      else jev_route store m rule j req (usable_pool audio vision store req pool)
