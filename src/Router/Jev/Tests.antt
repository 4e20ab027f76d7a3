-- ===== src/Router/Jev/Tests.antt =====
-- A jev rule on a pool of three tiers.
use mathlib.Core.List.{Perm}
use llm_api_router.Prelude.{
  ℤ, pos, String, ◌≡◌, refl, true, false, none, some, [], ◌∷◌, arith, lookup, wrap64, sub64, add64,
  ◌-ℤ◌, ◌+ℤ◌,
}
use llm_api_router.Prelude.Sort.{stable_sort, insert_sorted}
use llm_api_router.Domain.Rule.{
  JevCandidate, JevRouter, RoutingRule, enabled_candidates, candidate_is_enabled, router_jev,
}
use llm_api_router.Domain.Float.{float_lt, float_le, order_key}
use llm_api_router.Domain.Settings.{Config}
use llm_api_router.Router.Fixtures.{settings, backend}
use llm_api_router.Config.Store.{new_config, get_server}
use llm_api_router.Router.Jev.{
  JevOutcome, Pool, Capability, tier_at, abs, distance, nearer, tier_index_from, jev_tier_index,
  names_after, jev_candidate_ids,
}
use llm_api_router.Router.Jev.Memory.{JevMemory}
use llm_api_router.Router.Jev.Decision.{JevRequest, Ask, zero_float, min_confidence_of}
use llm_api_router.Router.Jev.Clamp.{settle}
use llm_api_router.Router.Jev.Attempts.{
  indices_from, others, ups, downs, jev_order, jev_attempts, fresh_outcome,
}
use llm_api_router.Router.Jev.Confidence.{Near, settle-Near}
use llm_api_router.Router.Jev.Ordering.{IsFromChoice, jev_order-perm}
use llm_api_router.Router.Jev.FailOpen.{Served, jev_attempts-Served}

abbrev candidate : String → ℤ → JevCandidate
candidate server tier = record {
  server_id = server;
  target_model = "";
  description = "";
  tier = tier;
  context_window = pos 0;
  vision = none;
  enabled = none;
  convert = "";
}

abbrev pool : Pool
pool = candidate "small" (pos 1) ∷ candidate "big" (pos 3) ∷ candidate "middle" (pos 2) ∷ []

abbrev jev : JevRouter
jev = record {
  server_id = "judge";
  model = "jev";
  question = "";
  candidates = pool;
  min_confidence = zero_float;
  default_tier = pos 2;
  timeout_ms = pos 0;
  state_max_chars = pos 0;
  security = false;
  cache_ttl = pos 0;
  images = false;
}

-- The choice, then up, then down.
order_from_middle : jev_order pool 2 ≡ 2 ∷ 1 ∷ 0 ∷ []
unfolding jev_order ups downs others indices_from tier_at stable_sort insert_sorted
order_from_middle = refl

-- Between a tier below and one as far above, the search takes the one below.
below_before_above : jev_tier_index (candidate "a" (pos 1) ∷ candidate "b" (pos 3) ∷ []) (pos 2) ≡ 0
unfolding jev_tier_index tier_index_from nearer distance abs sub64 add64 wrap64 ◌-ℤ◌ ◌+ℤ◌
below_before_above = refl

-- Two candidates of one server and one model get one name, after the first.
names_collide :
    jev_candidate_ids (candidate "a" (pos 1) ∷ candidate "a" (pos 2) ∷ candidate "a" (pos 3) ∷ [])
    ≡ "a" ∷ "a@a" ∷ "a@a" ∷ []
unfolding jev_candidate_ids names_after
names_collide = refl

jev_order-perm_example :
    Perm (indices_from 0 pool) (jev_order pool 2) × IsFromChoice pool 2 (jev_order pool 2)
jev_order-perm_example = jev_order-perm pool 2 (omega arith)

-- A confidence of 0.125.
abbrev unsure : JevOutcome
unsure = record (fresh_outcome jev) {
  confidence = record { bits = 4593671619917905920 };
  reason = "jev";
}

settle-Near_example :
    Near pool (jev_tier_index pool (pos 2)) (settle pool jev (pos 0) (some 0) unsure).0
unfolding jev_tier_index tier_index_from nearer distance abs sub64 add64 wrap64 ◌-ℤ◌ ◌+ℤ◌ tier_at
    min_confidence_of float_lt float_le order_key
settle-Near_example =
    settle-Near pool jev (pos 0) 0 unsure (omega arith) (omega arith, omega arith) refl

abbrev store : Config
unfolding new_config
store = record (new_config settings) {
  servers = ("small", backend "small") ∷ ("big", backend "big") ∷ ("middle", backend "middle") ∷ [];
}

abbrev rule : RoutingRule
rule = record {
  incoming_models = "qwen" ∷ [];
  target_model = "";
  server_id = "";
  fallbacks = [];
  fallback_server_ids = [];
  num_retries = pos 0;
  enabled = true;
  context_window = pos 0;
  router = router_jev;
  jev = some jev;
  convert = "";
  balance = "";
}

abbrev request : JevRequest
request = record {
  requested = "qwen";
  text = "hello";
  context_tokens = pos 100;
  images = [];
  session_key = "qwen\0me";
  header_off = false;
  path = "/v1/chat/completions";
  now = 5;
  answered_at = 6;
}

-- The decision server is not there, and no capability is known.
abbrev silent : Ask
silent = λ srv q. (none, pos 1500)

abbrev unknown : Capability
unknown = λ srv model. none

abbrev fresh : JevMemory
fresh = record { cache = []; sticky = [] }

jev_attempts-Served_example :
    let r = jev_attempts (λ parts. "") silent unknown unknown store fresh rule jev request in
    Served jev r.1 r.2
unfolding enabled_candidates candidate_is_enabled get_server lookup store
jev_attempts-Served_example =
    jev_attempts-Served (λ parts. "") silent unknown unknown store fresh rule jev request
      (omega arith) (refl, (refl, (refl, tt)))
