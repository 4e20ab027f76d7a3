-- ===== src/Router/Tests.antt =====
-- The router on a concrete pool.
use mathlib.Core.List.{Perm}
use llm_api_router.Prelude.{
  zero, suc, ◌+◌, ap, sym, str_eq, ℤ, pos, String, ◌≡◌, refl, true, false, none, List, [], ◌∷◌,
  arith, map, select, some, lookup_or, lookup, inl,
}
use llm_api_router.Prelude.Sort.{Ordered}
use llm_api_router.Domain.Server.{FallbackEntry, fallback_is_enabled}
use llm_api_router.Domain.Rule.{RoutingRule}
use llm_api_router.Router.Fixtures.{settings, backend}
use llm_api_router.Config.Store.{new_config}
use llm_api_router.Router.State.{Router, ServerAttempt, new_router, inflight_count}
use llm_api_router.Router.Budget.{unreachable_error}
use llm_api_router.Router.Pool.{
  ordered_fallbacks, pool_key, pinned_at, balance_rotation, balance_least, Ranked, ranked,
}
use llm_api_router.Router.Pool.Ordering.{
  InPriority, AtMostLoaded, same_priority, ordered_fallbacks-IsSorted, balance-perm,
  balance_least-IsSorted,
}
use llm_api_router.Router.Pool.Share.{firsts, OnlyAt, starts-round}
use llm_api_router.Router.World.{World, Request, ready, served, transport}
use llm_api_router.Router.Attempts.{handle_attempts, tries, fresh_loop}
use llm_api_router.Router.Attempts.Inflight.{inflight_count-handle_attempts}
use llm_api_router.Router.Attempts.Teardown.{holding}
use llm_api_router.Router.Attempts.Reservation.{IsHeld, holding-handle_attempts}
use llm_api_router.Router.Attempts.Fuel.{tries-fuel}
use llm_api_router.Router.Attempts.Answers.{Unanswered, handle_attempts-IsGrounded}
use llm_api_router.Router.Attempts.Grounds.{IsGrounded}

abbrev to : String → ServerAttempt
to id = record { server = backend id; target_model = "qwen"; convert = ""; context_window = pos 0 }

abbrev pool : List ServerAttempt
pool = to "a" ∷ to "b" ∷ []

abbrev router : Router
router = record (new_router (new_config settings) none none none) { inflight = ("a", pos 2) ∷ [] }

-- The first backend is not there, the second answers.
abbrev world : World
world = record {
  clock = λ i retry. i + retry;
  backend = λ i retry. elim i [
    | zero ↦ transport unreachable_error (pos 0) false
    | _ ↦ served 200 (pos 0) (pos 7)
  ];
}

abbrev request : Request
request = record {
  path = "/v1/chat/completions";
  dialect = "chat";
  body_len = 100;
  header_convert = "";
  pin_key = "";
  num_retries = pos 10;
  explicit_retries = false;
  prepare = λ a p. ready (pos 4096);
}

inflight_count-handle_attempts_example :
    inflight_count (handle_attempts world request pool router).0 "a" ≡ inflight_count router "a"
inflight_count-handle_attempts_example =
    inflight_count-handle_attempts world request pool router "a"

handle_attempts-IsGrounded_example :
    IsGrounded world request pool (handle_attempts world request pool router).1
    × Unanswered world request pool router (handle_attempts world request pool router).1
handle_attempts-IsGrounded_example =
    handle_attempts-IsGrounded world request (to "a") (to "b" ∷ []) router

tries-fuel_example :
    tries world request "a" 0 (pos 0) 20 0 router fresh_loop
    ≡ tries world request "a" 0 (pos 0) 10 0 router fresh_loop
tries-fuel_example =
    tries-fuel world request "a" 0 (pos 0) 10 20 0 router fresh_loop (omega arith) (omega arith)

abbrev fallback : String → ℤ → FallbackEntry
fallback id priority = record {
  server_id = id;
  target_model = "";
  enabled = none;
  priority = priority;
  convert = "";
  context_window = pos 0;
  weight = pos 0;
}

abbrev rule : RoutingRule
rule = record {
  incoming_models = "qwen" ∷ [];
  target_model = "";
  server_id = "a";
  fallbacks = fallback "b" (pos 0) ∷ fallback "c" (pos 2) ∷ fallback "d" (pos 1) ∷ [];
  fallback_server_ids = [];
  num_retries = pos 0;
  enabled = true;
  context_window = pos 0;
  router = "";
  jev = none;
  convert = "";
  balance = "";
}

ordered_fallbacks-IsSorted_example :
    Perm (select fallback_is_enabled rule.fallbacks) (ordered_fallbacks rule)
    × Ordered InPriority (ordered_fallbacks rule)
    × (select (same_priority (pos 1)) (ordered_fallbacks rule)
        ≡ select (same_priority (pos 1)) (select fallback_is_enabled rule.fallbacks))
ordered_fallbacks-IsSorted_example = ordered_fallbacks-IsSorted rule (pos 1)

balance-perm_example :
    Perm pool (balance_rotation router pool (1 ∷ 3 ∷ []) "b").1
    × Perm pool (balance_least router pool (pos 1 ∷ pos 3 ∷ []) "b")
balance-perm_example = balance-perm router pool (1 ∷ 3 ∷ []) (pos 1 ∷ pos 3 ∷ []) "b"

balance_least-IsSorted_example :
    (ranks : List Ranked) × Perm (ranked router pool []) ranks
    × Ordered AtMostLoaded ranks
    × (balance_least router pool [] "" ≡ map (λ x. x.attempt) ranks)
unfolding pinned_at
balance_least-IsSorted_example = balance_least-IsSorted router pool [] "" refl

-- A replica with the weight 3 starts three requests out of four.
abbrev counted : Router
counted = record router { rotations = ("a,b", 8) ∷ []; rotation_keys = 1 }

second_only : OnlyAt 1 (to "b") pool
second_only zero x h = ap (λ o. elim o [ none ↦ false | some y ↦ str_eq y.server.id "b" ]) (sym h)
second_only (suc zero) x h =
    ap (λ o. elim o [ none ↦ true | some y ↦ str_eq y.server.id "b" ]) (sym h)
second_only (suc (suc k)) x h = ground (arith, h)

starts-round_example : firsts "b" counted pool (1 ∷ 3 ∷ []) 4 ≡ 3
unfolding lookup pool_key
starts-round_example =
    starts-round counted pool (1 ∷ 3 ∷ []) 1 (to "b") 3 2 refl refl (omega arith) second_only refl
      (omega arith)

-- Both backends are limited, and one has a budget in flight.
abbrev limited : Router
limited = record router {
  quota = some (record {
    tokens = [];
    requests = [];
    reserved = ("a", pos 100) ∷ [];
    limits = some (λ id. (pos 10000, pos 0));
  });
}

limited-IsHeld : IsHeld "a" (holding limited "a")
unfolding lookup_or lookup
limited-IsHeld = (100, refl, omega arith, inl refl)

holding-handle_attempts_example :
    holding (handle_attempts world request pool limited).0 "a" ≡ holding limited "a"
holding-handle_attempts_example =
    holding-handle_attempts world request pool limited "a" (λ a p. omega arith) limited-IsHeld
