-- ===== src/Router/Chain.antt =====
-- router/router.go: the attempt list of a static rule, its order, and its length.
use llm_api_router.Prelude.{
  ℕ, ◌+◌, pos, String, not, ◌&&◌, none, some, List, [], ◌∷◌, map, ltb, is_empty, is_pos, is_zero,
  str_eq, length, pos_part, take, max, if◌then◌else◌,
}
use llm_api_router.Domain.Server.{Server, FallbackEntry}
use llm_api_router.Domain.Rule.{RoutingRule, balances, balance_least_connections}
use llm_api_router.Domain.Settings.{Config}
use llm_api_router.Config.Store.{get_server}
use llm_api_router.Router.State.{Router, ServerAttempt}
use llm_api_router.Router.Sticky.{sticky_get}
use llm_api_router.Router.Pool.{ordered_fallbacks, balance_rotation, balance_least}

-- An attempt with its weight, which is at least 1.
abbrev pub Weighted : Type 0
Weighted = ServerAttempt × ℕ

unfoldable pub fallback_attempt : RoutingRule → FallbackEntry → Server → Weighted
fallback_attempt rule fb srv = (
  record {
    server = srv;
    target_model = if is_empty fb.target_model then rule.target_model else fb.target_model;
    convert = fb.convert;
    context_window = if is_zero fb.context_window then rule.context_window else fb.context_window;
  },
  max (pos_part fb.weight) 1,
)

-- A fallback whose server is not there is left out.
unfoldable pub fallback_attempts : Config → RoutingRule → List FallbackEntry → List Weighted
unfolding fallback_attempt
fallback_attempts c rule [] = []
fallback_attempts c rule (fb ∷ fbs) =
    let rest = fallback_attempts c rule fbs in
    elim (get_server c fb.server_id) [
      | none ↦ rest
      | some srv ↦ fallback_attempt rule fb srv ∷ rest
    ]

unfoldable pub static_attempts : Config → RoutingRule → Server → List Weighted
static_attempts c rule primary =
    (
      record {
        server = primary;
        target_model = rule.target_model;
        convert = rule.convert;
        context_window = rule.context_window;
      },
      1,
    )
    ∷ fallback_attempts c rule (ordered_fallbacks rule)

-- The balanced list, for the conversation's key.
unfoldable pub balanced_attempts :
    Router → ℕ → RoutingRule → String → List Weighted → Router × List ServerAttempt
balanced_attempts r now rule pin_key pool =
    let attempts = map (λ x. x.0) pool in
    if not (ltb 1 (length pool) && balances rule.balance)
    then (r, attempts)
    else let (r1, pinned) = sticky_get r now pin_key in
      if str_eq rule.balance balance_least_connections
      then (r1, balance_least r1 attempts (map (λ x. pos x.1) pool) pinned)
      else balance_rotation r1 attempts (map (λ x. x.1) pool) pinned

-- The primary and `max_fallbacks` more, where that is set.
unfoldable pub capped : Config → List ServerAttempt → List ServerAttempt
capped c attempts =
    let limit = c.settings.routing.max_fallbacks in
    if is_pos limit && ltb (pos_part limit + 1) (length attempts)
    then take (pos_part limit + 1) attempts
    else attempts
