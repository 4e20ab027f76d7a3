-- ===== src/Router/Listing.antt =====
-- router/router.go, config/store.go: the models that a client may ask for, and whether any backend
-- of a rule is up.
use Prim.Native.String.{compare}
use llm_api_router.Prelude.{
  ℤ, pos, String, Bool, true, false, not, ◌&&◌, ◌||◌, Option, none, some, List, [], ◌∷◌, ◌++◌, map,
  any, select, is_empty, is_pos, is_zero, ltb_ℤ, str_eq, if◌then◌else◌,
}
use llm_api_router.Prelude.Sort.{stable_sort}
use llm_api_router.Domain.Server.{fallback_is_enabled}
use llm_api_router.Domain.Rule.{
  JevCandidate, JevRouter, RoutingRule, is_jev, is_model_pattern, enabled_candidates,
}
use llm_api_router.Domain.Settings.{Config}
use llm_api_router.Config.Store.{rules_at, rules_of, active_profile}
use llm_api_router.Config.Health.{HealthTracker, is_healthy}

-- The pool of a rule that asks a decision model.
unfoldable pub jev_of : RoutingRule → Option JevRouter
unfolding is_jev
jev_of rule = if is_jev rule then rule.jev else none

-- The servers that can serve a rule: the pool, or the primary and its enabled fallbacks.
unfoldable pub serving_ids : RoutingRule → List String
unfolding jev_of enabled_candidates fallback_is_enabled
serving_ids rule = elim (jev_of rule) [
  | some j ↦ map (λ c. c.server_id) (enabled_candidates j)
  | none ↦ rule.server_id ∷ map (λ f. f.server_id) (select fallback_is_enabled rule.fallbacks)
]

unfoldable pub any_server_healthy : HealthTracker → RoutingRule → Bool
unfolding serving_ids is_healthy
any_server_healthy h rule = any (is_healthy h) (serving_ids rule)

-- The smallest context window that is known in a pool.
unfoldable pub smallest_window : ℤ → List JevCandidate → ℤ
smallest_window cw [] = cw
smallest_window cw (c ∷ cs) =
    smallest_window
      (if is_pos c.context_window && (is_zero cw || ltb_ℤ c.context_window cw)
        then c.context_window
        else cw)
      cs

unfoldable pub context_window_of : RoutingRule → ℤ
unfolding jev_of enabled_candidates smallest_window
context_window_of rule = elim (jev_of rule) [
  | none ↦ rule.context_window
  | some j ↦
      if is_zero rule.context_window
      then smallest_window (pos 0) (enabled_candidates j)
      else rule.context_window
]

pub record ListedModel : Type 0 where
  pub id : String
  pub target : String
  pub server : String
  -- `none` is a field left out.
  pub context_window : Option ℤ
  -- The target models of the pool of a jev rule.
  pub models : Option (List String)
  pub healthy : Option Bool

unfoldable pub listed_model : Option HealthTracker → RoutingRule → String → ListedModel
unfolding context_window_of jev_of enabled_candidates any_server_healthy
listed_model health rule name = record {
  id = name;
  target = rule.target_model;
  server = rule.server_id;
  context_window = if is_pos (context_window_of rule) then some (context_window_of rule) else none;
  models = elim (jev_of rule) [
    | none ↦ none
    | some j ↦
        some (select (λ m. not (is_empty m)) (map (λ c. c.target_model) (enabled_candidates j)))
  ];
  healthy = elim health [ none ↦ none | some h ↦ some (any_server_healthy h rule) ];
}

-- The names of a rule that a client can send.
abbrev pub plain_names : RoutingRule → List String
plain_names rule = select (λ n. not (is_model_pattern n)) rule.incoming_models

unfoldable pub list_rules : Option HealthTracker → List RoutingRule → List ListedModel
unfolding listed_model
list_rules health [] = []
list_rules health (rule ∷ rules) =
    let rest = list_rules health rules in
    if rule.enabled then map (listed_model health rule) (plain_names rule) ++ rest else rest

unfoldable pub list_models : Config → Option HealthTracker → List ListedModel
unfolding list_rules rules_of
list_models store health = elim (rules_of store "") [
  | none ↦ []
  | some rules ↦ list_rules health rules
]

-- `slices.Contains` before an `append`.
unfoldable pub add_names : List String → List String → List String
add_names out [] = out
add_names out (n ∷ ns) =
    if not (is_model_pattern n) && not (any (str_eq n) out)
    then add_names (out ++ n ∷ []) ns
    else add_names out ns

unfoldable pub names_of_rules : List String → List RoutingRule → List String
unfolding add_names
names_of_rules out [] = out
names_of_rules out (rule ∷ rules) =
    names_of_rules (if rule.enabled then add_names out rule.incoming_models else out) rules

abbrev pub text_less : String → String → Bool
text_less a b = elim (compare a b) [ Prim.Native.Nat.Ordering.lt ↦ true | _ ↦ false ]

unfoldable pub model_names : Config → List String
unfolding names_of_rules stable_sort rules_at active_profile
model_names store = elim (rules_at store.profiles (active_profile store)) [
  | none ↦ []
  | some rules ↦ stable_sort text_less (names_of_rules [] rules)
]
