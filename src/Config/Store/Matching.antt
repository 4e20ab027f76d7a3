-- ===== src/Config/Store/Matching.antt =====
-- config/store.go: which rule owns an incoming model name, and the names that clients may send.
--
-- `path.Match` is the standard library's glob: here it is an argument, `glob pattern model`, which
-- is false for a malformed pattern.
pub mod Specificity
use llm_api_router.Prelude.{
  ℕ, suc, ◌+◌, ℤ, pos, String, ◌≡◌, Bool, true, false, not, ◌&&◌, ◌||◌, Option, none, some, List,
  [], ◌∷◌, ◌++◌, map, ltb, str_eq, is_empty, length, get_elem?, set, erase_idx, select, find_idx?,
  is_some, pos_part, if◌then◌else◌, lookup, insert, delete, member, ltb_ℤ,
}
use mathlib.Core.Option
use Prim.Native.String.{len}
use llm_api_router.Domain.Server.{Server}
use llm_api_router.Domain.Rule.{RoutingRule, ServerRef, server_refs, is_model_pattern}
use llm_api_router.Domain.Settings.{Config, RuleProfile}
use llm_api_router.Config.Store.{
  Disk, Write, StoreError, server_exists, server_not_found, profile_not_found, profile_exists,
  profile_name_required, index_out_of_range, only_profile, server_referenced, saved, clone_rule,
  resolve_profile, rules_at, profile_by_id, active_profile, rules_of,
}

abbrev pub Glob : Type 0
Glob = String → String → Bool

unfoldable pub match_model_pattern : Glob → String → String → Bool
match_model_pattern glob pattern model = is_model_pattern pattern && glob pattern model

-- What the loops have found: the rule of an exact name, or the best pattern so far.
pub data Found : Type 0 where
  exact : RoutingRule → Found
  pattern_of : Option RoutingRule → ℕ → Found

unfoldable pub scan_names :
    Glob → String → RoutingRule → List String → Option RoutingRule → ℕ → Found
scan_names glob model rule [] best best_len = pattern_of best best_len
scan_names glob model rule (name ∷ names) best best_len =
    let better = ltb best_len (len name) && match_model_pattern glob name model in
    let rest =
      scan_names glob model rule names (if better then some rule else best)
        (if better then len name else best_len) in
    if str_eq name model then exact rule else rest

unfoldable pub scan_rules : Glob → String → List RoutingRule → Option RoutingRule → ℕ → Found
scan_rules glob model [] best best_len = pattern_of best best_len
scan_rules glob model (rule ∷ rules) best best_len =
    if not rule.enabled
    then scan_rules glob model rules best best_len
    else elim (scan_names glob model rule rule.incoming_models best best_len) [
      | exact r ↦ exact r
      | pattern_of b l ↦ scan_rules glob model rules b l
    ]

unfoldable pub get_rule_by_model : Glob → Config → String → Option RoutingRule
unfolding scan_rules
get_rule_by_model glob c model = elim (rules_at c.profiles (active_profile c)) [
  | none ↦ none
  | some rules ↦ elim (scan_rules glob model rules none 0) [
    | exact r ↦ some (clone_rule r)
    | pattern_of best _ ↦ Option.map clone_rule best
  ]
]
