-- ===== src/Config/Store/Rules.antt =====
-- config/store.go: the writes on the rules of a profile.
pub mod Editing
use llm_api_router.Prelude.{
  ℕ, suc, ◌+◌, ℤ, pos, String, ◌≡◌, Bool, true, false, not, ◌&&◌, ◌||◌, Option, none, some, List,
  [], ◌∷◌, ◌++◌, map, ltb, str_eq, is_empty, length, get_elem?, set, erase_idx, modify, find_idx?,
  is_some, pos_part, if◌then◌else◌, lookup, insert, delete, member, ltb_ℤ,
}
use mathlib.Core.Option
use llm_api_router.Domain.Server.{Server}
use llm_api_router.Domain.Rule.{RoutingRule, ServerRef, server_refs, is_model_pattern}
use llm_api_router.Domain.Settings.{Config, RuleProfile}
use llm_api_router.Config.Store.{
  Disk, Write, StoreError, server_exists, server_not_found, profile_not_found, profile_exists,
  profile_name_required, index_out_of_range, only_profile, server_referenced, saved, clone_rule,
  resolve_profile, rules_at, profile_by_id, active_profile, rules_of,
}

-- Writes on the rules of a profile; `""` is the active one.
abbrev pub with_profile_rules : List RoutingRule → RuleProfile → RuleProfile
with_profile_rules rules p = record p { rules = rules }

unfoldable pub set_rules : Config → ℕ → List RoutingRule → Config
set_rules c i rules = record c { profiles = modify (with_profile_rules rules) c.profiles i }

unfoldable pub with_rules : Config → String → (ℕ → List RoutingRule → Write) → Write
with_rules c id f = elim (resolve_profile c id) [
  | none ↦ (c, some profile_not_found)
  | some i ↦ elim (rules_at c.profiles (some i)) [
    | none ↦ (c, some profile_not_found)
    | some rules ↦ f i rules
  ]
]

unfoldable pub add_rule_to_profile : Disk → Config → String → RoutingRule → Write
add_rule_to_profile disk c id rule =
    with_rules c id λ i rules. saved disk (set_rules c i (rules ++ clone_rule rule ∷ []))

abbrev pub in_range : ℤ → List RoutingRule → Bool
in_range idx rules = not (ltb_ℤ idx (pos 0)) && ltb_ℤ idx (pos (length rules))

unfoldable pub update_rule_in_profile : Disk → Config → String → ℤ → RoutingRule → Write
update_rule_in_profile disk c id idx rule = with_rules c id λ i rules.
    if not (in_range idx rules)
    then (c, some index_out_of_range)
    else saved disk (set_rules c i (set rules (pos_part idx) (clone_rule rule)))

unfoldable pub delete_rule_from_profile : Disk → Config → String → ℤ → Write
delete_rule_from_profile disk c id idx = with_rules c id λ i rules.
    if not (in_range idx rules)
    then (c, some index_out_of_range)
    else saved disk (set_rules c i (erase_idx rules (pos_part idx)))

unfoldable pub add_rule : Disk → Config → RoutingRule → Write
unfolding add_rule_to_profile
add_rule disk c rule = add_rule_to_profile disk c "" rule

unfoldable pub update_rule : Disk → Config → ℤ → RoutingRule → Write
unfolding update_rule_in_profile
update_rule disk c idx rule = update_rule_in_profile disk c "" idx rule

unfoldable pub delete_rule : Disk → Config → ℤ → Write
unfolding delete_rule_from_profile
delete_rule disk c idx = delete_rule_from_profile disk c "" idx
