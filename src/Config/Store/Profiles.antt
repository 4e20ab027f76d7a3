-- ===== src/Config/Store/Profiles.antt =====
-- config/store.go: the writes on profiles.
pub mod Invariant
use llm_api_router.Prelude.{
  ℕ, suc, ◌+◌, ℤ, pos, String, ◌≡◌, Bool, true, false, not, ◌&&◌, ◌||◌, Option, none, some, List,
  [], ◌∷◌, ◌++◌, map, ltb, str_eq, is_empty, length, get_elem?, set, erase_idx, modify, any, ◌==◌,
  find_idx?, is_some, pos_part, if◌then◌else◌, lookup, insert, delete, member, ltb_ℤ,
}
use mathlib.Core.Option
use llm_api_router.Domain.Server.{Server}
use llm_api_router.Domain.Rule.{RoutingRule, ServerRef, server_refs, is_model_pattern}
use llm_api_router.Domain.Settings.{Config, RuleProfile}
use llm_api_router.Config.Store.{
  Disk, Write, StoreError, server_exists, server_not_found, profile_not_found, profile_exists,
  profile_name_required, index_out_of_range, only_profile, server_referenced, saved, clone_rule,
  resolve_profile, rules_at, profile_by_id, active_profile, rules_of,
}

-- A name that another profile has, as its name or as its id.
abbrev pub is_taken : String → RuleProfile → Bool
is_taken name p = str_eq p.name name || str_eq p.id name

unfoldable pub active_rules : Config → List RoutingRule
active_rules c = elim (rules_at c.profiles (active_profile c)) [ none ↦ [] | some rules ↦ rules ]

-- Go also returns the id of the new profile, which is its name.
unfoldable pub add_profile : Disk → Config → String → Bool → Write
unfolding active_rules
add_profile disk c name copy_from_active =
    if is_empty name
    then (c, some profile_name_required)
    else if any (is_taken name) c.profiles
    then (c, some profile_exists)
    else let rules = if copy_from_active then map clone_rule (active_rules c) else [] in
      saved disk (record c {
        profiles = c.profiles ++ record { id = name; name = name; rules = rules } ∷ [];
      })

abbrev pub renamed : String → RuleProfile → RuleProfile
renamed name p = record p { name = name }

unfoldable pub rename_profile : Disk → Config → String → String → Write
rename_profile disk c id name =
    if is_empty name then (c, some profile_name_required) else elim (profile_by_id c id) [
      | none ↦ (c, some profile_not_found)
      | some i ↦
          if any (λ p. not (str_eq p.id id) && is_taken name p) c.profiles
          then (c, some profile_exists)
          else saved disk (record c { profiles = modify (renamed name) c.profiles i })
    ]

-- The id of the first profile; Go would panic if there were none.
unfoldable pub first_id : List RuleProfile → String → String
first_id [] default = default
first_id (p ∷ ps) default = p.id

unfoldable pub delete_profile : Disk → Config → String → Write
unfolding first_id
delete_profile disk c id = elim (profile_by_id c id) [
  | none ↦ (c, some profile_not_found)
  | some i ↦
      if length c.profiles == 1
      then (c, some only_profile)
      else let rest = erase_idx c.profiles i in
        saved disk (record c {
          profiles = rest;
          active_profile_id =
              if str_eq c.active_profile_id id
              then first_id rest c.active_profile_id
              else c.active_profile_id;
        })
]

unfoldable pub set_active_profile : Disk → Config → String → Write
set_active_profile disk c id = elim (profile_by_id c id) [
  | none ↦ (c, some profile_not_found)
  | some _ ↦ saved disk (record c { active_profile_id = id })
]
