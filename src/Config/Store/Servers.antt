-- ===== src/Config/Store/Servers.antt =====
-- config/store.go: servers, the rules that name them, and the writes that keep the two together.
pub mod References
use llm_api_router.Prelude.{
  ℕ, suc, ◌+◌, ℤ, pos, String, ◌≡◌, Bool, true, false, not, ◌&&◌, ◌||◌, Option, none, some, List,
  [], ◌∷◌, ◌++◌, map, ltb, str_eq, is_empty, length, get_elem?, set, erase_idx, select, find_idx?,
  is_some, pos_part, if◌then◌else◌, lookup, insert, delete, member, ltb_ℤ,
}
use mathlib.Core.Option
use llm_api_router.Domain.Server.{Server}
use llm_api_router.Domain.Rule.{RoutingRule, ServerRef, server_refs, is_model_pattern}
use llm_api_router.Domain.Settings.{Config, RuleProfile}
use llm_api_router.Config.Store.{
  Disk, Write, StoreError, server_exists, server_not_found, profile_not_found, profile_exists,
  profile_name_required, index_out_of_range, only_profile, server_referenced, saved, clone_rule,
  resolve_profile, rules_at, profile_by_id, active_profile, rules_of,
}

-- Every backend that a rule of any profile names.
unfoldable pub rules_refs : List RoutingRule → List ServerRef
rules_refs [] = []
rules_refs (r ∷ rs) = server_refs r ++ rules_refs rs

unfoldable pub all_refs : List RuleProfile → List ServerRef
unfolding rules_refs
all_refs [] = []
all_refs (p ∷ ps) = rules_refs p.rules ++ all_refs ps

-- The mentions of one server, and the mentions of servers that are not defined. (Go renders each
-- as a sentence.)
unfoldable pub references : Config → String → List ServerRef
unfolding all_refs
references c id = select (λ ref. str_eq ref.id id) (all_refs c.profiles)

unfoldable pub audit_server_refs : Config → List ServerRef
unfolding all_refs
audit_server_refs c = select (λ ref. not (member ref.id c.servers)) (all_refs c.profiles)

unfoldable pub missing_servers : Config → RoutingRule → List ServerRef
missing_servers c r =
    select (λ ref. not (is_empty ref.id) && not (member ref.id c.servers)) (server_refs r)

-- Writes on servers. The slices and maps of the argument are copied.
unfoldable pub add_server : Disk → Config → Server → Write
add_server disk c srv =
    if member srv.id c.servers
    then (c, some server_exists)
    else saved disk (record c { servers = insert srv.id srv c.servers })

unfoldable pub update_server : Disk → Config → String → Server → Write
update_server disk c id srv =
    if not (member id c.servers)
    then (c, some server_not_found)
    else saved disk (record c { servers = insert id (record srv { id = id }) c.servers })

unfoldable pub delete_server : Disk → Config → String → Write
delete_server disk c id =
    if not (member id c.servers) then (c, some server_not_found) else elim (references c id) [
      | ref ∷ refs ↦ (c, some (server_referenced (ref ∷ refs)))
      | [] ↦ saved disk (record c { servers = delete id c.servers })
    ]
