-- ===== src/Config/Store.antt =====
-- config/store.go: the configuration in memory, read by routing and written by the admin API.
--
-- `save` writes the configuration to its file; whether the file system took it is the argument
-- `Disk` of every write. The change in memory stands either way, as in the source. A method that
-- returns a pointer into the store, or a deep copy of a part, returns that part: values are
-- immutable here, and `clone_rule` is translated field by field because a forgotten field is lost.
pub mod Servers
pub mod Rules
pub mod Profiles
pub mod Matching
pub mod History
mod Tests
use llm_api_router.Prelude.{
  ℕ, suc, ◌+◌, ℤ, pos, negsuc, String, ◌≡◌, Bool, true, false, not, ◌&&◌, ◌||◌, Option, none, some,
  List, [], ◌∷◌, ◌++◌, map, ltb, leb, str_eq, is_empty, length, get_elem?, set, erase_idx, select,
  find_idx?, is_some, pos_part, if◌then◌else◌, lookup, insert, delete, member, ltb_ℤ,
}
use mathlib.Core.Option
use llm_api_router.Domain.Server.{Server, ServerProtocol}
use llm_api_router.Domain.Rule.{
  RoutingRule, JevRouter, ServerRef, Role, server_refs, is_model_pattern, Float64,
}
use llm_api_router.Domain.Settings.{Config, RuleProfile, Settings}

-- The error that a write of the file ends with, if any.
abbrev pub Disk : Type 0
Disk = Config → Bool

pub data StoreError : Type 0 where
  server_exists server_not_found profile_not_found profile_exists profile_name_required : StoreError
  index_out_of_range only_profile save_failed : StoreError
  server_referenced : List ServerRef → StoreError

-- A write answers with the configuration as it then stands, and Go's error, `none` for nil.
abbrev pub Write : Type 0
Write = Config × Option StoreError

abbrev pub saved : Disk → Config → Write
saved disk c = (c, if disk c then none else some save_failed)

-- Copies of the jev router and of the rule, with fresh slices.
unfoldable pub clone_jev : JevRouter → JevRouter
clone_jev j = record j { candidates = j.candidates }

unfoldable pub clone_rule : RoutingRule → RoutingRule
unfolding clone_jev
clone_rule r = record {
  incoming_models = r.incoming_models;
  target_model = r.target_model;
  server_id = r.server_id;
  fallbacks = r.fallbacks;
  fallback_server_ids = r.fallback_server_ids;
  num_retries = r.num_retries;
  enabled = r.enabled;
  context_window = r.context_window;
  router = r.router;
  jev = elim r.jev [ none ↦ none | some j ↦ some (clone_jev j) ];
  convert = r.convert;
  balance = r.balance;
}

-- The configuration of a store whose file does not exist.
unfoldable pub new_config : Settings → Config
new_config s = record {
  servers = [];
  profiles = record { id = "default"; name = "default"; rules = [] } ∷ [];
  active_profile_id = "default";
  settings = s;
}

-- A pointer to a profile is its place in the list.
unfoldable pub profile_by_id : Config → String → Option ℕ
profile_by_id c id = find_idx? (λ p. str_eq p.id id) c.profiles

abbrev pub first_profile : List RuleProfile → Option ℕ
first_profile [] = none
first_profile (_ ∷ _) = some 0

unfoldable pub active_profile : Config → Option ℕ
active_profile c = elim (profile_by_id c c.active_profile_id) [
  | some i ↦ some i
  | none ↦ first_profile c.profiles
]

unfoldable pub resolve_profile : Config → String → Option ℕ
resolve_profile c id = if is_empty id then active_profile c else profile_by_id c id

-- The rules behind such a pointer.
unfoldable pub rules_at : List RuleProfile → Option ℕ → Option (List RoutingRule)
rules_at ps none = none
rules_at ps (some i) = Option.map (λ p. p.rules) (get_elem? ps i)

abbrev pub rules_of : Config → String → Option (List RoutingRule)
rules_of c id = rules_at c.profiles (resolve_profile c id)

unfoldable pub get_server : Config → String → Option Server
get_server c id = lookup id c.servers

unfoldable pub get_rules : Config → String → Option (List RoutingRule)
get_rules c id = Option.map (map clone_rule) (rules_of c id)

unfoldable pub rule_count : Config → String → ℕ
rule_count c id = elim (rules_of c id) [ none ↦ 0 | some rules ↦ length rules ]

unfoldable pub is_profile : Config → String → Bool
is_profile c id = is_some (resolve_profile c id)
