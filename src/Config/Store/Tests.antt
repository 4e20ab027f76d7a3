-- ===== src/Config/Store/Tests.antt =====
-- The configuration store on concrete inputs.
use Prim.Native.String.{len}
use llm_api_router.Prelude.{
  pos, String, ◌≡◌, refl, true, false, none, some, List, [], ◌∷◌, All, has_prefix, str_eq, ◌&&◌,
  ◌⊎◌, lookup, insert, delete, member,
}
use mathlib.Core.List.{Memᴰ}
use llm_api_router.Domain.Server.{Server}
use llm_api_router.Domain.Rule.{RoutingRule, server_refs, jev_refs, is_model_pattern}
use llm_api_router.Domain.Settings.{Config, Settings}
use llm_api_router.Config.Store.{
  Disk, new_config, profile_by_id, active_profile, resolve_profile, rules_at, get_rules, clone_rule,
  clone_jev,
}
use llm_api_router.Config.Store.Servers.{
  rules_refs, all_refs, references, audit_server_refs, add_server, update_server, delete_server,
}
use llm_api_router.Config.Store.Servers.References.{write, write-audit, deletes}
use llm_api_router.Config.Store.Rules.{
  set_rules, with_rules, add_rule_to_profile, update_rule_in_profile, delete_rule_from_profile,
}
use llm_api_router.Config.Store.Rules.Editing.{get_rules-edit}
use llm_api_router.Config.Store.Matching.{
  Glob, match_model_pattern, get_rule_by_model, scan_rules, scan_names,
}
use llm_api_router.Config.Store.Matching.Specificity.{
  owners, NoneLonger, get_rule_by_model-exact, get_rule_by_model-pattern,
}
use llm_api_router.Config.Store.Profiles.Invariant.{IsWellFormed}
use llm_api_router.Config.Store.History.{
  adds_profile, deletes_profile, edits, edits-IsWellFormed, new_config-IsWellFormed,
}

abbrev rule : List String → String → RoutingRule
rule models server = record {
  incoming_models = models;
  target_model = "";
  server_id = server;
  fallbacks = [];
  fallback_server_ids = [];
  num_retries = pos 0;
  enabled = true;
  context_window = pos 0;
  router = "";
  jev = none;
  convert = "";
  balance = "";
}

abbrev settings : Settings
settings = record {
  always_include_stream_usage = false;
  trace = record { enabled = false; seconds = pos 0; models = []; servers = [] };
  convert = record { max_tokens_default = pos 0; drop_params = false; probe = true };
  inbound = record { rps = record { bits = 0 }; burst = pos 0; per_ip = false };
  cors = record { enabled = false; origins = [] };
  routing = record { max_fallbacks = pos 0 };
  health = record { interval_seconds = pos 30; timeout_seconds = pos 5; path = "" };
  limiter = record { allowed_fails = pos 3; cooldown_seconds = pos 300 };
  alerts = record { webhook = ""; proxy = "" };
}

abbrev backend : String → Server
backend id = record {
  id = id;
  name = id;
  url = "http://localhost:8080";
  open_ai_url = "";
  anthropic_url = "";
  proxy = "";
  proxy_enabled = none;
  api_key = "";
  api_types = [];
  protocols = [];
  cooldown_time = pos 0;
  tpm_limit = pos 0;
  rpm_limit = pos 0;
  max_parallel_requests = pos 0;
  keep_alive_idle = pos 0;
  headers = [];
}

abbrev first_rule : RoutingRule
first_rule = rule ("qwen-*" ∷ "opus" ∷ []) "a"

abbrev second_rule : RoutingRule
second_rule = rule ("o*" ∷ []) "b"

-- A `*` at the end stands for any text, as for `path.Match`.
abbrev glob : Glob
glob pattern model = str_eq pattern "o*" && has_prefix model "o"

-- A store with two servers and two rules in its profile.
stocked : Config
unfolding new_config profile_by_id active_profile resolve_profile rules_at get_rules clone_rule
    clone_jev server_refs jev_refs is_model_pattern rules_refs all_refs references audit_server_refs
    add_server update_server delete_server set_rules with_rules add_rule_to_profile
    update_rule_in_profile delete_rule_from_profile match_model_pattern get_rule_by_model has_prefix
    owners scan_rules scan_names lookup insert delete member write edits
stocked = record (new_config settings) {
  servers = ("a", backend "a") ∷ ("b", backend "b") ∷ [];
  profiles =
      record { id = "default"; name = "default"; rules = first_rule ∷ second_rule ∷ [] } ∷ [];
}

-- The disk takes everything.
abbrev disk : Disk
disk _ = true

-- A server that a rule names is not deleted.
write-audit_example : audit_server_refs (write disk stocked (deletes "a")) ≡ []
unfolding stocked
write-audit_example = write-audit disk stocked (deletes "a") refl

get_rules-edit_example :
    (get_rules (add_rule_to_profile disk stocked "" second_rule).0 ""
      ≡ some (first_rule ∷ second_rule ∷ second_rule ∷ []))
    × (get_rules (update_rule_in_profile disk stocked "" (pos 0) second_rule).0 ""
        ≡ some (second_rule ∷ second_rule ∷ []))
    × (get_rules (delete_rule_from_profile disk stocked "" (pos 0)).0 "" ≡ some (second_rule ∷ []))
unfolding stocked
get_rules-edit_example = get_rules-edit disk stocked "" (pos 0) second_rule refl

get_rule_by_model-exact_example :
    get_rule_by_model glob stocked "opus" ≡ some (clone_rule first_rule)
unfolding stocked
get_rule_by_model-exact_example = get_rule_by_model-exact glob stocked "opus" refl refl

edits-IsWellFormed_example :
    IsWellFormed (
      edits disk (new_config settings) (adds_profile "night" true ∷ deletes_profile "default" ∷ []))
edits-IsWellFormed_example =
    edits-IsWellFormed disk (new_config settings)
      (adds_profile "night" true ∷ deletes_profile "default" ∷ [])
      (new_config-IsWellFormed settings)

-- No rule lists the name, and `o*` matches it.
get_rule_by_model-pattern_example :
    ((get_rule_by_model glob stocked "oz" ≡ none)
      × All
          (λ p. match_model_pattern glob p.0 "oz" ≡ false)
          (owners (first_rule ∷ second_rule ∷ [])))
    ⊎ ((n : String) × (r : RoutingRule) × Memᴰ (n, r) (owners (first_rule ∷ second_rule ∷ []))
        × (get_rule_by_model glob stocked "oz" ≡ some (clone_rule r))
        × (match_model_pattern glob n "oz" ≡ true)
        × NoneLonger glob "oz" (len n) (owners (first_rule ∷ second_rule ∷ [])))
unfolding stocked
get_rule_by_model-pattern_example =
    get_rule_by_model-pattern glob stocked "oz" refl (refl, (refl, (refl, tt)))
