-- ===== src/Router/Handle/Tests.antt =====
-- A request for a static rule, from its method to its answer.
use llm_api_router.Prelude.{
  zero, ◌+◌, pos, refl, true, false, none, some, [], ◌∷◌, lookup, contains, has_prefix,
}
use llm_api_router.Domain.Rule.{RoutingRule, is_jev, is_model_pattern}
use llm_api_router.Domain.Settings.{Config}
use llm_api_router.Config.Store.{get_server, clone_rule, rules_at, active_profile, profile_by_id}
use llm_api_router.Config.Store.Matching.{Glob, get_rule_by_model, scan_rules, scan_names}
use llm_api_router.Router.State.{Router, new_router}
use llm_api_router.Router.Budget.{unreachable_error}
use llm_api_router.Router.World.{World, ready, served, transport}
use llm_api_router.Router.Listing.{jev_of}
use llm_api_router.Router.Jev.{Capability}
use llm_api_router.Router.Jev.Memory.{JevMemory}
use llm_api_router.Router.Jev.Decision.{Ask}
use llm_api_router.Router.Fixtures.{settings, backend}
use llm_api_router.Router.Handle.{Incoming, model_of, handle_request}
use llm_api_router.Router.Handle.Answered.{
  IsAnswered, attempts_of, is_blocked, handle_request-IsAnswered,
}

abbrev rule : RoutingRule
rule = record {
  incoming_models = "qwen" ∷ [];
  target_model = "";
  server_id = "a";
  fallbacks = [];
  fallback_server_ids = [];
  num_retries = pos 0;
  enabled = true;
  context_window = pos 0;
  router = "";
  jev = none;
  convert = "";
  balance = "";
}

abbrev store : Config
store = record {
  servers = ("a", backend "a") ∷ [];
  profiles = record { id = "default"; name = "default"; rules = rule ∷ [] } ∷ [];
  active_profile_id = "default";
  settings = settings;
}

abbrev router : Router
unfolding new_router
router = new_router store none none none

abbrev nothing : JevMemory
nothing = record { cache = []; sticky = [] }

abbrev world : World
world = record {
  clock = λ i retry. i + retry;
  backend = λ i retry. elim retry [
    | zero ↦ transport unreachable_error (pos 0) false
    | _ ↦ served 200 (pos 0) (pos 7)
  ];
}

abbrev incoming : Incoming
incoming = record {
  method = "POST";
  path = "/v1/chat/completions";
  readable = true;
  body_len = 100;
  json_model = some "qwen";
  form_model = none;
  query_model = "";
  client_retries = some (pos 2);
  header_convert = "";
  conversation = "me";
  jev = record {
    requested = "qwen";
    text = "hello";
    context_tokens = pos 25;
    images = [];
    session_key = "";
    header_off = false;
    path = "/v1/chat/completions";
    now = 5;
    answered_at = 6;
  };
  prepare = λ a p. ready (pos 4096);
  now = 5;
}

abbrev exactly : Glob
exactly = λ pattern model. false

abbrev silent : Ask
silent = λ srv q. (none, pos 0)

abbrev unknown : Capability
unknown = λ srv model. none

handle_request-IsAnswered_example :
    IsAnswered world incoming rule
      (attempts_of
        (λ parts. "")
        silent
        unknown
        unknown
        incoming
        rule
        (jev_of rule)
        (router, nothing))
      (is_blocked
        (λ parts. "")
        silent
        unknown
        unknown
        incoming
        rule
        (jev_of rule)
        (router, nothing))
      (handle_request world exactly
        (λ parts. "")
        silent
        unknown
        unknown
        incoming
        (router, nothing)).1
unfolding contains has_prefix model_of get_rule_by_model scan_rules scan_names clone_rule rules_at
    active_profile profile_by_id is_model_pattern jev_of is_jev get_server lookup router new_router
handle_request-IsAnswered_example =
    handle_request-IsAnswered world exactly (λ parts. "") silent unknown unknown incoming "qwen"
      rule router nothing refl refl refl refl refl refl
