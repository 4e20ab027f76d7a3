-- ===== src/Router/Handle.antt =====
-- router/router.go: `Handle`, from the method of a request to its reply.
pub mod Answered
mod Tests
use llm_api_router.Prelude.{
  ℕ, ◌/◌, ℤ, String, Bool, not, ◌&&◌, ◌||◌, Option, none, some, List, [], ◌∷◌, ◌++◌, is_empty,
  str_eq, contains, has_prefix, ltb, length, take, if◌then◌else◌,
}
use llm_api_router.Domain.Server.{Server}
use llm_api_router.Domain.Rule.{JevRouter, RoutingRule, balances}
use llm_api_router.Domain.Settings.{Config}
use llm_api_router.Config.Store.{get_server}
use llm_api_router.Config.Store.Matching.{Glob, get_rule_by_model}
use llm_api_router.Convert.Dialect.{dialect_for_path}
use llm_api_router.Convert.Plan.{Plan}
use llm_api_router.Router.State.{Router, ServerAttempt}
use llm_api_router.Router.Budget.{retry_budget}
use llm_api_router.Router.World.{World, Request, Prepared, Answer}
use llm_api_router.Router.Attempts.{handle_attempts}
use llm_api_router.Router.Chain.{Weighted, static_attempts, balanced_attempts, capped}
use llm_api_router.Router.Listing.{ListedModel, list_models, model_names, jev_of}
use llm_api_router.Router.Jev.{JevOutcome, Capability}
use llm_api_router.Router.Jev.Memory.{JevMemory}
use llm_api_router.Router.Jev.Decision.{JevRequest, Ask}
use llm_api_router.Router.Jev.Attempts.{jev_attempts}

-- A request as it comes in. The model is what `extractModel` reads, then the field of a multipart
-- form, then the trimmed query parameter; the numbers of retries are those of the header.
pub record Incoming : Type 0 where
  pub method : String
  pub path : String
  pub readable : Bool
  pub body_len : ℕ
  pub json_model : Option String
  pub form_model : Option String
  pub query_model : String
  pub client_retries : Option ℤ
  pub header_convert : String
  pub conversation : String
  pub jev : JevRequest
  pub prepare : ServerAttempt → Plan → Prepared
  pub now : ℕ

-- What the client gets; an attempt that was made has its answer.
pub data Reply : Type 0 where
  listing : List ListedModel → Reply
  method_not_allowed unreadable_body invalid_body : Reply
  token_estimate : ℕ → Reply
  no_rule : List String → Reply
  server_missing : String → Reply
  blocked_by_gate : Reply
  attempted : Answer → Reply

-- The router with what its jev rules remember.
abbrev pub Front : Type 0
Front = Router × JevMemory

unfoldable pub model_of : Incoming → Option String
model_of inc = elim inc.json_model [
  | some m ↦ some m
  | none ↦ elim inc.form_model [
    | some m ↦ some m
    | none ↦
        if not (is_empty inc.query_model) && str_eq inc.method "GET"
        then some inc.query_model
        else if str_eq inc.path "/v1/systemone"
        then some "systemone"
        else none
  ]
]

-- The attempt loop's view of a request under a rule.
unfoldable pub request_of : Incoming → RoutingRule → String → Request
unfolding retry_budget dialect_for_path
request_of inc rule pin_key =
    let (num_retries, explicit) = retry_budget rule.num_retries inc.client_retries in
    record {
      path = inc.path;
      dialect = dialect_for_path inc.path;
      body_len = inc.body_len;
      header_convert = inc.header_convert;
      pin_key = pin_key;
      num_retries = num_retries;
      explicit_retries = explicit;
      prepare = inc.prepare;
    }

-- The names in the answer to an unknown model.
unfoldable pub named_in_404 : List String → List String
named_in_404 names = if ltb 20 (length names) then take 20 names ++ "…" ∷ [] else names

-- POST, and the GETs of the audio routes.
abbrev pub is_proxied : Incoming → Bool
is_proxied inc =
    str_eq inc.method "POST" || str_eq inc.method "GET" && has_prefix inc.path "/v1/audio/"

-- The tests of a request before its model is looked at: whether it asks for the listing, is to be
-- proxied, can be read, and asks for a token count.
pub data Screen : Type 0 where
  lists refuses_method refuses_body estimates proceeds : Screen

unfoldable pub screen : Bool → Bool → Bool → Bool → Screen
screen listed proxied readable counted =
    if listed
    then lists
    else if not proxied
    then refuses_method
    else if not readable
    then refuses_body
    else if counted
    then estimates
    else proceeds

-- Only a pool that balances pins a conversation.
abbrev pub pin_of : Incoming → RoutingRule → List Weighted → String
pin_of inc rule pool = if ltb 1 (length pool) && balances rule.balance then inc.conversation else ""

module _ (w : World) where
  unfoldable pub try_all :
      Incoming → RoutingRule → String → List ServerAttempt → Front → Front × Reply
  unfolding handle_attempts capped request_of
  try_all inc rule pin_key attempts (r, m) =
      let (r1, answer) =
        handle_attempts w (request_of inc rule pin_key) (capped r.store attempts) r in
      ((r1, m), attempted answer)

  -- A static rule, with its primary server.
  unfoldable pub route_static : Incoming → RoutingRule → Option Server → Front → Front × Reply
  unfolding try_all static_attempts balanced_attempts
  route_static inc rule none f = (f, server_missing rule.server_id)
  route_static inc rule (some primary) (r, m) =
      let pool = static_attempts r.store rule primary in
      let (r1, attempts) = balanced_attempts r inc.now rule inc.conversation pool in
      try_all inc rule (pin_of inc rule pool) attempts (r1, m)

  -- After the decision of a jev rule.
  unfoldable pub after_jev :
      Incoming → RoutingRule → List ServerAttempt → JevOutcome → Front → Front × Reply
  unfolding try_all
  after_jev inc rule attempts out f =
      if str_eq out.reason "blocked" then (f, blocked_by_gate) else try_all inc rule "" attempts f

module _ (w : World) (glob : Glob) (digest : List String → String) (ask : Ask)
    (audio vision : Capability) where
  unfoldable pub route_rule : Incoming → RoutingRule → Option JevRouter → Front → Front × Reply
  unfolding route_static after_jev jev_attempts get_server
  route_rule inc rule none (r, m) =
      route_static w inc rule (get_server r.store rule.server_id) (r, m)
  route_rule inc rule (some j) (r, m) =
      let (m1, attempts, out) = jev_attempts digest ask audio vision r.store m rule j inc.jev in
      after_jev w inc rule attempts out (r, m1)

  unfoldable pub route_model : Incoming → Option RoutingRule → Front → Front × Reply
  unfolding named_in_404 model_names
  route_model inc none (r, m) = ((r, m), no_rule (named_in_404 (model_names r.store)))
  route_model inc (some rule) f = route_rule inc rule (jev_of rule) f

  unfoldable pub handle_model : Incoming → Option String → Front → Front × Reply
  unfolding get_rule_by_model
  handle_model inc none f = (f, invalid_body)
  handle_model inc (some model) (r, m) =
      route_model inc (get_rule_by_model glob r.store model) (r, m)

  -- What the screen of a request says.
  unfoldable pub after_screen : Incoming → Screen → Front → Front × Reply
  unfolding list_models handle_model model_of
  after_screen inc lists (r, m) = ((r, m), listing (list_models r.store r.health))
  after_screen inc refuses_method f = (f, method_not_allowed)
  after_screen inc refuses_body f = (f, unreadable_body)
  after_screen inc estimates f = (f, token_estimate (inc.body_len / 4))
  after_screen inc proceeds f = handle_model inc (model_of inc) f

  unfoldable pub handle_request : Incoming → Front → Front × Reply
  unfolding after_screen screen has_prefix contains
  handle_request inc f =
      after_screen inc
        (screen (str_eq inc.method "GET" && str_eq inc.path "/v1/models") (is_proxied inc)
          inc.readable (contains inc.path "/count_tokens"))
        f
