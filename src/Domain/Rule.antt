-- ===== src/Domain/Rule.antt =====
-- domain/rule.go: routing rules, the jev router's pool, the backends that a rule names, and the
-- shape check of the admin API.
use Prim.Native.Char.{code}
use llm_api_router.Prelude.{
  ℕ, ℤ, String, Bool, true, false, not, Option, none, some, List, [], ◌∷◌, ◌++◌, ◌||◌, ◌&&◌, map,
  select, str_eq, is_empty, if◌then◌else◌, ◌==◌,
}
use llm_api_router.Domain.Server.{FallbackEntry, is_true_or_unset}

abbrev pub router_static : String
router_static = ""

abbrev pub router_jev : String
router_jev = "jev"

abbrev pub balance_round_robin : String
balance_round_robin = "round-robin"

abbrev pub balance_least_connections : String
balance_least_connections = "least-connections"

unfoldable pub balances : String → Bool
balances mode = str_eq mode balance_round_robin || str_eq mode balance_least_connections

-- The 64 bits of a float64 that the configuration carries and nothing here computes with.
pub record Float64 : Type 0 where
  pub bits : ℕ

pub record JevCandidate : Type 0 where
  pub server_id : String
  pub target_model : String
  pub description : String
  pub tier : ℤ
  pub context_window : ℤ
  pub vision : Option Bool
  pub enabled : Option Bool
  pub convert : String

unfoldable pub candidate_is_enabled : JevCandidate → Bool
candidate_is_enabled c = is_true_or_unset c.enabled

pub record JevRouter : Type 0 where
  pub server_id : String
  pub model : String
  pub question : String
  pub candidates : List JevCandidate
  pub min_confidence : Float64
  pub default_tier : ℤ
  pub timeout_ms : ℤ
  pub state_max_chars : ℤ
  pub security : Bool
  pub cache_ttl : ℤ
  pub images : Bool

unfoldable pub enabled_candidates : JevRouter → List JevCandidate
unfolding candidate_is_enabled
enabled_candidates j = select candidate_is_enabled j.candidates

pub record RoutingRule : Type 0 where
  pub incoming_models : List String
  pub target_model : String
  pub server_id : String
  pub fallbacks : List FallbackEntry
  pub fallback_server_ids : List String
  pub num_retries : ℤ
  pub enabled : Bool
  pub context_window : ℤ
  pub router : String
  pub jev : Option JevRouter
  pub convert : String
  pub balance : String

unfoldable pub is_jev : RoutingRule → Bool
is_jev r = str_eq r.router router_jev && elim r.jev [ none ↦ false | some _ ↦ true ]

pub data Role : Type 0 where
  primary_server fallback_server jev_decision_server jev_candidate : Role

pub record ServerRef : Type 0 where
  pub id : String
  pub role : Role

abbrev ref_to : Role → String → ServerRef
ref_to r s = record { id = s; role = r }

unfoldable pub jev_refs : JevRouter → List ServerRef
jev_refs j =
    (if not (is_empty j.server_id) then ref_to jev_decision_server j.server_id ∷ [] else [])
    ++ map (λ c. ref_to jev_candidate c.server_id) j.candidates

-- Every backend that the rule names. (The fallbacks that are switched off are named too.)
unfoldable pub server_refs : RoutingRule → List ServerRef
unfolding jev_refs
server_refs r =
    (if not (is_empty r.server_id) then ref_to primary_server r.server_id ∷ [] else [])
    ++ (map (λ fb. ref_to fallback_server fb.server_id) r.fallbacks
        ++ elim r.jev [ none ↦ [] | some j ↦ jev_refs j ])

pub data RuleError : Type 0 where
  no_incoming_model jev_missing no_decision_server no_enabled_candidate no_primary_server :
      RuleError
  bad_balance : RuleError

abbrev is_nil {ℓ} : {A : Type ℓ} → List A → Bool
is_nil [] = true
is_nil (_ ∷ _) = false

unfoldable pub validate_jev : Option JevRouter → Option RuleError
unfolding enabled_candidates
validate_jev none = some jev_missing
validate_jev (some j) =
    if is_empty j.server_id
    then some no_decision_server
    else if is_nil (enabled_candidates j)
    then some no_enabled_candidate
    else none

unfoldable pub validate_static : RoutingRule → Option RuleError
validate_static r =
    if is_empty r.server_id
    then some no_primary_server
    else if is_empty r.balance
        || (str_eq r.balance balance_round_robin || str_eq r.balance balance_least_connections)
    then none
    else some bad_balance

-- `none` is Go's nil error.
unfoldable pub validate : RoutingRule → Option RuleError
unfolding validate_jev validate_static
validate r =
    if is_nil r.incoming_models
    then some no_incoming_model
    else if str_eq r.router router_jev
    then validate_jev r.jev
    else validate_static r

-- `strings.ContainsAny(name, "*?")`.
unfoldable pub is_model_pattern : String → Bool
is_model_pattern String.[] = false
is_model_pattern (String.◌∷◌ c s) = (code c == b'*' || code c == b'?') || is_model_pattern s
