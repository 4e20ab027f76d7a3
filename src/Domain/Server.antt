-- ===== src/Domain/Server.antt =====
-- domain/server.go: backends, their protocol declarations, and the fallback entries of a rule.
use llm_api_router.Prelude.{
  ℤ, String, Bool, true, false, not, Option, none, some, List, Assoc, any, str_eq, is_empty,
  if◌then◌else◌,
}

-- A Go string type, whose values a hand-written file may extend.
abbrev pub ApiType : Type 0
ApiType = String

abbrev pub api_type_open_ai : ApiType
api_type_open_ai = "openai"

abbrev pub api_type_anthropic : ApiType
api_type_anthropic = "anthropic"

pub record ServerProtocol : Type 0 where
  pub path : String
  pub state : Bool

-- `*bool` is an option; `headers` is a map; the int and int64 fields are signed.
pub record Server : Type 0 where
  pub id : String
  pub name : String
  pub url : String
  pub open_ai_url : String
  pub anthropic_url : String
  pub proxy : String
  pub proxy_enabled : Option Bool
  pub api_key : String
  pub api_types : List ApiType
  pub protocols : List ServerProtocol
  pub cooldown_time : ℤ
  pub tpm_limit : ℤ
  pub rpm_limit : ℤ
  pub max_parallel_requests : ℤ
  pub keep_alive_idle : ℤ
  pub headers : Assoc String

unfoldable pub get_url_for_api_type : Server → ApiType → String
get_url_for_api_type s t =
    if str_eq t api_type_open_ai
    then (if not (is_empty s.open_ai_url) then s.open_ai_url else s.url)
    else if str_eq t api_type_anthropic
    then (if not (is_empty s.anthropic_url) then s.anthropic_url else s.url)
    else s.url

-- `p == nil || !*p` for a `*bool`, and the two readings of an unset one.
abbrev pub is_true : Option Bool → Bool
is_true none = false
is_true (some b) = b

abbrev pub is_true_or_unset : Option Bool → Bool
is_true_or_unset none = true
is_true_or_unset (some b) = b

unfoldable pub proxy_url : Server → String
proxy_url s = if not (is_true s.proxy_enabled) then "" else s.proxy

unfoldable pub supports_api_type : Server → ApiType → Bool
supports_api_type s t = any (λ a. str_eq a t) s.api_types

pub record FallbackEntry : Type 0 where
  pub server_id : String
  pub target_model : String
  pub enabled : Option Bool
  pub priority : ℤ
  pub convert : String
  pub context_window : ℤ
  pub weight : ℤ

unfoldable pub fallback_is_enabled : FallbackEntry → Bool
fallback_is_enabled f = is_true_or_unset f.enabled
