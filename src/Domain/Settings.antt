-- ===== src/Domain/Settings.antt =====
-- domain/config.go: profiles, the configuration and its settings.
use llm_api_router.Prelude.{ℤ, pos, String, Bool, List, Assoc, ltb_ℤ, is_zero, if◌then◌else◌}
use llm_api_router.Domain.Server.{Server}
use llm_api_router.Domain.Rule.{RoutingRule, Float64}

pub record RuleProfile : Type 0 where
  pub id : String
  pub name : String
  pub rules : List RoutingRule

pub record AlertSettings : Type 0 where
  pub webhook : String
  pub proxy : String

pub record HealthSettings : Type 0 where
  pub interval_seconds : ℤ
  pub timeout_seconds : ℤ
  pub path : String

pub record LimiterSettings : Type 0 where
  pub allowed_fails : ℤ
  pub cooldown_seconds : ℤ

pub record RoutingSettings : Type 0 where
  pub max_fallbacks : ℤ

pub record InboundSettings : Type 0 where
  pub rps : Float64
  pub burst : ℤ
  pub per_ip : Bool

pub record CosSettings : Type 0 where
  pub enabled : Bool
  pub origins : List String

pub record TraceSettings : Type 0 where
  pub enabled : Bool
  pub seconds : ℤ
  pub models : List String
  pub servers : List String

pub record ConvertSettings : Type 0 where
  pub max_tokens_default : ℤ
  pub drop_params : Bool
  pub probe : Bool

unfoldable pub max_tokens : ConvertSettings → ℤ
max_tokens c =
    if ltb_ℤ c.max_tokens_default (pos 0)
    then pos 0
    else if is_zero c.max_tokens_default
    then pos 4096
    else c.max_tokens_default

pub record Settings : Type 0 where
  pub always_include_stream_usage : Bool
  pub trace : TraceSettings
  pub convert : ConvertSettings
  pub inbound : InboundSettings
  pub cors : CosSettings
  pub routing : RoutingSettings
  pub health : HealthSettings
  pub limiter : LimiterSettings
  pub alerts : AlertSettings

pub record Config : Type 0 where
  pub servers : Assoc Server
  pub profiles : List RuleProfile
  pub active_profile_id : String
  pub settings : Settings
