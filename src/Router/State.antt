-- ===== src/Router/State.antt =====
-- router/router.go: what the router keeps between requests, the members of an attempt list, and
-- the in-flight counts.
use llm_api_router.Prelude.{
  ℕ, ◌/◌, ℤ, pos, String, Bool, ◌&&◌, Option, [], Assoc, ltb_ℤ, is_pos, lookup_or, insert, ◌+ℤ◌,
  contains, if◌then◌else◌,
}
use llm_api_router.Domain.Server.{Server, ApiType, api_type_open_ai, api_type_anthropic}
use llm_api_router.Domain.Settings.{Config}
use llm_api_router.Config.Health.{HealthTracker}
use llm_api_router.Config.RateLimit.{RateLimiter}
use llm_api_router.Config.Quota.{QuotaTracker}

pub record StickyPin : Type 0 where
  pub server_id : String
  pub expires : ℕ

-- `none` is a nil pointer: a router may be built without any of the three trackers. A counter of
-- the rotation is a uint64, and `rotation_keys` counts the pools ever stored.
pub record Router : Type 0 where
  pub store : Config
  pub health : Option HealthTracker
  pub rate_limit : Option RateLimiter
  pub quota : Option QuotaTracker
  pub rotations : Assoc ℕ
  pub rotation_keys : ℕ
  pub inflight : Assoc ℤ
  pub pins : Assoc StickyPin

-- A server, and the model to send it.
pub record ServerAttempt : Type 0 where
  pub server : Server
  pub target_model : String
  pub convert : String
  pub context_window : ℤ

-- The router as it starts.
unfoldable pub new_router :
    Config → Option HealthTracker → Option RateLimiter → Option QuotaTracker → Router
new_router store health rate_limit quota = record {
  store = store;
  health = health;
  rate_limit = rate_limit;
  quota = quota;
  rotations = [];
  rotation_keys = 0;
  inflight = [];
  pins = [];
}

-- How many requests are open on a backend. (An int32 in the source, which fewer than 2^31 open
-- requests never wrap.)
unfoldable pub inflight_count : Router → String → ℤ
inflight_count r id = lookup_or id (pos 0) r.inflight

unfoldable pub count_inflight : Router → String → ℤ → Router
unfolding inflight_count
count_inflight r id delta = record r {
  inflight = insert id (inflight_count r id +ℤ delta) r.inflight;
}

-- The body is at least four times the prompt that it holds, in bytes.
unfoldable pub context_overflows : ℤ → ℕ → Bool
context_overflows window body_len = is_pos window && ltb_ℤ window (pos (body_len / 4))

unfoldable pub api_type_from_path : String → ApiType
api_type_from_path path = if contains path "/messages" then api_type_anthropic else api_type_open_ai
