-- ===== src/Router/Fixtures.antt =====
-- Settings and a backend that the tests of the router share.
use llm_api_router.Prelude.{pos, String, none, [], true, false}
use llm_api_router.Domain.Server.{Server}
use llm_api_router.Domain.Settings.{Settings}

abbrev pub settings : Settings
settings = record {
  always_include_stream_usage = false;
  trace = record { enabled = false; seconds = pos 0; models = []; servers = [] };
  convert = record { max_tokens_default = pos 0; drop_params = false; probe = true };
  inbound = record { rps = record { bits = 0 }; burst = pos 0; per_ip = false };
  cors = record { enabled = false; origins = [] };
  routing = record { max_fallbacks = pos 0 };
  health = record { interval_seconds = pos 30; timeout_seconds = pos 5; path = "" };
  limiter = record { allowed_fails = pos 3; cooldown_seconds = pos 300 };
  alerts = record { webhook = ""; proxy = "" };
}

abbrev pub backend : String → Server
backend id = record {
  id = id;
  name = id;
  url = "http://localhost:8080";
  open_ai_url = "";
  anthropic_url = "";
  proxy = "";
  proxy_enabled = none;
  api_key = "";
  api_types = [];
  protocols = [];
  cooldown_time = pos 0;
  tpm_limit = pos 0;
  rpm_limit = pos 0;
  max_parallel_requests = pos 0;
  keep_alive_idle = pos 0;
  headers = [];
}
