-- ===== src/Metrics.antt =====
-- metrics/metrics.go: the ring of recent requests and the totals per key.
--
-- What is computed in floating point is left out: the averages and the rates of tokens, and the
-- times that the backend's own timings give.
pub mod Counts
pub mod Totals
pub mod Recent
mod Tests
use Prim.Native.String.{◌++◌ as append}
use llm_api_router.Prelude.{
  ℕ, suc, ◌+◌, ◌%◌, ℤ, pos, negsuc, ◌+ℤ◌, add64, is_pos, ltb_ℤ, String, Bool, true, false, not,
  ◌&&◌, ◌||◌, Option, none, some, List, [], ◌∷◌, ◌++◌, ltb, leb, ◌==◌, max, set, take, drop,
  replicate, is_empty, str_eq, Assoc, lookup_or, insert, if◌then◌else◌,
}
use llm_api_router.Domain.Server.{ApiType, api_type_anthropic}
use llm_api_router.Domain.Metric.{StatusClass, status_class, add_latency_bucket, is_class}

-- A latency is a difference of two clock readings, never negative.
pub record RequestMetric : Type 0 where
  pub model : String
  pub target_model : String
  pub server_id : String
  pub class : String
  pub api_type : ApiType
  pub status_code : ℕ
  pub latency_ms : ℕ
  pub ttfb_ms : ℕ
  pub was_fallback : Bool
  pub response_size : ℤ
  pub prompt_tokens : ℤ
  pub completion_tokens : ℤ
  pub total_tokens : ℤ
  pub cached_tokens : ℤ
  pub reasoning_tokens : ℤ
  pub cache_creation_tokens : ℤ

-- A class that the map of counts does not have is counted 0.
pub record Summary : Type 0 where
  pub total_requests : ℕ
  pub success_count : ℕ
  pub error_count : ℕ
  pub fallback_count : ℕ
  pub min_latency_ms : ℕ
  pub max_latency_ms : ℕ
  pub status_class_count : StatusClass → ℕ
  pub latency_ms_buckets : Option (List ℕ)
  pub ttfb_ms_buckets : Option (List ℕ)
  pub latency_ms_sum : ℕ
  pub ttfb_ms_sum : ℕ
  pub total_bytes : ℤ
  pub total_prompt_tok : ℤ
  pub total_input_tok : ℤ
  pub total_complete_tok : ℤ
  pub total_tokens : ℤ
  pub total_cached_tok : ℤ
  pub total_reasoning_tok : ℤ
  pub total_cache_creation_tok : ℤ

-- `&domain.Summary{}`.
abbrev pub no_requests : Summary
no_requests = record {
  total_requests = 0;
  success_count = 0;
  error_count = 0;
  fallback_count = 0;
  min_latency_ms = 0;
  max_latency_ms = 0;
  status_class_count = λ _. 0;
  latency_ms_buckets = none;
  ttfb_ms_buckets = none;
  latency_ms_sum = 0;
  ttfb_ms_sum = 0;
  total_bytes = pos 0;
  total_prompt_tok = pos 0;
  total_input_tok = pos 0;
  total_complete_tok = pos 0;
  total_tokens = pos 0;
  total_cached_tok = pos 0;
  total_reasoning_tok = pos 0;
  total_cache_creation_tok = pos 0;
}

pub record Store : Type 0 where
  pub recent_requests : List RequestMetric
  pub ring_index : ℕ
  pub ring_count : ℕ
  pub summaries : Assoc Summary
  pub max_recent : ℕ
  pub active : ℤ

-- Go's zero metric fills the ring.
unfoldable pub new_metrics : RequestMetric → ℕ → Store
new_metrics zero_metric max_recent = record {
  recent_requests = replicate max_recent zero_metric;
  ring_index = 0;
  ring_count = 0;
  summaries = [];
  max_recent = max_recent;
  active = pos 0;
}

abbrev pub is_success : RequestMetric → Bool
is_success m = leb 200 m.status_code && ltb m.status_code 300

-- The whole input context of a request.
unfoldable input_tokens : RequestMetric → ℤ
input_tokens m =
    if str_eq m.api_type api_type_anthropic
    then add64
        (if is_pos m.cached_tokens then add64 m.prompt_tokens m.cached_tokens else m.prompt_tokens)
        m.cache_creation_tokens
    else m.prompt_tokens

unfoldable pub update_summary : Summary → RequestMetric → Summary
unfolding input_tokens
update_summary sum m = record sum {
  total_requests = sum.total_requests + 1;
  success_count = if is_success m then sum.success_count + 1 else sum.success_count;
  error_count = if is_success m then sum.error_count else sum.error_count + 1;
  status_class_count = λ c.
      if is_class c (status_class m.status_code)
      then sum.status_class_count c + 1
      else sum.status_class_count c;
  latency_ms_buckets = some (add_latency_bucket sum.latency_ms_buckets m.latency_ms);
  ttfb_ms_buckets = some (add_latency_bucket sum.ttfb_ms_buckets m.ttfb_ms);
  latency_ms_sum = sum.latency_ms_sum + m.latency_ms;
  ttfb_ms_sum = sum.ttfb_ms_sum + m.ttfb_ms;
  fallback_count = if m.was_fallback then sum.fallback_count + 1 else sum.fallback_count;
  min_latency_ms =
      if (sum.min_latency_ms == 0) || ltb m.latency_ms sum.min_latency_ms
      then m.latency_ms
      else sum.min_latency_ms;
  max_latency_ms = if ltb sum.max_latency_ms m.latency_ms then m.latency_ms else sum.max_latency_ms;
  total_bytes = add64 sum.total_bytes m.response_size;
  total_prompt_tok = add64 sum.total_prompt_tok m.prompt_tokens;
  total_input_tok = add64 sum.total_input_tok (input_tokens m);
  total_complete_tok = add64 sum.total_complete_tok m.completion_tokens;
  total_tokens = add64 sum.total_tokens m.total_tokens;
  total_cached_tok =
      if ltb_ℤ m.cached_tokens (pos 0)
      then sum.total_cached_tok
      else add64 sum.total_cached_tok m.cached_tokens;
  total_reasoning_tok = add64 sum.total_reasoning_tok m.reasoning_tokens;
  total_cache_creation_tok = add64 sum.total_cache_creation_tok m.cache_creation_tokens;
}

-- `updateSummary`, which makes an entry for a new key.
unfoldable pub update_at : Assoc Summary → String → RequestMetric → Assoc Summary
update_at sums key m = insert key (update_summary (lookup_or key no_requests sums) m) sums

-- The keys under which `Add` counts a request, in its order.
unfoldable pub keys_of : RequestMetric → List String
keys_of m =
    let target = if is_empty m.target_model then m.model else m.target_model in
    m.model
    ∷ append "server:" m.server_id
    ∷ append "target:" (append m.server_id (append ":" target))
    ∷ (if is_empty m.class then [] else append "class:" m.class ∷ [])

abbrev pub update_all : Assoc Summary → List String → RequestMetric → Assoc Summary
update_all sums [] m = sums
update_all sums (key ∷ keys) m = update_all (update_at sums key m) keys m

unfoldable pub add_metric : Store → RequestMetric → Store
unfolding keys_of
add_metric s m = record s {
  recent_requests = set s.recent_requests s.ring_index m;
  ring_index = (s.ring_index + 1) % s.max_recent;
  ring_count = if ltb s.ring_count s.max_recent then s.ring_count + 1 else s.ring_count;
  summaries = update_all s.summaries (keys_of m) m;
}

unfoldable pub recent : Store → List RequestMetric
recent s =
    if s.ring_count == 0
    then []
    else if ltb s.ring_count s.max_recent
    then take s.ring_count s.recent_requests
    else drop s.ring_index s.recent_requests ++ take s.ring_index s.recent_requests

unfoldable pub reset_metrics : RequestMetric → Store → Store
reset_metrics zero_metric s = record s {
  recent_requests = replicate s.max_recent zero_metric;
  ring_index = 0;
  ring_count = 0;
  summaries = [];
}

unfoldable pub incr_active : Store → Store
incr_active s = record s { active = s.active +ℤ pos 1 }

unfoldable pub decr_active : Store → Store
decr_active s = record s { active = s.active +ℤ negsuc 0 }
