-- ===== src/Metrics/Tests.antt =====
-- Requests of one model, of which the last failed.
use llm_api_router.Prelude.{
  ℕ, String, ◌≡◌, refl, false, List, [], ◌∷◌, pos, negsuc, lookup_or, arith,
}
use llm_api_router.Metrics.{RequestMetric, no_requests, new_metrics, recent, update_summary}
use llm_api_router.Metrics.Totals.{IsTally, requests_of, add_all, add_all-IsTally}
use llm_api_router.Metrics.Recent.{recent-add_all}

abbrev served : ℕ → ℕ → RequestMetric
served status ms = record {
  model = "qwen3";
  target_model = "";
  server_id = "s1";
  class = "chat";
  api_type = "anthropic";
  status_code = status;
  latency_ms = ms;
  ttfb_ms = 10;
  was_fallback = false;
  response_size = pos 100;
  prompt_tokens = pos 7;
  completion_tokens = pos 3;
  total_tokens = pos 10;
  cached_tokens = negsuc 0;
  reasoning_tokens = pos 0;
  cache_creation_tokens = pos 2;
}

abbrev metrics : List RequestMetric
metrics = served 200 40 ∷ served 204 700 ∷ served 429 5 ∷ []

abbrev total_key : String
total_key = "target:s1:qwen3"

add_all-IsTally_example :
    IsTally
      (lookup_or total_key no_requests (add_all (new_metrics (served 0 0) 2) metrics).summaries)
      (requests_of total_key metrics)
add_all-IsTally_example = add_all-IsTally (served 0 0) 2 total_key metrics

recent-add_all_example :
    recent (add_all (new_metrics (served 0 0) 2) metrics) ≡ served 204 700 ∷ served 429 5 ∷ []
recent-add_all_example = recent-add_all (served 0 0) 2 metrics (omega arith)

-- The minimum grows when a request of 0 ms is followed by one of 500 ms.
minimum_grows :
    (update_summary (update_summary no_requests (served 200 0)) (served 200 500)).min_latency_ms
    ≡ 500
unfolding update_summary
minimum_grows = refl
