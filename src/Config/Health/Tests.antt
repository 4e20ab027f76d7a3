-- ===== src/Config/Health/Tests.antt =====
-- The health tracker on concrete inputs.
use llm_api_router.Prelude.{
  ◌≡◌, refl, true, false, none, pos, List, [], ◌∷◌, lookup, insert, delete, retain, member,
  lookup_or,
}
use llm_api_router.Config.Health.{
  HealthTracker, answered, is_back, is_down, new_health_tracker, start, is_healthy, is_throttled,
  was_down, mark_healthy, mark_unhealthy, check_server, forget_removed, check_one, check_servers,
  check_all,
}
use llm_api_router.Config.Health.Transitions.{
  Mark, healthy, unhealthy, mark, marks, Alternates, marks-Alternates,
}
use llm_api_router.Domain.Server.{Server}
use llm_api_router.Config.Health.Probing.{
  marked, ticked, history, window_never_open, is_healthy-check_one,
}

-- One server that is up, one that is down, and an alerter.
tracker : HealthTracker
unfolding new_health_tracker start is_healthy is_throttled was_down mark_healthy mark_unhealthy
    check_server forget_removed check_one check_servers check_all lookup insert delete retain member
    lookup_or mark marks
tracker = record (new_health_tracker 30) {
  status = ("a", true) ∷ ("b", false) ∷ [];
  alerter = true;
}

abbrev flapping : List Mark
flapping = healthy "a" ∷ unhealthy "a" ∷ healthy "b" ∷ unhealthy "a" ∷ healthy "a" ∷ []

-- Two failures in a row are one notice.
flapping_notices : (marks tracker flapping).1 ≡ is_down "a" ∷ is_back "b" ∷ is_back "a" ∷ []
unfolding tracker
flapping_notices = refl

marks-Alternates_example : Alternates "a" true (marks tracker flapping).1
unfolding tracker
marks-Alternates_example = marks-Alternates tracker "a" true flapping refl refl

-- A backend that refuses our key is up.
is_healthy-check_one_example :
    is_healthy (check_one (λ _. answered 401 0) 7 "b" tracker).0 "b" ≡ true
unfolding tracker
is_healthy-check_one_example = is_healthy-check_one (λ _. answered 401 0) 7 "b" "b" tracker refl

abbrev backend : Server
backend = record {
  id = "a";
  name = "a";
  url = "http://localhost:8080";
  open_ai_url = "";
  anthropic_url = "";
  proxy = "";
  proxy_enabled = none;
  api_key = "";
  api_types = [];
  protocols = [];
  cooldown_time = pos 0;
  tpm_limit = pos 0;
  rpm_limit = pos 0;
  max_parallel_requests = pos 0;
  keep_alive_idle = pos 0;
  headers = [];
}

-- A probe that is answered 429, with a pause of a minute.
window_never_open_example :
    is_throttled
      (history
        (new_health_tracker 30)
        (marked (unhealthy "a") ∷ ticked (λ _. answered 429 60) 0 (("a", backend) ∷ []) ∷ []))
      1
      "a"
    ≡ false
window_never_open_example =
    window_never_open 30 1
      (marked (unhealthy "a") ∷ ticked (λ _. answered 429 60) 0 (("a", backend) ∷ []) ∷ []) "a"
