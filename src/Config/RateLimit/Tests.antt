-- ===== src/Config/RateLimit/Tests.antt =====
-- The rate limiter on concrete inputs.
use llm_api_router.Prelude.{
  ℕ, ◌+◌, ◌*◌, ltb, pos, ◌≡◌, refl, true, false, [], ◌∷◌, arith, lookup, insert, delete, lookup_or,
}
use llm_api_router.Config.RateLimit.{
  RateLimiter, second, new_rate_limiter, should_skip, may_cool, record_failure, record_success,
  failure_count, classify_failure, bench_for, clamp_hint, has_cooldown_override, cooldown_duration,
  entries_after, valid_entries, threshold_for, count_kind,
}
use llm_api_router.Config.RateLimit.Cooling.{should_skip-record_failure}
use llm_api_router.Config.RateLimit.Counting.{fail_run, fail_run_benches}

abbrev limiter : RateLimiter
limiter = new_rate_limiter 3 (60 * second) (300 * second)

-- A throttled server that asked for five seconds.
benched : RateLimiter
unfolding should_skip record_failure new_rate_limiter entries_after valid_entries may_cool bench_for
    classify_failure threshold_for count_kind clamp_hint has_cooldown_override cooldown_duration
    lookup insert delete lookup_or failure_count record_success
benched = (record_failure limiter (10 * second) "a" 429 (pos (5 * second) ∷ [])).0

benched_skips :
    (should_skip benched (14 * second) "a" ≡ true) × (should_skip benched (15 * second) "a" ≡ false)
unfolding benched
benched_skips = (refl, refl)

should_skip-record_failure_example :
    should_skip (record_failure benched (20 * second) "a" 403 []).0 (30 * second) "a" ≡ true
unfolding benched
should_skip-record_failure_example =
    should_skip-record_failure benched (20 * second) "a" 403 [] (30 * second)

-- Three failures with status 500 inside a minute: the third benches the server.
fail_run_benches_example :
    (should_skip (fail_run limiter "a" 500 (1 ∷ 2 ∷ [])) 3 "a" ≡ false)
    × ((record_failure (fail_run limiter "a" 500 (1 ∷ 2 ∷ [])) 3 "a" 500 []).1 ≡ true)
    × ((u : ℕ)
        → should_skip (record_failure (fail_run limiter "a" 500 (1 ∷ 2 ∷ [])) 3 "a" 500 []).0 u "a"
          ≡ ltb u (3 + 300 * second))
unfolding benched
fail_run_benches_example =
    fail_run_benches "a" 500 1 (60 * second) 3 (λ e. cc) limiter (1 ∷ 2 ∷ []) 3 refl refl refl refl
      (omega arith) (omega arith)
