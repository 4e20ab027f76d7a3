-- ===== src/Config/Quota/Tests.antt =====
-- The quota tracker on concrete inputs.
use llm_api_router.Prelude.{
  ℕ, ◌+◌, ◌*◌, pos, ◌+ℤ◌, ◌≡◌, refl, true, false, some, List, [], ◌∷◌, arith, max_int64, lookup,
  insert, lookup_or, add64, sub64,
}
use llm_api_router.Config.Quota.{
  QuotaTracker, new_quota_tracker, limits_for, prune_events, prune_times, sum_tokens, used_tokens,
  allow, record_request, record_tokens, reserve, complete, release_held, held, usage, in_place,
  overwrite,
}
use llm_api_router.Config.Quota.Admission.{reserve_within_limit, reserve_wraps}
use llm_api_router.Config.Quota.Conservation.{
  Event, begin, finish, ask, count, look, run, run_conserves,
}
use llm_api_router.Config.Quota.Observation.{used_tokens-usage}

-- A thousand tokens and two requests a minute; 300 tokens were used at time 5.
tracker : QuotaTracker
unfolding new_quota_tracker limits_for prune_events prune_times sum_tokens used_tokens allow
    record_request record_tokens reserve complete release_held usage in_place overwrite lookup
    insert lookup_or add64 sub64 ◌+ℤ◌
tracker =
    record_tokens (record new_quota_tracker { limits = some (λ id. (pos 1000, pos 2)) }) 5 "a"
      (pos 300)

reserve_within_limit_example :
    ((reserve tracker 6 "a" (pos 701)).1 ≡ false)
    × (held (reserve tracker 6 "a" (pos 701)).0 "a" ≡ pos 0)
unfolding tracker
reserve_within_limit_example =
    reserve_within_limit tracker 6 "a" (pos 701) refl refl (omega arith) (omega arith) (omega arith)

reserve_wraps_example : (reserve tracker 6 "a" max_int64).1 ≡ true
unfolding tracker
reserve_wraps_example = reserve_wraps tracker 6 "a" 300 refl refl (omega arith) (omega arith)

abbrev history : List Event
history =
    begin 6 200 ∷ begin 7 400 ∷ begin 8 500 ∷ ask 9 ∷ look 9 ∷ finish 10 1 (pos 50) ∷ count 10 ∷ []

-- 500 more do not fit beside the 300 used and the 600 held; the first request then ends.
run_conserves_example :
    held (run "a" (record { tracker = tracker; open_budgets = [] }) history).tracker "a" ≡ pos 400
unfolding tracker run
run_conserves_example =
    run_conserves "a" (record { tracker = tracker; open_budgets = [] }) history refl refl
      (omega arith) (omega arith)

abbrev minute : ℕ
minute = 60 * 1_000_000_000

aged : QuotaTracker
unfolding tracker
aged = record_tokens tracker 10 "a" (pos 100)

-- At the moment at which the first 300 leave the window, 100 tokens are in use; looking makes 200.
used_tokens-usage_example : used_tokens (usage aged (minute + 5) "a").0 (minute + 5) "a" ≡ pos 200
unfolding aged
used_tokens-usage_example =
    used_tokens-usage aged (minute + 5) "a" (record { at = 5; tokens = pos 300 })
      (record { at = 10; tokens = pos 100 }) [] refl (omega arith) (omega arith)
