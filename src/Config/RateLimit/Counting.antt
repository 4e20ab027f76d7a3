-- ===== src/Config/RateLimit/Counting.antt =====
-- Counting failures against the threshold: a run of failures of one kind inside one window.
use llm_api_router.Prelude.{
  ℕ, ◌+◌, ◌≤◌, ◌<◌, String, ◌≡◌, ◌≢◌, refl, ◌∙◌, ◌&&◌, ltb, true, false, none, List, [], ◌∷◌, ◌++◌,
  map, arith, All, All-append, All-of_append, lookup, lookup_or-insert_self, lookup_or, insert,
  length, length-append, leb,
}
use llm_api_router.Config.RateLimit.Cooling.{
  bench_length, should_skip-flag, bench_length-record_failure,
}
use mathlib.Core.List.{append-nil, append_assoc}
use llm_api_router.Config.RateLimit.{
  RateLimiter, FailKind, FailEntry, kind_immediate, kind_server, kind_client, same_kind,
  should_skip, may_cool, record_failure, classify_failure, entries_after, valid_entries,
  threshold_for, count_kind, is_immediate,
}

-- The failures of one server with one status, at the given times, oldest first.
pub fail_run : RateLimiter → String → ℕ → List ℕ → RateLimiter
fail_run rl id code [] = rl
fail_run rl id code (t ∷ ts) = fail_run (record_failure rl t id code []).0 id code ts

bench_length-fail_run :
    (rl : RateLimiter) (id : String) (code : ℕ) (ts : List ℕ)
    → bench_length (fail_run rl id code ts) id code [] ≡ bench_length rl id code []
unfolding fail_run
bench_length-fail_run rl id code [] = refl
bench_length-fail_run rl id code (t ∷ ts) =
    bench_length-fail_run (record_failure rl t id code []).0 id code ts
    ∙ bench_length-record_failure rl t id code []

abbrev pub entries : FailKind → List ℕ → List FailEntry
entries kind = map λ t. record { at = t; kind = kind }

-- All times lie in one window that begins at `lo`.
abbrev pub Within : ℕ → ℕ → List ℕ → Type 0
Within lo window = All (λ t. (lo ≤ t) × (t < lo + window))

same_kind_refl : (k : FailKind) → same_kind k k ≡ true
same_kind_refl kind_immediate = refl
same_kind_refl kind_server = refl
same_kind_refl kind_client = refl

valid_entries_all :
    (lo window now : ℕ) (kind : FailKind) (ts : List ℕ)
    → now < lo + window
    → Within lo window ts
    → valid_entries window now (entries kind ts) ≡ entries kind ts
unfolding valid_entries
valid_entries_all lo window now kind [] h _ = refl
valid_entries_all lo window now kind (t ∷ ts) h (b, w) =
    ground (arith, valid_entries_all lo window now kind ts h w)

count_kind-entries : (kind : FailKind) (ts : List ℕ) → count_kind kind (entries kind ts) ≡ length ts
unfolding count_kind
count_kind-entries kind [] = refl
count_kind-entries kind (t ∷ ts) = ground (arith, same_kind_refl kind, count_kind-entries kind ts)

entries-append :
    (kind : FailKind) (ts : List ℕ) (t : ℕ)
    → entries kind ts ++ record { at = t; kind = kind } ∷ [] ≡ entries kind (ts ++ t ∷ [])
entries-append kind [] t = refl
entries-append kind (s ∷ ts) t = ground (arith, entries-append kind ts t)

-- The limiter has recorded exactly these failures of the server, and has not benched it.
record IsTracking (rl : RateLimiter) (id : String) (kind : FailKind) (window limit : ℕ)
    (ts : List ℕ) : Type 0 where
  recorded : lookup_or id [] rl.failures ≡ entries kind ts
  not_cooling : lookup id rl.cooldown ≡ none
  same_window : rl.window ≡ window
  same_limit : threshold_for rl id kind ≡ limit

threshold_for-failures :
    (rl : RateLimiter) (m : List (String × List FailEntry)) (id : String) (k : FailKind)
    → threshold_for (record rl { failures = m }) id k ≡ threshold_for rl id k
unfolding threshold_for
threshold_for-failures rl m id kind_immediate = refl
threshold_for-failures rl m id kind_server = refl
threshold_for-failures rl m id kind_client = refl

record_failure-failures :
    (rl : RateLimiter) (t : ℕ) (id : String) (code : ℕ)
    → (record_failure rl t id code []).0.failures
      ≡ insert id (entries_after rl t id (classify_failure code)) rl.failures
unfolding record_failure
record_failure-failures rl t id code = ground arith

may_cool-tracking :
    (rl : RateLimiter) (t : ℕ) (id : String)
    → lookup id rl.cooldown ≡ none
    → may_cool rl t id ≡ true
unfolding may_cool
may_cool-tracking rl t id h = rw (h, may_cool)

skip_of_tracking :
    (rl : RateLimiter) (t : ℕ) (id : String)
    → lookup id rl.cooldown ≡ none
    → should_skip rl t id ≡ false
unfolding should_skip
skip_of_tracking rl t id h = rw (h, should_skip)

is_immediate_counted : (k : FailKind) → k ≢ kind_immediate → is_immediate k ≡ false
is_immediate_counted kind_immediate h = absurd (h refl)
is_immediate_counted kind_server h = refl
is_immediate_counted kind_client h = refl

module _ (id : String) (code : ℕ) (lo window limit : ℕ)
    (counted : classify_failure code ≢ kind_immediate) where
  abbrev pub kind : FailKind
  kind = classify_failure code

  entries_after-tracking :
      (rl : RateLimiter) (ts : List ℕ) (t : ℕ)
      → IsTracking rl id kind window limit ts
      → t < lo + window
      → Within lo window ts
      → entries_after rl t id kind ≡ entries kind (ts ++ t ∷ [])
  unfolding entries_after
  entries_after-tracking rl ts t k h w =
      rw (k.recorded, k.same_window, valid_entries_all lo window t kind ts h w)
        (entries-append kind ts t)

  count-tracking :
      (rl : RateLimiter) (ts : List ℕ) (t : ℕ)
      → IsTracking rl id kind window limit ts
      → t < lo + window
      → Within lo window ts
      → count_kind kind (entries_after rl t id kind) ≡ length ts + 1
  count-tracking rl ts t k h w =
      rw (entries_after-tracking rl ts t k h w, count_kind-entries kind (ts ++ t ∷ []))
        (length-append ts (t ∷ []))

  record_failure-IsTracking :
      (rl : RateLimiter) (ts : List ℕ) (t : ℕ)
      → IsTracking rl id kind window limit ts
      → t < lo + window
      → Within lo window ts
      → ((record_failure rl t id code []).1 ≡ leb limit (length ts + 1))
        × (length ts + 1 < limit
            → IsTracking (record_failure rl t id code []).0 id kind window limit (ts ++ t ∷ []))
  unfolding record_failure
  record_failure-IsTracking rl ts t k h w =
      let valid = entries_after rl t id kind in
      let n = count-tracking rl ts t k h w in
      let im = is_immediate_counted kind counted in
      let cool = may_cool-tracking rl t id k.not_cooling in
      let th = threshold_for-failures rl (insert id valid rl.failures) id kind in
      (
        ground (arith, n, im, k.same_limit, cool),
        λ below. record {
          recorded =
              rw
                (
                  record_failure-failures rl t id code,
                  lookup_or-insert_self id [] valid rl.failures,
                )
                (entries_after-tracking rl ts t k h w);
          not_cooling = ground (arith, n, im, k.same_limit, k.not_cooling);
          same_window = ground (arith, n, im, k.same_limit, k.same_window);
          same_limit = ground (arith, n, im, k.same_limit, th);
        },
      )

  fail_run-IsTracking :
      (rl : RateLimiter) (before ts : List ℕ)
      → IsTracking rl id kind window limit before
      → Within lo window before
      → Within lo window ts
      → length before + length ts < limit
      → IsTracking (fail_run rl id code ts) id kind window limit (before ++ ts)
  unfolding fail_run
  fail_run-IsTracking rl before [] k b w h = rw (append-nil before) k
  fail_run-IsTracking rl before (t ∷ ts) k b (q, w) h =
      let step = (record_failure-IsTracking rl before t k q.1 b).1 (omega arith) in
      rw (← append_assoc before (t ∷ []) ts) (
        fail_run-IsTracking (record_failure rl t id code []).0 (before ++ t ∷ []) ts step
          (All-append (λ t. (lo ≤ t) × (t < lo + window)) before (t ∷ []) b (q, tt)) w
          (omega (arith, length-append before (t ∷ []))))

  -- A server with no failures and no cooldown that fails again and again inside one window, with
  -- a status that is not an immediate one, is not skipped while fewer failures than the threshold
  -- of that kind are recorded, and the failure that reaches the threshold is reported as benching it,
  -- and has it skipped for the operator's duration, else the configured one.
  pub fail_run_benches :
      (rl : RateLimiter) (ts : List ℕ) (t : ℕ)
      → lookup_or id [] rl.failures ≡ []
      → lookup id rl.cooldown ≡ none
      → rl.window ≡ window
      → threshold_for rl id kind ≡ limit
      → Within lo window (ts ++ t ∷ [])
      → length ts < limit
      → (should_skip (fail_run rl id code ts) t id ≡ false)
        × ((record_failure (fail_run rl id code ts) t id code []).1 ≡ leb limit (length ts + 1))
        × ((u : ℕ)
            → should_skip (record_failure (fail_run rl id code ts) t id code []).0 u id
              ≡ leb limit (length ts + 1) && ltb u (t + bench_length rl id code []))
  fail_run_benches rl ts t f c w l h few =
      let (a, b) = All-of_append (λ t. (lo ≤ t) × (t < lo + window)) ts (t ∷ []) h in
      let fresh : IsTracking rl id kind window limit [] = record {
        recorded = f;
        not_cooling = c;
        same_window = w;
        same_limit = l;
      } in
      let run = fail_run-IsTracking rl [] ts fresh tt a (omega arith) in
      let next = record_failure-IsTracking (fail_run rl id code ts) ts t run b.0.1 a in
      (
        skip_of_tracking (fail_run rl id code ts) t id run.not_cooling,
        next.0,
        λ u.
            let before = skip_of_tracking (fail_run rl id code ts) u id run.not_cooling in
            let after = should_skip-flag (fail_run rl id code ts) t id code [] u in
            let bench = bench_length-fail_run rl id code ts in
            after ∙ rw (next.0, before, bench) (ground arith),
      )
