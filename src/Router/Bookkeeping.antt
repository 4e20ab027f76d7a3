-- ===== src/Router/Bookkeeping.antt =====
-- router/router.go: what the attempt loop asks of the health tracker, the rate limiter and the quota
-- tracker, and what it tells them of an attempt.
use llm_api_router.Prelude.{
  ℕ, suc, ◌-◌, ℤ, pos, negsuc, String, Bool, true, false, not, ◌&&◌, ◌||◌, Option, none, some, List,
  [], ◌∷◌, ltb, leb_ℤ, is_pos, is_empty, wrap32, if◌then◌else◌, ◌*◌, ◌^◌, leb,
}
use llm_api_router.Config.Health.{is_healthy, mark_healthy, mark_unhealthy}
use llm_api_router.Config.RateLimit.{should_skip, record_failure, record_success}
use llm_api_router.Config.Quota.{QuotaTracker, allow, usage, reserve, complete, record_request}
use llm_api_router.Router.State.{
  Router, ServerAttempt, inflight_count, count_inflight, context_overflows,
}
use llm_api_router.Router.Sticky.{sticky_put}
use llm_api_router.Router.World.{Request, SendError, buffered_error, transport_error}

abbrev pub millisecond : ℕ
millisecond = 10 ^ 6

abbrev pub scaled : ℤ → ℤ
scaled (pos n) = pos (n * millisecond)
scaled (negsuc n) = negsuc (suc n * millisecond - 1)

-- The calls on trackers that may be nil.
unfoldable pub health_up : Router → String → Bool
health_up r id = elim r.health [ none ↦ true | some h ↦ is_healthy h id ]

unfoldable pub health_mark : Router → String → Bool → Router
health_mark r id up = record r {
  health = elim r.health [
    | none ↦ none
    | some h ↦ some (if up then (mark_healthy h id).0 else (mark_unhealthy h id).0)
  ];
}

unfoldable pub limit_skips : Router → ℕ → String → Bool
limit_skips r now id = elim r.rate_limit [ none ↦ false | some l ↦ should_skip l now id ]

unfoldable pub limit_failure : Router → ℕ → String → ℕ → List ℤ → Router
limit_failure r now id status hint = record r {
  rate_limit = elim r.rate_limit [
    | none ↦ none
    | some l ↦ some ((record_failure l now id status hint).0)
  ];
}

unfoldable pub limit_success : Router → String → Router
limit_success r id = record r {
  rate_limit = elim r.rate_limit [ none ↦ none | some l ↦ some (record_success l id) ];
}

abbrev pub with_quota : Router → (QuotaTracker → QuotaTracker) → Router
with_quota r f = record r { quota = elim r.quota [ none ↦ none | some q ↦ some (f q) ] }

-- `r.quota != nil && !r.quota.Allow(…)`, with the `Usage` that a skip logs.
unfoldable pub quota_denies : Router → ℕ → String → Bool → Router × Bool
quota_denies r now id is_last = elim r.quota [
  | none ↦ (r, false)
  | some q ↦
      let (q1, allowed) = allow q now id in
      if not allowed && not is_last
      then (record r { quota = some ((usage q1 now id).0) }, true)
      else (record r { quota = some q1 }, false)
]

-- The guards before the quota, all of which the last attempt passes.
unfoldable pub skipped_early : Router → ℕ → Request → Bool → ServerAttempt → Bool
skipped_early r now q is_last a =
    not is_last
    && (not (health_up r a.server.id)
        || limit_skips r now a.server.id
        || context_overflows a.context_window q.body_len
        || is_pos a.server.max_parallel_requests
          && leb_ℤ (wrap32 a.server.max_parallel_requests) (inflight_count r a.server.id))

-- The reservation: what is to be given back, or `none` if the attempt is skipped.
unfoldable pub reserve_budget : Router → ℕ → String → Bool → ℤ → Router × Option ℤ
reserve_budget r now id is_last estimate = elim r.quota [
  | none ↦ (r, some (pos 0))
  | some q ↦
      if not (is_pos estimate)
      then (r, some (pos 0))
      else let (q1, admitted) = reserve q now id estimate in
        (
          record r { quota = some q1 },
          if admitted then some estimate else if is_last then some (pos 0) else none,
        )
]

unfoldable pub release_quota : Router → ℕ → String → ℤ → ℤ → Router
release_quota r now id reserved used =
    with_quota (count_inflight r id (negsuc 0)) (λ q. complete q now id reserved used)

-- Only an answer below 400 clears the limiter's record, and only such an answer pins.
unfoldable pub limit_status : Router → ℕ → String → ℕ → ℤ → Router
limit_status r now id status pause =
    if leb 400 status then limit_failure r now id status (scaled pause ∷ []) else limit_success r id

unfoldable pub pin_served : Router → ℕ → String → String → ℕ → Router
pin_served r now key id status =
    if not (is_empty key) && ltb status 400 then sticky_put r now key id else r

-- Served: health, limiter, quota, then the pin.
unfoldable pub after_served : Router → ℕ → Request → String → ℤ → ℕ → ℤ → ℤ → Router
unfolding limit_status pin_served
after_served r now q id reserved status pause used =
    let r1 = limit_status (health_mark r id true) now id status pause in
    let r2 = with_quota r1 (λ t. record_request t now id) in
    pin_served (release_quota r2 now id reserved used) now q.pin_key id status

unfoldable pub after_mid_stream : Router → ℕ → String → ℤ → ℕ → ℤ → ℤ → Router
after_mid_stream r now id reserved status pause used =
    release_quota (limit_failure (health_mark r id false) now id status (scaled pause ∷ [])) now id
      reserved used

-- No more tries on this server. A backend that answered is reachable.
unfoldable pub give_up : Router → ℕ → String → ℤ → SendError → ℤ → ℤ → Router
give_up r now id reserved (transport_error e) pause used =
    release_quota (limit_failure (health_mark r id false) now id 0 []) now id reserved used
give_up r now id reserved (buffered_error status) pause used =
    release_quota (limit_failure r now id status (scaled pause ∷ [])) now id reserved used
