-- ===== src/Router/Attempts.antt =====
-- router/router.go: the attempt loop of `Handle` for a request with a rule and an attempt list.
--
-- The reads of the clock and what a backend answers are the `World` of the request, by attempt and
-- try. What the client sent, and what the body of an attempt becomes, are its `Request`.
pub mod Inflight
pub mod Fuel
pub mod Answers
pub mod Grounds
pub mod Leaving
pub mod Unanswered
pub mod Teardown
pub mod Reservation
use llm_api_router.Prelude.{
  ℕ, zero, suc, ◌+◌, ◌-◌, ℤ, pos, negsuc, String, Bool, true, false, not, ◌&&◌, ◌||◌, Option, none,
  some, List, [], ◌∷◌, ◌++◌, ltb, leb_ℤ, ltb_ℤ, is_pos, is_empty, str_eq, length, pos_part, wrap32,
  if◌then◌else◌, ◌*◌, ◌^◌, leb, ◌==◌,
}
use llm_api_router.Domain.Server.{Server, ServerProtocol}
use llm_api_router.Config.Health.{HealthTracker, is_healthy, mark_healthy, mark_unhealthy}
use llm_api_router.Config.RateLimit.{RateLimiter, should_skip, record_failure, record_success}
use llm_api_router.Config.Quota.{QuotaTracker, allow, usage, reserve, complete, record_request}
use llm_api_router.Convert.Dialect.{Dialect}
use llm_api_router.Convert.Plan.{Plan, Decision, planned, refused, Refusal, decide}
use llm_api_router.Router.State.{
  Router, ServerAttempt, inflight_count, count_inflight, context_overflows,
}
use llm_api_router.Router.Sticky.{sticky_put}
use llm_api_router.Router.Budget.{
  TransportError, other_error, same_server_retries, buffered_answer_retries,
}
use llm_api_router.Router.World.{
  Answer, Loop, Outcome, Prepared, Request, SendError, World, bad_gateway, broken_off, buffered,
  buffered_error, client_left, conversion_refused, disconnected, last_answer, mid_stream,
  no_backend, ready, refused_400, relayed, rewrite_error, rewrite_failed, served, transport,
  transport_error,
}
use llm_api_router.Router.Bookkeeping.{
  after_mid_stream, after_served, give_up, health_mark, health_up, limit_failure, limit_skips,
  limit_status, limit_success, millisecond, pin_served, quota_denies, release_quota, reserve_budget,
  scaled, skipped_early, with_quota,
}

-- Where an attempt leaves the loop: `none` goes on to the next attempt.
abbrev pub Step : Type 0
Step = Router × Loop × Option Answer

-- After an error before the answer: `again` is the next try.
unfoldable pub retry_or_give_up :
    Router → Loop → ℕ → ℕ → ℕ → String → ℤ → SendError → ℤ → ℤ → Bool → ℤ → Step → Step
retry_or_give_up r l now i retry id reserved e pause used leaves left again =
    if ltb_ℤ (pos retry) left
    then if leaves then (release_quota r now id reserved used, l, some (client_left i)) else again
    else (give_up r now id reserved e pause used, l, none)

abbrev pub failed : Loop → SendError → Loop
failed l e = record l { last_err = some e }

abbrev pub held : Loop → SendError → ℕ → ℕ → Loop
held l e i status = record l { last_err = some e; held_back = some (i, status) }

-- What one try leads to, `again` being the next try, from the variables as this one leaves them.
unfoldable pub after_try :
    Request → String → ℕ → ℤ → ℕ → ℕ → Router → Loop → (Loop → Step) → Outcome → Step
after_try q id i reserved retry now r l again (served status pause used) =
    (after_served r now q id reserved status pause used, l, some (relayed i status))
after_try q id i reserved retry now r l again (disconnected used) =
    (release_quota r now id reserved used, l, some (client_left i))
after_try q id i reserved retry now r l again (mid_stream status pause used) =
    (after_mid_stream r now id reserved status pause used, l, some (broken_off i status))
after_try q id i reserved retry now r l again (transport e used leaves) =
    let l1 = failed l (transport_error e) in
    retry_or_give_up r l1 now i retry id reserved (transport_error e) (pos 0) used leaves
      (same_server_retries e q.num_retries) (again l1)
after_try q id i reserved retry now r l again (buffered status pause used leaves) =
    let l1 = held l (buffered_error status) i status in
    retry_or_give_up r l1 now i retry id reserved (buffered_error status) pause used leaves
      (buffered_answer_retries status q.num_retries q.explicit_retries) (again l1)

-- No fuel. (The source has none to run out of: see the theorem on fuel.)
unfoldable pub out_of_fuel : Router → ℕ → String → ℤ → Loop → Step
out_of_fuel r now id reserved l =
    (give_up r now id reserved (transport_error other_error) (pos 0) (pos 0), l, none)

-- The tries on one server. The budget of every error is at most `num_retries`.
unfoldable pub tries : World → Request → String → ℕ → ℤ → ℕ → ℕ → Router → Loop → Step
unfolding after_try
tries w q id i reserved zero retry r l =
    after_try q id i reserved retry (w.clock i retry) r l
      (out_of_fuel r (w.clock i retry) id reserved) (w.backend i retry)
tries w q id i reserved (suc fuel) retry r l =
    after_try q id i reserved retry (w.clock i retry) r l
      (tries w q id i reserved fuel (retry + 1) r) (w.backend i retry)

-- The conversion that an attempt is under.
unfoldable pub forced_convert : Request → ServerAttempt → String
forced_convert q a = if str_eq q.header_convert "off" then "off" else a.convert

-- A refusal ends the loop at the last attempt, and nothing was sent.
unfoldable pub refuse : Router → Loop → Bool → Step
refuse r l is_last = (r, if is_last then record l { refusal = true } else l, none)

-- The attempt is sent: its slot and its budget are held until its one teardown.
unfoldable pub send : World → Request → ServerAttempt → ℕ → Bool → ℤ → Router → Loop → Step
unfolding tries
send w q a i is_last estimate r l =
    let (r1, reserved) = reserve_budget r (w.clock i 0) a.server.id is_last estimate in
    elim reserved [
      | none ↦ (r1, l, none)
      | some tokens ↦
          tries w q a.server.id i tokens (pos_part q.num_retries) 0
            (count_inflight r1 a.server.id (pos 1)) l
    ]

unfoldable pub send_prepared :
    World → Request → ServerAttempt → ℕ → Bool → Router → Loop → Prepared → Step
unfolding send refuse
send_prepared w q a i is_last r l rewrite_failed = (r, l, some (rewrite_error i))
send_prepared w q a i is_last r l conversion_refused = refuse r l is_last
send_prepared w q a i is_last r l (ready estimate) = send w q a i is_last estimate r l

unfoldable pub send_decided :
    World → Request → ServerAttempt → ℕ → Bool → Router → Loop → Decision → Step
unfolding send_prepared refuse
send_decided w q a i is_last r l (refused why) = refuse r l is_last
send_decided w q a i is_last r l (planned p) = send_prepared w q a i is_last r l (q.prepare a p)

unfoldable pub attempt : World → Request → ServerAttempt → ℕ → Bool → Router → Loop → Step
unfolding send_decided
attempt w q a i is_last r l =
    if skipped_early r (w.clock i 0) q is_last a
    then (r, l, none)
    else let (r1, denied) = quota_denies r (w.clock i 0) a.server.id is_last in
      if denied
      then (r1, l, none)
      else send_decided w q a i is_last r1 l
          (decide q.dialect q.path a.server.protocols (forced_convert q a))

-- The answer after the loop, when no attempt gave one.
unfoldable pub final_answer : Loop → Answer
final_answer l = if l.refusal then refused_400 else elim l.held_back [
  | some (i, status) ↦ last_answer i status
  | none ↦ bad_gateway l.last_err
]

abbrev pub is_nil {ℓ} : {A : Type ℓ} → List A → Bool
is_nil [] = true
is_nil (_ ∷ _) = false

unfoldable pub attempts_from :
    World → Request → ℕ → List ServerAttempt → Router → Loop → Router × Answer
unfolding attempt final_answer
attempts_from w q i [] r l = (r, final_answer l)
attempts_from w q i (a ∷ as_) r l =
    let (r1, l1, answer) = attempt w q a i (is_nil as_) r l in
    elim answer [ some x ↦ (r1, x) | none ↦ attempts_from w q (i + 1) as_ r1 l1 ]

abbrev pub fresh_loop : Loop
fresh_loop = record { last_err = none; refusal = false; held_back = none }

-- The request, for its attempt list; an empty one is answered with 500.
unfoldable pub handle_attempts : World → Request → List ServerAttempt → Router → Router × Answer
unfolding attempts_from
handle_attempts w q [] r = (r, no_backend)
handle_attempts w q (a ∷ as_) r = attempts_from w q 0 (a ∷ as_) r fresh_loop
