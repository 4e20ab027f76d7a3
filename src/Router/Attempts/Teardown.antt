-- ===== src/Router/Attempts/Teardown.antt =====
-- Every way out of the tries on a server gives back the budget of the attempt, once.
use mathlib.Core.Option
use llm_api_router.Prelude.{
  ℕ, zero, suc, ◌+◌, ℤ, pos, String, ◌≡◌, refl, ap, ◌∙◌, Bool, true, ◌&&◌, Option, none, some,
  arith, is_pos, ltb_ℤ, str_eq, eq_iff, lookup_or, lookup-insert, if◌then◌else◌, Bool-cases,
  Option-cases, inl, inr, leb,
}
use llm_api_router.Config.Quota.{QuotaTracker, held, complete, record_request, release_held}
use llm_api_router.Router.State.{Router, count_inflight}
use llm_api_router.Router.Sticky.{sticky_put}
use llm_api_router.Router.Budget.{same_server_retries, buffered_answer_retries}
use llm_api_router.Router.World.{
  World, Request, Outcome, Loop, SendError, transport_error, buffered_error, served, disconnected,
  mid_stream, transport, buffered,
}
use llm_api_router.Router.Bookkeeping.{
  health_mark, limit_failure, limit_success, limit_status, pin_served, release_quota, after_served,
  after_mid_stream, give_up,
}
use llm_api_router.Router.Attempts.{
  Step, retry_or_give_up, after_try, out_of_fuel, held as held_back_in, failed, tries,
}

abbrev pub Limits : Type 0
Limits = Option (String → ℤ × ℤ)

-- What a tracker holds for a server, with the limits, if there is a tracker.
abbrev pub holding_of : String → QuotaTracker → ℤ × Limits
holding_of j q = (held q j, q.limits)

abbrev pub holding : Router → String → Option (ℤ × Limits)
holding r j = Option.map (holding_of j) r.quota

-- The same after a release of a budget on a server.
abbrev pub given_back : String → ℤ → String → ℤ × Limits → ℤ × Limits
given_back id reserved j (h, limits) =
    (if is_pos reserved && str_eq id j then release_held h reserved else h, limits)

abbrev pub after_release : Option (ℤ × Limits) → String → ℤ → String → Option (ℤ × Limits)
after_release v id reserved j = Option.map (given_back id reserved j) v

complete-holding :
    (q : QuotaTracker) (now : ℕ) (id : String) (reserved used : ℤ) (j : String)
    → holding_of j (complete q now id reserved used) ≡ given_back id reserved j (holding_of j q)
unfolding complete lookup_or
complete-holding q now id reserved used j =
    ground (arith, eq_iff id j, lookup-insert id j (release_held (held q id) reserved) q.reserved)

release_quota-holding :
    (r : Router) (now : ℕ) (id : String) (reserved used : ℤ) (j : String)
    → holding (release_quota r now id reserved used) j ≡ after_release (holding r j) id reserved j
unfolding release_quota count_inflight
release_quota-holding r now id reserved used j = elim (Option-cases r.quota) [
  | inl e ↦ rw (release_quota, count_inflight, e) refl
  | inr (q, e) ↦
      rw (release_quota, count_inflight, e) (ap some (complete-holding q now id reserved used j))
]

-- Only the release of `after_served` and `give_up` touches what is held.
recorded-holding :
    (o : Option QuotaTracker) (now : ℕ) (id j : String)
    → Option.map (holding_of j) (elim o [ none ↦ none | some q ↦ some (record_request q now id) ])
      ≡ Option.map (holding_of j) o
unfolding record_request
recorded-holding none now id j = refl
recorded-holding (some q) now id j = refl

sticky_put-quota :
    (r : Router) (now : ℕ) (key id : String) → (sticky_put r now key id).quota ≡ r.quota
unfolding sticky_put
sticky_put-quota r now key id = ground arith

pin_served-quota :
    (r : Router) (now : ℕ) (key id : String) (status : ℕ)
    → (pin_served r now key id status).quota ≡ r.quota
unfolding pin_served
pin_served-quota r now key id status = ground (arith, sticky_put-quota r now key id)

limit_status-quota :
    (r : Router) (now : ℕ) (id : String) (status : ℕ) (pause : ℤ)
    → (limit_status r now id status pause).quota ≡ r.quota
unfolding limit_status limit_failure limit_success
limit_status-quota r now id status pause = elim (Bool-cases (leb 400 status)) [
  | inl h ↦ rw h refl
  | inr h ↦ rw h refl
]

same_quota :
    (o o' : Option QuotaTracker) (j : String)
    → o ≡ o'
    → Option.map (holding_of j) o ≡ Option.map (holding_of j) o'
same_quota o o' j h = ap (Option.map (holding_of j)) h

after_served-holding :
    (r : Router) (now : ℕ) (q : Request) (id : String) (reserved : ℤ) (status : ℕ) (pause used : ℤ)
    (j : String)
    → holding (after_served r now q id reserved status pause used) j
      ≡ after_release (holding r j) id reserved j
unfolding after_served health_mark
after_served-holding r now q id reserved status pause used j =
    let r1 = limit_status (health_mark r id true) now id status pause in
    let kept = limit_status-quota (health_mark r id true) now id status pause in
    same_quota _ _ j (pin_served-quota _ now q.pin_key id status)
    ∙ release_quota-holding _ now id reserved used j
    ∙ ap (λ v. after_release v id reserved j)
        (recorded-holding r1.quota now id j ∙ same_quota _ _ j kept)

give_up-holding :
    (r : Router) (now : ℕ) (id : String) (reserved : ℤ) (e : SendError) (pause used : ℤ)
    (j : String)
    → holding (give_up r now id reserved e pause used) j ≡ after_release (holding r j) id reserved j
unfolding give_up limit_failure health_mark
give_up-holding r now id reserved (transport_error e) pause used j =
    release_quota-holding _ now id reserved used j
give_up-holding r now id reserved (buffered_error status) pause used j =
    release_quota-holding _ now id reserved used j

after_mid_stream-holding :
    (r : Router) (now : ℕ) (id : String) (reserved : ℤ) (status : ℕ) (pause used : ℤ) (j : String)
    → holding (after_mid_stream r now id reserved status pause used) j
      ≡ after_release (holding r j) id reserved j
unfolding after_mid_stream limit_failure health_mark
after_mid_stream-holding r now id reserved status pause used j =
    release_quota-holding _ now id reserved used j

module _ (r : Router) (l : Loop) (now i retry : ℕ) (id : String) (reserved : ℤ) (e : SendError)
    (pause used : ℤ) (leaves : Bool) (left : ℤ) (again : Step) (j : String)
    (h : holding again.0 j ≡ after_release (holding r j) id reserved j) where
  retry_or_give_up-holding :
      holding (retry_or_give_up r l now i retry id reserved e pause used leaves left again).0 j
      ≡ after_release (holding r j) id reserved j
  unfolding retry_or_give_up
  retry_or_give_up-holding = elim (Bool-cases (ltb_ℤ (pos retry) left)) [
    | inr f ↦ rw f (give_up-holding r now id reserved e pause used j)
    | inl f ↦ elim (Bool-cases leaves) [
      | inl g ↦ rw (f, g) (release_quota-holding r now id reserved used j)
      | inr g ↦ rw (f, g) h
    ]
  ]

module _ (q : Request) (id : String) (i : ℕ) (reserved : ℤ) (retry now : ℕ) (r : Router) (l : Loop)
    (again : Loop → Step) (j : String)
    (h : (l1 : Loop) → holding (again l1).0 j ≡ after_release (holding r j) id reserved j) where
  after_try-holding :
      (o : Outcome)
      → holding (after_try q id i reserved retry now r l again o).0 j
        ≡ after_release (holding r j) id reserved j
  unfolding after_try
  after_try-holding (served status pause used) =
      after_served-holding r now q id reserved status pause used j
  after_try-holding (disconnected used) = release_quota-holding r now id reserved used j
  after_try-holding (mid_stream status pause used) =
      after_mid_stream-holding r now id reserved status pause used j
  after_try-holding (transport e used leaves) =
      let l1 = failed l (transport_error e) in
      retry_or_give_up-holding r l1 now i retry id reserved (transport_error e) (pos 0) used leaves
        (same_server_retries e q.num_retries) (again l1) j (h l1)
  after_try-holding (buffered status pause used leaves) =
      let l1 = held_back_in l (buffered_error status) i status in
      retry_or_give_up-holding r l1 now i retry id reserved (buffered_error status) pause used
        leaves (buffered_answer_retries status q.num_retries q.explicit_retries) (again l1) j (h l1)

out_of_fuel-holding :
    (r : Router) (now : ℕ) (id : String) (reserved : ℤ) (l : Loop) (j : String)
    → holding (out_of_fuel r now id reserved l).0 j ≡ after_release (holding r j) id reserved j
unfolding out_of_fuel
out_of_fuel-holding r now id reserved l j = give_up-holding r now id reserved _ (pos 0) (pos 0) j

pub tries-holding :
    (w : World) (q : Request) (id : String) (i : ℕ) (reserved : ℤ) (fuel retry : ℕ) (r : Router)
    (l : Loop) (j : String)
    → holding (tries w q id i reserved fuel retry r l).0 j
      ≡ after_release (holding r j) id reserved j
unfolding tries
tries-holding w q id i reserved zero retry r l j =
    after_try-holding q id i reserved retry (w.clock i retry) r l
      (out_of_fuel r (w.clock i retry) id reserved) j
      (λ l1. out_of_fuel-holding r (w.clock i retry) id reserved l1 j) (w.backend i retry)
tries-holding w q id i reserved (suc fuel) retry r l j =
    after_try-holding q id i reserved retry (w.clock i retry) r l
      (tries w q id i reserved fuel (retry + 1) r) j
      (λ l1. tries-holding w q id i reserved fuel (retry + 1) r l1 j) (w.backend i retry)
