-- ===== src/Router/Attempts/Inflight.antt =====
-- Every request gives back the slots that it took.
use llm_api_router.Prelude.{
  ℕ, zero, suc, ◌+◌, ℤ, pos, negsuc, String, ◌≡◌, refl, ap, ◌∙◌, Bool, true, List, [], ◌∷◌, arith,
  eq_iff, insert, lookup-insert, lookup_or, ◌+ℤ◌, Bool-cases, Option-cases, inl, inr, leb, pos_part,
  lookup_or-insert_self,
}
use llm_api_router.Prelude.Dict.{Assoc}
use llm_api_router.Convert.Plan.{Decision, decide, planned, refused}
use llm_api_router.Router.State.{Router, ServerAttempt, inflight_count, count_inflight}
use llm_api_router.Router.Sticky.{sticky_put}
use llm_api_router.Router.Budget.{same_server_retries, buffered_answer_retries}
use llm_api_router.Router.World.{
  World, Request, Outcome, Loop, SendError, transport_error, buffered_error, served, disconnected,
  mid_stream, transport, buffered, Prepared, rewrite_failed, conversion_refused, ready,
}
use llm_api_router.Router.Bookkeeping.{
  health_mark, limit_failure, limit_success, limit_status, pin_served, quota_denies, skipped_early,
  reserve_budget, release_quota, after_served, after_mid_stream, give_up,
}
use llm_api_router.Router.Attempts.{
  Step, retry_or_give_up, after_try, out_of_fuel, held, tries, refuse, send, send_prepared,
  send_decided, attempt, attempts_from, is_nil, fresh_loop, handle_attempts, forced_convert, failed,
}

-- What the map holds after a release.
abbrev released : Assoc ℤ → String → Assoc ℤ
released m id = insert id (lookup_or id (pos 0) m +ℤ negsuc 0) m

release_quota-inflight :
    (r : Router) (now : ℕ) (id : String) (reserved used : ℤ)
    → (release_quota r now id reserved used).inflight ≡ released r.inflight id
unfolding release_quota count_inflight inflight_count
release_quota-inflight r now id reserved used = refl

sticky_put-inflight :
    (r : Router) (now : ℕ) (key id : String) → (sticky_put r now key id).inflight ≡ r.inflight
unfolding sticky_put
sticky_put-inflight r now key id = ground arith

limit_status-inflight :
    (r : Router) (now : ℕ) (id : String) (status : ℕ) (pause : ℤ)
    → (limit_status r now id status pause).inflight ≡ r.inflight
unfolding limit_status limit_failure limit_success
limit_status-inflight r now id status pause = elim (Bool-cases (leb 400 status)) [
  | inl h ↦ rw h refl
  | inr h ↦ rw h refl
]

pin_served-inflight :
    (r : Router) (now : ℕ) (key id : String) (status : ℕ)
    → (pin_served r now key id status).inflight ≡ r.inflight
unfolding pin_served
pin_served-inflight r now key id status = ground (arith, sticky_put-inflight r now key id)

after_served-inflight :
    (r : Router) (now : ℕ) (q : Request) (id : String) (reserved : ℤ) (status : ℕ) (pause used : ℤ)
    → (after_served r now q id reserved status pause used).inflight ≡ released r.inflight id
unfolding after_served release_quota count_inflight inflight_count health_mark
after_served-inflight r now q id reserved status pause used =
    rw
      (
        pin_served-inflight _ now q.pin_key id status,
        limit_status-inflight (health_mark r id true) now id status pause,
      )
      refl

give_up-inflight :
    (r : Router) (now : ℕ) (id : String) (reserved : ℤ) (e : SendError) (pause used : ℤ)
    → (give_up r now id reserved e pause used).inflight ≡ released r.inflight id
unfolding give_up release_quota count_inflight inflight_count limit_failure health_mark
give_up-inflight r now id reserved (transport_error e) pause used = refl
give_up-inflight r now id reserved (buffered_error status) pause used = refl

after_mid_stream-inflight :
    (r : Router) (now : ℕ) (id : String) (reserved : ℤ) (status : ℕ) (pause used : ℤ)
    → (after_mid_stream r now id reserved status pause used).inflight ≡ released r.inflight id
unfolding after_mid_stream release_quota count_inflight inflight_count limit_failure health_mark
after_mid_stream-inflight r now id reserved status pause used = refl

retry_or_give_up-inflight :
    (r : Router) (l : Loop) (now i retry : ℕ) (id : String) (reserved : ℤ) (e : SendError)
    (pause used : ℤ) (leaves : Bool) (left : ℤ) (again : Step)
    → again.0.inflight ≡ released r.inflight id
    → (retry_or_give_up r l now i retry id reserved e pause used leaves left again).0.inflight
      ≡ released r.inflight id
unfolding retry_or_give_up
retry_or_give_up-inflight r l now i retry id reserved e pause used leaves left again h = ground (
  arith,
  h,
  give_up-inflight r now id reserved e pause used,
  release_quota-inflight r now id reserved used,
)

module _ (q : Request) (id : String) (i : ℕ) (reserved : ℤ) (retry now : ℕ) (r : Router) (l : Loop)
    (again : Loop → Step) (h : (l1 : Loop) → (again l1).0.inflight ≡ released r.inflight id) where
  after_try-inflight :
      (o : Outcome)
      → (after_try q id i reserved retry now r l again o).0.inflight ≡ released r.inflight id
  unfolding after_try
  after_try-inflight (served status pause used) =
      after_served-inflight r now q id reserved status pause used
  after_try-inflight (disconnected used) = release_quota-inflight r now id reserved used
  after_try-inflight (mid_stream status pause used) =
      after_mid_stream-inflight r now id reserved status pause used
  after_try-inflight (transport e used leaves) =
      let l1 = failed l (transport_error e) in
      retry_or_give_up-inflight r l1 now i retry id reserved (transport_error e) (pos 0) used leaves
        (same_server_retries e q.num_retries) (again l1) (h l1)
  after_try-inflight (buffered status pause used leaves) =
      let l1 = held l (buffered_error status) i status in
      retry_or_give_up-inflight r l1 now i retry id reserved (buffered_error status) pause used
        leaves (buffered_answer_retries status q.num_retries q.explicit_retries) (again l1) (h l1)

out_of_fuel-inflight :
    (r : Router) (now : ℕ) (id : String) (reserved : ℤ) (l : Loop)
    → (out_of_fuel r now id reserved l).0.inflight ≡ released r.inflight id
unfolding out_of_fuel
out_of_fuel-inflight r now id reserved l = give_up-inflight r now id reserved _ (pos 0) (pos 0)

tries-inflight :
    (w : World) (q : Request) (id : String) (i : ℕ) (reserved : ℤ) (fuel retry : ℕ) (r : Router)
    (l : Loop)
    → (tries w q id i reserved fuel retry r l).0.inflight ≡ released r.inflight id
unfolding tries
tries-inflight w q id i reserved zero retry r l =
    after_try-inflight q id i reserved retry (w.clock i retry) r l
      (out_of_fuel r (w.clock i retry) id reserved)
      (out_of_fuel-inflight r (w.clock i retry) id reserved) (w.backend i retry)
tries-inflight w q id i reserved (suc fuel) retry r l =
    after_try-inflight q id i reserved retry (w.clock i retry) r l
      (tries w q id i reserved fuel (retry + 1) r)
      (tries-inflight w q id i reserved fuel (retry + 1) r) (w.backend i retry)

-- The rest of an attempt leaves the counts alone, or takes a slot and gives it back.
reserve_budget-inflight :
    (r : Router) (now : ℕ) (id : String) (is_last : Bool) (estimate : ℤ)
    → (reserve_budget r now id is_last estimate).0.inflight ≡ r.inflight
unfolding reserve_budget
reserve_budget-inflight r now id is_last estimate = ground arith

quota_denies-inflight :
    (r : Router) (now : ℕ) (id : String) (is_last : Bool)
    → (quota_denies r now id is_last).0.inflight ≡ r.inflight
unfolding quota_denies
quota_denies-inflight r now id is_last = ground arith

plus_minus_one : (z : ℤ) → (z +ℤ pos 1) +ℤ negsuc 0 ≡ z
unfolding ◌+ℤ◌
plus_minus_one z = ground arith

taken_and_released :
    (m : Assoc ℤ) (id j : String)
    → lookup_or j (pos 0) (released (insert id (lookup_or id (pos 0) m +ℤ pos 1) m) id)
      ≡ lookup_or j (pos 0) m
unfolding lookup_or
taken_and_released m id j =
    let m1 = insert id (lookup_or id (pos 0) m +ℤ pos 1) m in
    ground (
      arith,
      eq_iff id j,
      lookup-insert id j (lookup_or id (pos 0) m +ℤ pos 1) m,
      lookup-insert id j (lookup_or id (pos 0) m1 +ℤ negsuc 0) m1,
      lookup_or-insert_self id (pos 0) (lookup_or id (pos 0) m +ℤ pos 1) m,
      plus_minus_one (lookup_or id (pos 0) m),
    )

same_counts :
    (r s : Router) (j : String) → s.inflight ≡ r.inflight → inflight_count s j ≡ inflight_count r j
unfolding inflight_count
same_counts r s j h = ap (λ m. lookup_or j (pos 0) m) h

module _ (w : World) (q : Request) (a : ServerAttempt) (i : ℕ) (is_last : Bool) (r : Router)
    (l : Loop) (j : String) where
  send-inflight :
      (estimate : ℤ) → inflight_count (send w q a i is_last estimate r l).0 j ≡ inflight_count r j
  unfolding send count_inflight inflight_count
  send-inflight estimate =
      let t = w.clock i 0 in
      let id = a.server.id in
      let kept = reserve_budget-inflight r t id is_last estimate in
      elim (Option-cases (reserve_budget r t id is_last estimate).1) [
        | inl e ↦ rw (send, e) (ap (λ m. lookup_or j (pos 0) m) kept)
        | inr (tokens, e) ↦
            rw (send, e, tries-inflight w q id i tokens (pos_part q.num_retries) 0 _ l, kept)
              (taken_and_released r.inflight id j)
      ]

  send_prepared-inflight :
      (p : Prepared) → inflight_count (send_prepared w q a i is_last r l p).0 j ≡ inflight_count r j
  unfolding send_prepared refuse
  send_prepared-inflight rewrite_failed = refl
  send_prepared-inflight conversion_refused = refl
  send_prepared-inflight (ready estimate) = send-inflight estimate

  send_decided-inflight :
      (d : Decision) → inflight_count (send_decided w q a i is_last r l d).0 j ≡ inflight_count r j
  unfolding send_decided refuse
  send_decided-inflight (refused why) = refl
  send_decided-inflight (planned p) = send_prepared-inflight (q.prepare a p)

attempt-inflight :
    (w : World) (q : Request) (a : ServerAttempt) (i : ℕ) (is_last : Bool) (r : Router) (l : Loop)
    (j : String)
    → inflight_count (attempt w q a i is_last r l).0 j ≡ inflight_count r j
unfolding attempt
attempt-inflight w q a i is_last r l j =
    let denied = quota_denies r (w.clock i 0) a.server.id is_last in
    let d = decide q.dialect q.path a.server.protocols (forced_convert q a) in
    let kept =
      same_counts r denied.0 j (quota_denies-inflight r (w.clock i 0) a.server.id is_last) in
    elim (Bool-cases (skipped_early r (w.clock i 0) q is_last a)) [
      | inl e ↦ rw e refl
      | inr e ↦ elim (Bool-cases denied.1) [
        | inl f ↦ rw (e, f) kept
        | inr f ↦ rw (e, f) (send_decided-inflight w q a i is_last denied.0 l j d ∙ kept)
      ]
    ]

attempts_from-inflight :
    (w : World) (q : Request) (i : ℕ) (as_ : List ServerAttempt) (r : Router) (l : Loop)
    (j : String)
    → inflight_count (attempts_from w q i as_ r l).0 j ≡ inflight_count r j
unfolding attempts_from
attempts_from-inflight w q i [] r l j = refl
attempts_from-inflight w q i (a ∷ as_) r l j =
    let s = attempt w q a i (is_nil as_) r l in
    let kept = attempt-inflight w q a i (is_nil as_) r l j in
    elim (Option-cases s.2) [
      | inl e ↦ rw (attempts_from, e) (attempts_from-inflight w q (i + 1) as_ s.0 s.1 j ∙ kept)
      | inr (x, e) ↦ rw (attempts_from, e) kept
    ]

-- However a request ends (served, refused, broken off, failed everywhere, or left by its client),
-- the number of open requests of every server is what it was before the request.
pub inflight_count-handle_attempts :
    (w : World) (q : Request) (as_ : List ServerAttempt) (r : Router) (j : String)
    → inflight_count (handle_attempts w q as_ r).0 j ≡ inflight_count r j
unfolding handle_attempts
inflight_count-handle_attempts w q [] r j = refl
inflight_count-handle_attempts w q (a ∷ as_) r j =
    attempts_from-inflight w q 0 (a ∷ as_) r fresh_loop j
