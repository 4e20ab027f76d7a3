-- ===== src/Router/Attempts/Leaving.antt =====
-- Where an attempt leaves the loop.
use llm_api_router.Prelude.{
  ℕ, zero, suc, ◌+◌, ℤ, pos, String, ◌≡◌, refl, Bool, true, false, none, some, List, arith, is_some,
  ltb_ℤ, Bool-cases, Option-cases, ap, ◌∙◌, get_elem?, inl, inr, pos_part,
}
use llm_api_router.Convert.Plan.{Plan, Decision, planned, refused}
use llm_api_router.Router.State.{Router, ServerAttempt, count_inflight}
use llm_api_router.Router.Budget.{same_server_retries, buffered_answer_retries}
use llm_api_router.Router.World.{
  World, Request, Outcome, Loop, SendError, transport_error, buffered_error, served, disconnected,
  mid_stream, transport, buffered, Prepared, rewrite_failed, conversion_refused, ready,
}
use llm_api_router.Router.Bookkeeping.{quota_denies, skipped_early, reserve_budget}
use llm_api_router.Router.Attempts.{
  Step, retry_or_give_up, after_try, out_of_fuel, held, failed, tries, refuse, send, send_prepared,
  send_decided, attempt,
}
use llm_api_router.Router.Attempts.Grounds.{
  client_gone, decision, IsRefused, last_attempt, IsSound, IsStep,
}

module _ (w : World) (q : Request) (all_ : List ServerAttempt) (is_last : Bool) (r : Router)
    (l : Loop) (now i retry : ℕ) (id : String) (reserved : ℤ) (e : SendError) (pause used : ℤ)
    (leaves : Bool) (left : ℤ) (again : Step) where
  retry_or_give_up-IsStep :
      IsSound w l
      → l.refusal ≡ false
      → (leaves ≡ true → client_gone (w.backend i retry) ≡ true)
      → is_some l.last_err ≡ true
      → IsStep w q all_ is_last again.1 again.2
      → IsStep w q all_ is_last
          (retry_or_give_up r l now i retry id reserved e pause used leaves left again).1
          (retry_or_give_up r l now i retry id reserved e pause used leaves left again).2
  unfolding retry_or_give_up
  retry_or_give_up-IsStep sound open_ gone err h = elim (Bool-cases (ltb_ℤ (pos retry) left)) [
    | inr f ↦ rw f (sound, inl open_, ground (arith, err))
    | inl f ↦ elim (Bool-cases leaves) [
      | inl g ↦ rw (f, g) ((retry, gone g), refl)
      | inr g ↦ rw (f, g) h
    ]
  ]

module _ (w : World) (is_last : Bool) (q : Request) (all_ : List ServerAttempt) (id : String)
    (i : ℕ) (reserved : ℤ) (retry now : ℕ) (r : Router) (l : Loop) (again : Loop → Step)
    (sound : IsSound w l) (open_ : l.refusal ≡ false)
    (h : (l1 : Loop)
      → IsSound w l1
      → l1.refusal ≡ false
      → is_some l1.last_err ≡ true
      → IsStep w q all_ is_last (again l1).1 (again l1).2) where
  after_try-IsStep :
      (o : Outcome)
      → w.backend i retry ≡ o
      → IsStep w q all_ is_last
          (after_try q id i reserved retry now r l again o).1
          (after_try q id i reserved retry now r l again o).2
  unfolding after_try
  after_try-IsStep (served status pause used) e = ((retry, pause, used, e), refl)
  after_try-IsStep (disconnected used) e = ((retry, ap client_gone e), refl)
  after_try-IsStep (mid_stream status pause used) e = ((retry, pause, used, e), refl)
  after_try-IsStep (transport why used leaves) e =
      let l1 = failed l (transport_error why) in
      let s : IsSound w l1 = (sound.0, (i, retry, used, leaves, e)) in
      let gone = λ (g : leaves ≡ true). ap client_gone e ∙ g in
      retry_or_give_up-IsStep w q all_ is_last r l1 now i retry id reserved (transport_error why)
        (pos 0) used leaves (same_server_retries why q.num_retries) (again l1) s open_ gone refl
        (h l1 s open_ refl)
  after_try-IsStep (buffered status pause used leaves) e =
      let l1 = held l (buffered_error status) i status in
      let s : IsSound w l1 = ((retry, pause, used, leaves, e), refl) in
      let gone = λ (g : leaves ≡ true). ap client_gone e ∙ g in
      retry_or_give_up-IsStep w q all_ is_last r l1 now i retry id reserved (buffered_error status)
        pause used leaves (buffered_answer_retries status q.num_retries q.explicit_retries)
        (again l1) s open_ gone refl (h l1 s open_ refl)

module _ (w : World) (is_last : Bool) (q : Request) (all_ : List ServerAttempt) (id : String)
    (i : ℕ) (reserved : ℤ) where
  tries-IsStep :
      (fuel retry : ℕ) (r : Router) (l : Loop)
      → IsSound w l
      → l.refusal ≡ false
      → IsStep w q all_ is_last
          (tries w q id i reserved fuel retry r l).1
          (tries w q id i reserved fuel retry r l).2
  unfolding tries out_of_fuel
  tries-IsStep zero retry r l s open_ =
      after_try-IsStep w is_last q all_ id i reserved retry (w.clock i retry) r l
        (out_of_fuel r (w.clock i retry) id reserved) s open_
        (λ l1 s1 o1 err. (s1, inl o1, ground (arith, err))) (w.backend i retry) refl
  tries-IsStep (suc fuel) retry r l s open_ =
      after_try-IsStep w is_last q all_ id i reserved retry (w.clock i retry) r l
        (tries w q id i reserved fuel (retry + 1) r) s open_
        (λ l1 s1 o1 err. tries-IsStep fuel (retry + 1) r l1 s1 o1) (w.backend i retry) refl

-- The last attempt is neither skipped nor left without a reservation to try with.
reserve_budget-last :
    (r : Router) (now : ℕ) (id : String) (is_last : Bool) (estimate : ℤ)
    → (reserve_budget r now id is_last estimate).1 ≡ none
    → is_last ≡ false
unfolding reserve_budget
reserve_budget-last r now id is_last estimate h = ground (arith, h)

quota_denies-last :
    (r : Router) (now : ℕ) (id : String) (is_last : Bool)
    → (quota_denies r now id is_last).1 ≡ true
    → is_last ≡ false
unfolding quota_denies
quota_denies-last r now id is_last h = ground (arith, h)

skipped_early-last :
    (r : Router) (now : ℕ) (q : Request) (is_last : Bool) (a : ServerAttempt)
    → skipped_early r now q is_last a ≡ true
    → is_last ≡ false
unfolding skipped_early
skipped_early-last r now q is_last a h = ground (arith, h)

-- An attempt at its place in the list.
abbrev pub IsPlaced : List ServerAttempt → ServerAttempt → ℕ → Bool → Type 0
IsPlaced all_ a i is_last =
    (get_elem? all_ i ≡ some a) × (is_last ≡ true → last_attempt all_ ≡ some a)

module _ (w : World) (q : Request) (all_ : List ServerAttempt) (a : ServerAttempt) (i : ℕ)
    (is_last : Bool) (r : Router) (l : Loop) (sound : IsSound w l) (open_ : l.refusal ≡ false)
    (place : IsPlaced all_ a i is_last) where
  skip-IsStep : is_last ≡ false → IsStep w q all_ is_last l none
  skip-IsStep h = (sound, inl open_, ground (arith, h))

  send-IsStep :
      (estimate : ℤ)
      → IsStep w q all_ is_last
          (send w q a i is_last estimate r l).1
          (send w q a i is_last estimate r l).2
  unfolding send
  send-IsStep estimate =
      let b = reserve_budget r (w.clock i 0) a.server.id is_last estimate in
      elim (Option-cases b.1) [
        | inl e ↦
            rw (send, e)
              (skip-IsStep (reserve_budget-last r (w.clock i 0) a.server.id is_last estimate e))
        | inr (tokens, e) ↦
            rw (send, e)
              (tries-IsStep w is_last q all_ a.server.id i tokens (pos_part q.num_retries) 0
                (count_inflight b.0 a.server.id (pos 1)) l sound open_)
      ]

  refuse-IsStep :
      IsRefused q a → IsStep w q all_ is_last (refuse r l is_last).1 (refuse r l is_last).2
  unfolding refuse
  refuse-IsStep why = elim (Bool-cases is_last) [
    | inl e ↦ rw e (sound, inr (refl, (a, place.1 e, why)), refl)
    | inr e ↦ rw e (sound, inl open_, refl)
  ]

  send_prepared-IsStep :
      (p : Plan) (x : Prepared)
      → decision q a ≡ planned p
      → q.prepare a p ≡ x
      → IsStep w q all_ is_last
          (send_prepared w q a i is_last r l x).1
          (send_prepared w q a i is_last r l x).2
  unfolding send_prepared
  send_prepared-IsStep p rewrite_failed d e = ((a, p, place.0, d, e), refl)
  send_prepared-IsStep p conversion_refused d e = refuse-IsStep (inr (p, d, e))
  send_prepared-IsStep p (ready estimate) d e = send-IsStep estimate

  send_decided-IsStep :
      (d : Decision)
      → decision q a ≡ d
      → IsStep w q all_ is_last
          (send_decided w q a i is_last r l d).1
          (send_decided w q a i is_last r l d).2
  unfolding send_decided
  send_decided-IsStep (refused why) h = refuse-IsStep (inl (why, h))
  send_decided-IsStep (planned p) h = send_prepared-IsStep p (q.prepare a p) h refl

pub attempt-IsStep :
    (w : World) (q : Request) (all_ : List ServerAttempt) (a : ServerAttempt) (i : ℕ)
    (is_last : Bool) (r : Router) (l : Loop)
    → IsSound w l
    → l.refusal ≡ false
    → IsPlaced all_ a i is_last
    → IsStep w q all_ is_last (attempt w q a i is_last r l).1 (attempt w q a i is_last r l).2
unfolding attempt
attempt-IsStep w q all_ a i is_last r l sound open_ place =
    let denied = quota_denies r (w.clock i 0) a.server.id is_last in
    let d = decision q a in
    elim (Bool-cases (skipped_early r (w.clock i 0) q is_last a)) [
      | inl e ↦
          rw (attempt, e)
            (skip-IsStep w q all_ a i is_last r l sound open_ place
              (skipped_early-last r (w.clock i 0) q is_last a e))
      | inr e ↦ elim (Bool-cases denied.1) [
        | inl f ↦
            rw (attempt, e, f)
              (skip-IsStep w q all_ a i is_last r l sound open_ place
                (quota_denies-last r (w.clock i 0) a.server.id is_last f))
        | inr f ↦
            rw (attempt, e, f)
              (send_decided-IsStep w q all_ a i is_last denied.0 l sound open_ place d refl)
      ]
    ]
