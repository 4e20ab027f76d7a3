-- ===== src/Router/Attempts/Unanswered.antt =====
-- An attempt that leaves no answer held back was not answered at all: it does not depend on what
-- the backends would have answered.
use llm_api_router.Prelude.{
  ℕ, zero, suc, ◌+◌, ℤ, pos, String, ◌≡◌, refl, Bool, none, some, arith, ltb_ℤ, Bool-cases,
  Option-cases, inl, inr, pos_part,
}
use llm_api_router.Convert.Plan.{Decision, decide, planned, refused}
use llm_api_router.Router.State.{Router, ServerAttempt, count_inflight}
use llm_api_router.Router.Budget.{same_server_retries, buffered_answer_retries}
use llm_api_router.Router.World.{
  World, Request, Outcome, Loop, SendError, transport_error, buffered_error, served, disconnected,
  mid_stream, transport, buffered, Prepared, rewrite_failed, conversion_refused, ready,
}
use llm_api_router.Router.Bookkeeping.{quota_denies, skipped_early, reserve_budget}
use llm_api_router.Router.Attempts.{
  Step, retry_or_give_up, after_try, out_of_fuel, held, failed, tries, refuse, send, send_prepared,
  send_decided, attempt, forced_convert,
}

-- The world in which every try that did not end in a transport error ends as another says.
abbrev pub otherwise : Outcome → Outcome → Outcome
otherwise (transport e used leaves) alt = transport e used leaves
otherwise _ alt = alt

abbrev pub changed : World → (ℕ → ℕ → Outcome) → World
changed w f = record w { backend = λ i retry. otherwise (w.backend i retry) (f i retry) }

-- No answer yet, and none held back.
abbrev pub IsQuiet : Step → Type 0
IsQuiet s = (s.2 ≡ none) × (s.1.held_back ≡ none)

module _ (r : Router) (l : Loop) (now i retry : ℕ) (id : String) (reserved : ℤ) (e : SendError)
    (pause used : ℤ) (leaves : Bool) (left : ℤ) (again again' : Step) where
  retry_or_give_up-held :
      IsQuiet (retry_or_give_up r l now i retry id reserved e pause used leaves left again)
      → (IsQuiet again → l.held_back ≡ none)
      → l.held_back ≡ none
  unfolding retry_or_give_up
  retry_or_give_up-held h f = elim (Bool-cases (ltb_ℤ (pos retry) left)) [
    | inr a ↦ (rw (retry_or_give_up, a) at h).1
    | inl a ↦ elim (Bool-cases leaves) [
      | inl b ↦ ground (arith, (rw (retry_or_give_up, a, b) at h).0)
      | inr b ↦ f (rw (retry_or_give_up, a, b) at h)
    ]
  ]

  retry_or_give_up-same :
      IsQuiet (retry_or_give_up r l now i retry id reserved e pause used leaves left again)
      → (IsQuiet again → again' ≡ again)
      → retry_or_give_up r l now i retry id reserved e pause used leaves left again'
        ≡ retry_or_give_up r l now i retry id reserved e pause used leaves left again
  unfolding retry_or_give_up
  retry_or_give_up-same h f = elim (Bool-cases (ltb_ℤ (pos retry) left)) [
    | inr a ↦ rw (retry_or_give_up, a) refl
    | inl a ↦ elim (Bool-cases leaves) [
      | inl b ↦ rw (retry_or_give_up, a, b) refl
      | inr b ↦ rw (retry_or_give_up, a, b) (f (rw (retry_or_give_up, a, b) at h))
    ]
  ]

some_none {ℓ} : {A : Type ℓ} {C : Type 0} (x : A) → some x ≡ none → C
some_none x h = ground (arith, h)

module _ (q : Request) (id : String) (i : ℕ) (reserved : ℤ) (retry now : ℕ) (r : Router) (l : Loop)
    (again again' : Loop → Step)
    (quiet : (l1 : Loop) → IsQuiet (again l1) → l1.held_back ≡ none) where
  buffered-loud :
      (status : ℕ) (pause used : ℤ) (leaves : Bool) {C : Type 0}
      → IsQuiet (after_try q id i reserved retry now r l again (buffered status pause used leaves))
      → C
  unfolding after_try
  buffered-loud status pause used leaves h =
      let l1 = held l (buffered_error status) i status in
      some_none (i, status)
        (retry_or_give_up-held r l1 now i retry id reserved (buffered_error status) pause used
          leaves (buffered_answer_retries status q.num_retries q.explicit_retries) (again l1)
          (again l1) h (quiet l1))

  after_try-held :
      (o : Outcome) → IsQuiet (after_try q id i reserved retry now r l again o) → l.held_back ≡ none
  unfolding after_try
  after_try-held (served status pause used) h = some_none _ h.0
  after_try-held (disconnected used) h = some_none _ h.0
  after_try-held (mid_stream status pause used) h = some_none _ h.0
  after_try-held (transport why used leaves) h =
      let l1 = failed l (transport_error why) in
      retry_or_give_up-held r l1 now i retry id reserved (transport_error why) (pos 0) used leaves
        (same_server_retries why q.num_retries) (again l1) (again l1) h (quiet l1)
  after_try-held (buffered status pause used leaves) h = buffered-loud status pause used leaves h

  after_try-same :
      (o alt : Outcome)
      → ((l1 : Loop) → IsQuiet (again l1) → again' l1 ≡ again l1)
      → IsQuiet (after_try q id i reserved retry now r l again o)
      → after_try q id i reserved retry now r l again' (otherwise o alt)
        ≡ after_try q id i reserved retry now r l again o
  unfolding after_try
  after_try-same (served status pause used) alt same h = some_none _ h.0
  after_try-same (disconnected used) alt same h = some_none _ h.0
  after_try-same (mid_stream status pause used) alt same h = some_none _ h.0
  after_try-same (transport why used leaves) alt same h =
      let l1 = failed l (transport_error why) in
      retry_or_give_up-same r l1 now i retry id reserved (transport_error why) (pos 0) used leaves
        (same_server_retries why q.num_retries) (again l1) (again' l1) h (same l1)
  after_try-same (buffered status pause used leaves) alt same h =
      buffered-loud status pause used leaves h

module _ (w : World) (q : Request) (f : ℕ → ℕ → Outcome) where
  module _ (id : String) (i : ℕ) (reserved : ℤ) where
    tries-held :
        (fuel retry : ℕ) (r : Router) (l : Loop)
        → IsQuiet (tries w q id i reserved fuel retry r l)
        → l.held_back ≡ none
    unfolding tries out_of_fuel
    tries-held zero retry r l h =
        let stop = out_of_fuel r (w.clock i retry) id reserved in
        after_try-held q id i reserved retry (w.clock i retry) r l stop stop (λ l1 k. k.1)
          (w.backend i retry) h
    tries-held (suc fuel) retry r l h =
        let again = tries w q id i reserved fuel (retry + 1) r in
        after_try-held q id i reserved retry (w.clock i retry) r l again again
          (tries-held fuel (retry + 1) r) (w.backend i retry) h

    tries-same :
        (fuel retry : ℕ) (r : Router) (l : Loop)
        → IsQuiet (tries w q id i reserved fuel retry r l)
        → tries (changed w f) q id i reserved fuel retry r l
          ≡ tries w q id i reserved fuel retry r l
    unfolding tries out_of_fuel
    tries-same zero retry r l h =
        let stop = out_of_fuel r (w.clock i retry) id reserved in
        after_try-same q id i reserved retry (w.clock i retry) r l stop stop (λ l1 k. k.1)
          (w.backend i retry) (f i retry) (λ l1 k. refl) h
    tries-same (suc fuel) retry r l h =
        let again = tries w q id i reserved fuel (retry + 1) r in
        let again' = tries (changed w f) q id i reserved fuel (retry + 1) r in
        after_try-same q id i reserved retry (w.clock i retry) r l again again'
          (tries-held fuel (retry + 1) r) (w.backend i retry) (f i retry)
          (tries-same fuel (retry + 1) r) h

  -- What an attempt is in the changed world, and what it was given.
  abbrev Same : Step → Step → Loop → Type 0
  Same s t l = (t ≡ s) × (l.held_back ≡ none)

  module _ (a : ServerAttempt) (i : ℕ) (is_last : Bool) (r : Router) (l : Loop) where
    refuse-held : IsQuiet (refuse r l is_last) → l.held_back ≡ none
    unfolding refuse
    refuse-held h = elim (Bool-cases is_last) [
      | inl e ↦ (rw (refuse, e) at h).1
      | inr e ↦ (rw (refuse, e) at h).1
    ]

    send-Same :
        (estimate : ℤ)
        → IsQuiet (send w q a i is_last estimate r l)
        → Same (send w q a i is_last estimate r l) (send (changed w f) q a i is_last estimate r l) l
    unfolding send
    send-Same estimate h =
        let b = reserve_budget r (w.clock i 0) a.server.id is_last estimate in
        elim (Option-cases b.1) [
          | inl e ↦ (rw (send, e) refl, (rw (send, e) at h).1)
          | inr (tokens, e) ↦
              let fuel = pos_part q.num_retries in
              let r1 = count_inflight b.0 a.server.id (pos 1) in
              let k : IsQuiet (tries w q a.server.id i tokens fuel 0 r1 l) = rw (send, e) at h in
              (
                rw (send, e) (tries-same a.server.id i tokens fuel 0 r1 l k),
                tries-held a.server.id i tokens fuel 0 r1 l k,
              )
        ]

    send_prepared-Same :
        (p : Prepared)
        → IsQuiet (send_prepared w q a i is_last r l p)
        → Same
            (send_prepared w q a i is_last r l p)
            (send_prepared (changed w f) q a i is_last r l p)
            l
    unfolding send_prepared
    send_prepared-Same rewrite_failed h = some_none _ h.0
    send_prepared-Same conversion_refused h = (refl, refuse-held h)
    send_prepared-Same (ready estimate) h = send-Same estimate h

    send_decided-Same :
        (d : Decision)
        → IsQuiet (send_decided w q a i is_last r l d)
        → Same
            (send_decided w q a i is_last r l d)
            (send_decided (changed w f) q a i is_last r l d)
            l
    unfolding send_decided
    send_decided-Same (refused why) h = (refl, refuse-held h)
    send_decided-Same (planned p) h = send_prepared-Same (q.prepare a p) h

  pub attempt-Same :
      (a : ServerAttempt) (i : ℕ) (is_last : Bool) (r : Router) (l : Loop)
      → IsQuiet (attempt w q a i is_last r l)
      → (attempt (changed w f) q a i is_last r l ≡ attempt w q a i is_last r l)
        × (l.held_back ≡ none)
  unfolding attempt
  attempt-Same a i is_last r l h =
      let denied = quota_denies r (w.clock i 0) a.server.id is_last in
      let d = decide q.dialect q.path a.server.protocols (forced_convert q a) in
      elim (Bool-cases (skipped_early r (w.clock i 0) q is_last a)) [
        | inl e ↦ (rw (attempt, e) refl, (rw (attempt, e) at h).1)
        | inr e ↦ elim (Bool-cases denied.1) [
          | inl g ↦ (rw (attempt, e, g) refl, (rw (attempt, e, g) at h).1)
          | inr g ↦
              rw (attempt, e, g)
                (send_decided-Same a i is_last denied.0 l d (rw (attempt, e, g) at h))
        ]
      ]
