-- ===== src/Router/Attempts/Fuel.antt =====
-- The number of tries is bounded by the retry budget.
use llm_api_router.Prelude.{
  ℕ, zero, suc, ◌+◌, ◌≤◌, ℤ, pos, String, ◌≡◌, refl, Bool, false, arith, ltb_ℤ, pos_part,
}
use llm_api_router.Router.State.{Router}
use llm_api_router.Router.Budget.{
  TransportError, unreachable_error, other_error, same_server_retries, buffered_answer_retries,
}
use llm_api_router.Router.World.{
  World, Request, Outcome, Loop, SendError, transport_error, buffered_error, served, disconnected,
  mid_stream, transport, buffered,
}
use llm_api_router.Router.Attempts.{
  Step, retry_or_give_up, after_try, out_of_fuel, held, failed, tries,
}

-- No error is worth more retries than the request has.
same_server_retries-le :
    (e : TransportError) (n : ℤ) → pos_part (same_server_retries e n) ≤ pos_part n
unfolding same_server_retries
same_server_retries-le unreachable_error n = ground arith
same_server_retries-le other_error n = omega arith

buffered_answer_retries-le :
    (status : ℕ) (n : ℤ) (explicit : Bool)
    → pos_part (buffered_answer_retries status n explicit) ≤ pos_part n
unfolding buffered_answer_retries
buffered_answer_retries-le status n explicit = ground arith

-- The next try counts only while there is budget.
module _ (r : Router) (l : Loop) (now i retry : ℕ) (id : String) (reserved : ℤ) (e : SendError)
    (pause used : ℤ) (leaves : Bool) (left : ℤ) (again other : Step) where
  retry_or_give_up-spent :
      pos_part left ≤ retry
      → retry_or_give_up r l now i retry id reserved e pause used leaves left again
        ≡ retry_or_give_up r l now i retry id reserved e pause used leaves left other
  unfolding retry_or_give_up
  retry_or_give_up-spent h = rw (spent left h) refl
    where
      spent : (z : ℤ) → pos_part z ≤ retry → ltb_ℤ (pos retry) z ≡ false
      spent z k = ground arith

module _ (q : Request) (id : String) (i : ℕ) (reserved : ℤ) (retry now : ℕ) (r : Router) (l : Loop)
    (again other : Loop → Step) where
  after_try-spent :
      (o : Outcome)
      → pos_part q.num_retries ≤ retry
      → after_try q id i reserved retry now r l again o
        ≡ after_try q id i reserved retry now r l other o
  unfolding after_try
  after_try-spent (served status pause used) h = refl
  after_try-spent (disconnected used) h = refl
  after_try-spent (mid_stream status pause used) h = refl
  after_try-spent (transport e used leaves) h =
      retry_or_give_up-spent r _ now i retry id reserved _ _ used leaves _ _ _
        (omega (arith, h, same_server_retries-le e q.num_retries))
  after_try-spent (buffered status pause used leaves) h =
      retry_or_give_up-spent r _ now i retry id reserved _ pause used leaves _ _ _
        (omega (arith, h, buffered_answer_retries-le status q.num_retries q.explicit_retries))

  after_try-cong :
      (o : Outcome)
      → ((l1 : Loop) → again l1 ≡ other l1)
      → after_try q id i reserved retry now r l again o
        ≡ after_try q id i reserved retry now r l other o
  unfolding after_try
  after_try-cong (served status pause used) h = refl
  after_try-cong (disconnected used) h = refl
  after_try-cong (mid_stream status pause used) h = refl
  after_try-cong (transport e used leaves) h = rw (h (failed l (transport_error e))) refl
  after_try-cong (buffered status pause used leaves) h =
      rw (h (held l (buffered_error status) i status)) refl

-- With as much fuel as there are retries left, more fuel makes no difference: the loop over the
-- tries on one server ends by itself, whatever the backend does.
pub tries-fuel :
    (w : World) (q : Request) (id : String) (i : ℕ) (reserved : ℤ) (fuel more retry : ℕ)
    (r : Router) (l : Loop)
    → pos_part q.num_retries ≤ fuel + retry
    → fuel ≤ more
    → tries w q id i reserved more retry r l ≡ tries w q id i reserved fuel retry r l
unfolding tries
tries-fuel w q id i reserved zero zero retry r l h k = refl
tries-fuel w q id i reserved zero (suc more) retry r l h k =
    after_try-spent q id i reserved retry (w.clock i retry) r l
      (tries w q id i reserved more (retry + 1) r) (out_of_fuel r (w.clock i retry) id reserved)
      (w.backend i retry) (omega (arith, h))
tries-fuel w q id i reserved (suc fuel) zero retry r l h k = ground (arith, k)
tries-fuel w q id i reserved (suc fuel) (suc more) retry r l h k =
    after_try-cong q id i reserved retry (w.clock i retry) r l
      (tries w q id i reserved more (retry + 1) r) (tries w q id i reserved fuel (retry + 1) r)
      (w.backend i retry)
      (λ l1.
        tries-fuel w q id i reserved fuel more (retry + 1) r l1 (omega (arith, h))
          (omega (arith, k)))
