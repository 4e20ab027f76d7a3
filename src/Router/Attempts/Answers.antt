-- ===== src/Router/Attempts/Answers.antt =====
-- Every answer has its grounds, and the last attempt is always made.
use llm_api_router.Prelude.{
  ℕ, zero, suc, ◌+◌, ◌≡◌, refl, Bool, true, false, ◌||◌, Option, none, some, List, [], ◌∷◌, arith,
  is_some, subst, Option-cases, ap, ◌∙◌, get_elem?, drop, inl, inr,
}
use llm_api_router.Router.Attempts.Leaving.{attempt-IsStep}
use llm_api_router.Router.Attempts.Grounds.{
  IsGrounded, last_attempt, is_gateway, MayRefuse, IsStep, IsSound, HeldFrom, ErrFrom,
}
use llm_api_router.Router.Attempts.Unanswered.{changed, attempt-Same}
use llm_api_router.Router.State.{Router, ServerAttempt}
use llm_api_router.Router.World.{
  World, Request, Outcome, Loop, Answer, relayed, broken_off, client_left, rewrite_error,
  refused_400, last_answer, bad_gateway, no_backend, SendError, transport_error, buffered_error,
}
use llm_api_router.Router.Attempts.{
  Step, attempt, final_answer, attempts_from, fresh_loop, handle_attempts,
}

final_answer-IsGrounded :
    (w : World) (q : Request) (all_ : List ServerAttempt) (refusal : Bool) (back : Option (ℕ × ℕ))
    (err : Option SendError)
    → HeldFrom w back
    → ErrFrom w back err
    → MayRefuse q all_ true refusal
    → (refusal || is_some err) ≡ true
    → IsGrounded w q all_
        (final_answer (record { last_err = err; refusal = refusal; held_back = back }))
unfolding final_answer
final_answer-IsGrounded w q all_ true back err g e (inl unset) h = ground (arith, unset)
final_answer-IsGrounded w q all_ true back err g e (inr (_, why)) h = why
final_answer-IsGrounded w q all_ false (some (i, status)) err g e m h = g
final_answer-IsGrounded w q all_ false none none g e m h = ground (arith, h)
final_answer-IsGrounded w q all_ false none (some (transport_error why)) g e m h = e
final_answer-IsGrounded w q all_ false none (some (buffered_error status)) g e m h =
    ground (arith, e)

final_answer-gateway : (l : Loop) → is_gateway (final_answer l) ≡ true → l.held_back ≡ none
unfolding final_answer
final_answer-gateway l h = go l.refusal l.held_back l.last_err h
  where
    go :
        (refusal : Bool) (back : Option (ℕ × ℕ)) (err : Option SendError)
        → is_gateway (final_answer (record { last_err = err; refusal = refusal; held_back = back }))
          ≡ true
        → back ≡ none
    go true back err h = ground (arith, h)
    go false none err h = refl
    go false (some x) err h = ground (arith, h)

-- The answer does not hang on what any backend would have answered: nobody did.
abbrev pub Unanswered : World → Request → List ServerAttempt → Router → Answer → Type 0
Unanswered w q as_ r (bad_gateway e) =
    (f : ℕ → ℕ → Outcome) → handle_attempts (changed w f) q as_ r ≡ handle_attempts w q as_ r
Unanswered w q as_ r _ = Unit

-- What is left of the list at a place.
abbrev IsRest : List ServerAttempt → ℕ → List ServerAttempt → Type 0
IsRest all_ i rest = (drop i all_ ≡ rest) × (last_attempt all_ ≡ last_attempt rest)

get_elem?-drop :
    (xs : List ServerAttempt) (i : ℕ) (a : ServerAttempt) (rest : List ServerAttempt)
    → drop i xs ≡ a ∷ rest
    → (get_elem? xs i ≡ some a) × (drop (i + 1) xs ≡ rest)
get_elem?-drop [] zero a rest h = ground (arith, h)
get_elem?-drop [] (suc i) a rest h = ground (arith, h)
get_elem?-drop (x ∷ xs) zero a rest h = (ap head h, ap (λ (l : List ServerAttempt). drop 1 l) h)
  where
    head : List ServerAttempt → Option ServerAttempt
    head [] = none
    head (y ∷ _) = some y
get_elem?-drop (x ∷ xs) (suc i) a rest h =
    let (at, later) = get_elem?-drop xs i a rest h in
    let e : suc i + 1 ≡ suc (i + 1) = omega arith in (at, ap (λ n. drop n (x ∷ xs)) e ∙ later)

module _ (w : World) (q : Request) (f : ℕ → ℕ → Outcome) (all_ : List ServerAttempt) where
  -- The two claims on the rest of the list.
  abbrev Claims : ℕ → List ServerAttempt → Router → Loop → Type 0
  Claims i as_ r l =
      IsGrounded w q all_ (attempts_from w q i as_ r l).1
      × (is_gateway (attempts_from w q i as_ r l).1 ≡ true
          → (attempts_from (changed w f) q i as_ r l ≡ attempts_from w q i as_ r l)
            × (l.held_back ≡ none))

  attempts_from-Claims :
      (i : ℕ) (a : ServerAttempt) (as_ : List ServerAttempt) (r : Router) (l : Loop)
      → IsSound w l
      → l.refusal ≡ false
      → IsRest all_ i (a ∷ as_)
      → Claims i (a ∷ as_) r l
  unfolding attempts_from
  attempts_from-Claims i a [] r l sound open_ rest =
      let s = attempt w q a i true r l in
      let (at, _) = get_elem?-drop all_ i a [] rest.0 in
      let step = attempt-IsStep w q all_ a i true r l sound open_ (at, λ _. rest.1) in
      elim (Option-cases s.2) [
        | inl e ↦
            let t = subst (λ o. IsStep w q all_ true s.1 o) e step in
            (
              rw (attempts_from, e)
                  (final_answer-IsGrounded w q all_ s.1.refusal s.1.held_back s.1.last_err t.0.0
                    t.0.1 t.1 t.2),
              λ g.
                  let g1 : is_gateway (final_answer s.1) ≡ true = rw (attempts_from, e) at g in
                  let (same, back) =
                    attempt-Same w q f a i true r l (e, final_answer-gateway s.1 g1) in
                  let last_step : Step → Router × Answer =
                    λ t. elim t.2 [ some x ↦ (t.0, x) | none ↦ (t.0, final_answer t.1) ] in
                  (ap last_step same, back),
            )
        | inr (x, e) ↦
            let t = subst (λ o. IsStep w q all_ true s.1 o) e step in
            (
              rw (attempts_from, e) t.0,
              λ g.
                  let g1 : is_gateway x ≡ true = rw (attempts_from, e) at g in
                  ground (arith, g1, t.1),
            )
      ]
  attempts_from-Claims i a (b ∷ as_) r l sound open_ rest =
      let s = attempt w q a i false r l in
      let (at, later) = get_elem?-drop all_ i a (b ∷ as_) rest.0 in
      let step =
        attempt-IsStep w q all_ a i false r l sound open_ (at, λ last. ground (arith, last)) in
      elim (Option-cases s.2) [
        | inl e ↦
            let t = subst (λ o. IsStep w q all_ false s.1 o) e step in
            let still_open : s.1.refusal ≡ false = elim t.1 [
              | inl unset ↦ unset
              | inr (last, _) ↦ ground (arith, last)
            ] in
            let more = attempts_from-Claims (i + 1) b as_ s.0 s.1 t.0 still_open (later, rest.1) in
            (
              rw (attempts_from, e) more.0,
              λ g.
                  let g1 : is_gateway (attempts_from w q (i + 1) (b ∷ as_) s.0 s.1).1 ≡ true =
                    rw (attempts_from, e) at g in
                  let (same_later, back) = more.1 g1 in
                  let (same, back1) = attempt-Same w q f a i false r l (e, back) in
                  let next_step : Step → Router × Answer = λ t. elim t.2 [
                    | some x ↦ (t.0, x)
                    | none ↦ attempts_from (changed w f) q (i + 1) (b ∷ as_) t.0 t.1
                  ] in
                  let after : Router × Answer → Router × Answer =
                    λ y. elim s.2 [ some x ↦ (s.0, x) | none ↦ y ] in
                  (ap next_step same ∙ ap after same_later, back1),
            )
        | inr (x, e) ↦
            let t = subst (λ o. IsStep w q all_ false s.1 o) e step in
            (
              rw (attempts_from, e) t.0,
              λ g.
                  let g1 : is_gateway x ≡ true = rw (attempts_from, e) at g in
                  ground (arith, g1, t.1),
            )
      ]

Unanswered-gateway :
    (w : World) (q : Request) (as_ : List ServerAttempt) (r : Router) (x : Answer)
    → (is_gateway x ≡ true
        → (f : ℕ → ℕ → Outcome) → handle_attempts (changed w f) q as_ r ≡ handle_attempts w q as_ r)
    → Unanswered w q as_ r x
Unanswered-gateway w q as_ r (bad_gateway e) h = h refl
Unanswered-gateway w q as_ r (relayed i status) h = tt
Unanswered-gateway w q as_ r (broken_off i status) h = tt
Unanswered-gateway w q as_ r (client_left i) h = tt
Unanswered-gateway w q as_ r (rewrite_error i) h = tt
Unanswered-gateway w q as_ r refused_400 h = tt
Unanswered-gateway w q as_ r (last_answer i status) h = tt
Unanswered-gateway w q as_ r no_backend h = tt

-- A request with at least one attempt is answered with what a backend sent it; else the client was
-- gone at a try, the body of an attempt could not be rewritten, or the backend of the last attempt
-- cannot be spoken to (its plan or its conversion is refused); else with a 502, after a transport
-- error, and that only if no backend answered a try at all: whatever the tries that did not end in
-- a transport error had ended in instead, everything would be the same.
pub handle_attempts-IsGrounded :
    (w : World) (q : Request) (a : ServerAttempt) (as_ : List ServerAttempt) (r : Router)
    → IsGrounded w q (a ∷ as_) (handle_attempts w q (a ∷ as_) r).1
      × Unanswered w q (a ∷ as_) r (handle_attempts w q (a ∷ as_) r).1
unfolding handle_attempts
handle_attempts-IsGrounded w q a as_ r =
    let claims = λ (f : ℕ → ℕ → Outcome).
      attempts_from-Claims w q f (a ∷ as_) 0 a as_ r fresh_loop (tt, tt) refl (refl, refl) in
    (
      (claims w.backend).0,
      Unanswered-gateway w q (a ∷ as_) r (handle_attempts w q (a ∷ as_) r).1
          (λ g f. ((claims f).1 g).0),
    )
