-- ===== src/Router/Attempts/Reservation.antt =====
-- Every request gives back the output budgets that it reserved.
use mathlib.Core.Option
use llm_api_router.Prelude.{
  ℕ, not, ◌+◌, ◌^◌, ◌<◌, ℤ, pos, negsuc, String, ◌≡◌, refl, ap, sym, ◌∙◌, subst, Bool, true, false,
  ◌&&◌, Option, none, some, List, [], ◌∷◌, arith, is_pos, pos_part, str_eq, eq_iff, lookup_or,
  insert, lookup-insert, add64, sub64, wrap64, ◌+ℤ◌, ◌-ℤ◌, if◌then◌else◌, Bool-cases, Option-cases,
  inl, inr, ◌⊎◌,
}
use llm_api_router.Prelude.Dict.{Assoc}
use llm_api_router.Config.Quota.{
  QuotaTracker, limits_for, held, reserve, allow, usage, release_held,
}
use llm_api_router.Convert.Plan.{Plan, Decision, decide, planned, refused}
use llm_api_router.Router.State.{Router, ServerAttempt, count_inflight}
use llm_api_router.Router.World.{
  World, Request, Loop, Prepared, rewrite_failed, conversion_refused, ready,
}
use llm_api_router.Router.Bookkeeping.{quota_denies, skipped_early, reserve_budget}
use llm_api_router.Router.Attempts.{
  refuse, send, send_prepared, send_decided, attempt, attempts_from, handle_attempts,
  forced_convert, is_nil, fresh_loop,
}
use llm_api_router.Router.Attempts.Teardown.{
  Limits, holding_of, holding, given_back, after_release, tries-holding,
}

abbrev pub tpm_of : Limits → String → ℤ
tpm_of none j = pos 0
tpm_of (some f) j = (f j).0

lookup_or-insert :
    (id j : String) (v : ℤ) (m : Assoc ℤ)
    → lookup_or j (pos 0) (insert id v m) ≡ (if str_eq id j then v else lookup_or j (pos 0) m)
unfolding lookup_or
lookup_or-insert id j v m = ground (arith, lookup-insert id j v m)

-- What a server may hold: less than 2^62 tokens, and none if it has no token limit.
abbrev pub IsHeld : String → Option (ℤ × Limits) → Type 0
IsHeld j none = Unit
IsHeld j (some (h, limits)) =
    (n : ℕ) × (h ≡ pos n) × (n < 2 ^ 62) × ((is_pos (tpm_of limits j) ≡ true) ⊎ (n ≡ 0))

take_and_give_back :
    (n m : ℕ) → n < 2 ^ 62 → m < 2 ^ 62 → release_held (add64 (pos n) (pos m)) (pos m) ≡ pos n
unfolding release_held add64 sub64 wrap64 ◌+ℤ◌ ◌-ℤ◌
take_and_give_back n m h k = ground (arith, h, k)

give_back_nothing : (m : ℕ) → m < 2 ^ 62 → release_held (pos 0) (pos m) ≡ pos 0
unfolding release_held sub64 wrap64 ◌-ℤ◌
give_back_nothing m k = ground (arith, k)

tpm_of-limits_for : (q : QuotaTracker) (j : String) → tpm_of q.limits j ≡ (limits_for q j).0
unfolding limits_for
tpm_of-limits_for q j = elim (Option-cases q.limits) [
  | inl e ↦ rw (limits_for, e) refl
  | inr (f, e) ↦ rw (limits_for, e) refl
]

reserve-given_back :
    (q : QuotaTracker) (now : ℕ) (id : String) (estimate : ℤ) (j : String)
    → IsHeld j (some (holding_of j q))
    → pos_part estimate < 2 ^ 62
    → ((reserve q now id estimate).1 ≡ true)
        × (given_back id estimate j (holding_of j (reserve q now id estimate).0) ≡ holding_of j q)
      ⊎ ((reserve q now id estimate).1 ≡ false)
        × (holding_of j (reserve q now id estimate).0 ≡ holding_of j q)
unfolding reserve
reserve-given_back q now id (negsuc m) j h k = inl (refl, refl)
reserve-given_back q now id (pos m) j (n, e, b, c) k = ground (
  arith,
  e,
  b,
  c,
  k,
  eq_iff id j,
  ap (λ x. limits_for q x) {x = id} {y = j},
  tpm_of-limits_for q j,
  take_and_give_back n m b k,
  give_back_nothing m k,
  lookup_or-insert id j (add64 (held q id) (pos m)) q.reserved,
)

allow-holding :
    (q : QuotaTracker) (now : ℕ) (id j : String) → holding_of j (allow q now id).0 ≡ holding_of j q
unfolding allow
allow-holding q now id j = ground arith

usage-holding :
    (q : QuotaTracker) (now : ℕ) (id j : String) → holding_of j (usage q now id).0 ≡ holding_of j q
unfolding usage
usage-holding q now id j = refl

quota_denies-holding :
    (r : Router) (now : ℕ) (id : String) (is_last : Bool) (j : String)
    → holding (quota_denies r now id is_last).0 j ≡ holding r j
unfolding quota_denies
quota_denies-holding r now id is_last j = elim (Option-cases r.quota) [
  | inl e ↦ rw (quota_denies, e) (ap (Option.map (holding_of j)) e)
  | inr (q, e) ↦
      let a = allow q now id in
      let kept = allow-holding q now id j in
      elim (Bool-cases (not a.1 && not is_last)) [
        | inl f ↦ rw (quota_denies, e, f) (ap some (usage-holding a.0 now id j ∙ kept))
        | inr f ↦ rw (quota_denies, e, f) (ap some kept)
      ]
]

-- The budget that a reservation returns is what gives back what it took.
abbrev Repays : String → String → Option (ℤ × Limits) → Option (ℤ × Limits) → Option ℤ → Type 0
Repays id j before after none = after ≡ before
Repays id j before after (some tokens) = after_release after id tokens j ≡ before

module _ (r : Router) (now : ℕ) (id : String) (is_last : Bool) (estimate : ℤ) (j : String)
    (k : pos_part estimate < 2 ^ 62) where
  reserve_budget-Repays :
      (o : Option QuotaTracker)
      → r.quota ≡ o
      → IsHeld j (Option.map (holding_of j) o)
      → Repays id j
          (Option.map (holding_of j) o)
          (holding (reserve_budget r now id is_last estimate).0 j)
          (reserve_budget r now id is_last estimate).1
  unfolding reserve_budget
  reserve_budget-Repays none e h =
      rw (reserve_budget, e) (ap (λ o. after_release (Option.map (holding_of j) o) id (pos 0) j) e)
  reserve_budget-Repays (some q) e h = elim (Bool-cases (is_pos estimate)) [
    | inr f ↦
        rw (reserve_budget, e, f)
          (ap (λ o. after_release (Option.map (holding_of j) o) id (pos 0) j) e)
    | inl f ↦ elim (reserve-given_back q now id estimate j h k) [
      | inl (admitted, g) ↦ rw (reserve_budget, e, f, admitted) (ap some g)
      | inr (refused_, g) ↦ elim (Bool-cases is_last) [
        | inl l ↦ rw (reserve_budget, e, f, refused_, l) (ap some g)
        | inr l ↦ rw (reserve_budget, e, f, refused_, l) (ap some g)
      ]
    ]
  ]

abbrev pub IsModest : Prepared → Type 0
IsModest (ready estimate) = pos_part estimate < 2 ^ 62
IsModest _ = Unit

module _ (w : World) (q : Request) (a : ServerAttempt) (i : ℕ) (is_last : Bool) (r : Router)
    (l : Loop) (j : String) (h : IsHeld j (holding r j)) where
  send-holding :
      (estimate : ℤ)
      → pos_part estimate < 2 ^ 62
      → holding (send w q a i is_last estimate r l).0 j ≡ holding r j
  unfolding send count_inflight
  send-holding estimate k =
      let t = w.clock i 0 in
      let b = reserve_budget r t a.server.id is_last estimate in
      let repays = reserve_budget-Repays r t a.server.id is_last estimate j k r.quota refl h in
      elim (Option-cases b.1) [
        | inl e ↦
            rw (send, e)
              (subst (λ o. Repays a.server.id j (holding r j) (holding b.0 j) o) e repays)
        | inr (tokens, e) ↦
            rw (send, e)
              (tries-holding w q a.server.id i tokens (pos_part q.num_retries) 0
                  (count_inflight b.0 a.server.id (pos 1)) l j
                ∙ subst (λ o. Repays a.server.id j (holding r j) (holding b.0 j) o) e repays)
      ]

  send_prepared-holding :
      (p : Prepared) → IsModest p → holding (send_prepared w q a i is_last r l p).0 j ≡ holding r j
  unfolding send_prepared refuse
  send_prepared-holding rewrite_failed k = refl
  send_prepared-holding conversion_refused k = refl
  send_prepared-holding (ready estimate) k = send-holding estimate k

  send_decided-holding :
      (d : Decision)
      → ((p : Plan) → IsModest (q.prepare a p))
      → holding (send_decided w q a i is_last r l d).0 j ≡ holding r j
  unfolding send_decided refuse
  send_decided-holding (refused why) k = refl
  send_decided-holding (planned p) k = send_prepared-holding (q.prepare a p) (k p)

module _ (w : World) (q : Request) (j : String)
    (modest : (a : ServerAttempt) (p : Plan) → IsModest (q.prepare a p)) where
  attempt-holding :
      (a : ServerAttempt) (i : ℕ) (is_last : Bool) (r : Router) (l : Loop)
      → IsHeld j (holding r j)
      → holding (attempt w q a i is_last r l).0 j ≡ holding r j
  unfolding attempt
  attempt-holding a i is_last r l h =
      let denied = quota_denies r (w.clock i 0) a.server.id is_last in
      let d = decide q.dialect q.path a.server.protocols (forced_convert q a) in
      let kept = quota_denies-holding r (w.clock i 0) a.server.id is_last j in
      elim (Bool-cases (skipped_early r (w.clock i 0) q is_last a)) [
        | inl e ↦ rw (attempt, e) refl
        | inr e ↦ elim (Bool-cases denied.1) [
          | inl f ↦ rw (attempt, e, f) kept
          | inr f ↦
              rw (attempt, e, f)
                (send_decided-holding w q a i is_last denied.0 l j (subst (IsHeld j) (sym kept) h) d
                    (modest a)
                  ∙ kept)
        ]
      ]

  attempts_from-holding :
      (i : ℕ) (as_ : List ServerAttempt) (r : Router) (l : Loop)
      → IsHeld j (holding r j)
      → holding (attempts_from w q i as_ r l).0 j ≡ holding r j
  unfolding attempts_from
  attempts_from-holding i [] r l h = refl
  attempts_from-holding i (a ∷ as_) r l h =
      let s = attempt w q a i (is_nil as_) r l in
      let kept = attempt-holding a i (is_nil as_) r l h in
      elim (Option-cases s.2) [
        | inl e ↦
            rw (attempts_from, e)
              (attempts_from-holding (i + 1) as_ s.0 s.1 (subst (IsHeld j) (sym kept) h) ∙ kept)
        | inr (x, e) ↦ rw (attempts_from, e) kept
      ]

-- However a request ends, a server has as many tokens reserved after it as before, if it had
-- fewer than 2^62, and none in case it has no token limit, and no body declares 2^62 or more.
pub holding-handle_attempts :
    (w : World) (q : Request) (as_ : List ServerAttempt) (r : Router) (j : String)
    → ((a : ServerAttempt) (p : Plan) → IsModest (q.prepare a p))
    → IsHeld j (holding r j)
    → holding (handle_attempts w q as_ r).0 j ≡ holding r j
unfolding handle_attempts
holding-handle_attempts w q [] r j modest h = refl
holding-handle_attempts w q (a ∷ as_) r j modest h =
    attempts_from-holding w q j modest 0 (a ∷ as_) r fresh_loop h
