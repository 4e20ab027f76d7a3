-- ===== src/Config/Quota/Conservation.antt =====
-- What a limited server has held is what its open requests hold, whatever the order in which
-- requests are begun, refused, finished and observed.
use llm_api_router.Prelude.{
  ℕ, zero, suc, ◌+◌, ◌-◌, ◌*◌, ◌^◌, ◌≤◌, ◌<◌, ℤ, pos, String, ◌≡◌, ap, ◌∙◌, none, some, List, [],
  ◌∷◌, arith, true, is_pos, length, All, add64, sub64, get_elem?, erase_idx, lookup_or-insert_self,
  if◌then◌else◌, inl, inr, Option-cases,
}
use llm_api_router.Config.Quota.{
  QuotaTracker, limits_for, allow, record_request, reserve, complete, usage, held, release_held,
}

-- What requests do to the tracker of one server; the first number is the clock.
pub data Event : Type 0 where
  begin : ℕ → ℕ → Event
  finish : ℕ → ℕ → ℤ → Event
  ask : ℕ → Event
  count : ℕ → Event
  look : ℕ → Event

-- The tracker, with the budgets of the open requests, newest first.
pub record Session : Type 0 where
  pub tracker : QuotaTracker
  pub open_budgets : List ℕ

unfoldable pub begin_in : Session → ℕ → String → ℕ → Session
begin_in s now id estimate =
    let (q, admitted) = reserve s.tracker now id (pos estimate) in
    record {
      tracker = q;
      open_budgets = if admitted then estimate ∷ s.open_budgets else s.open_budgets;
    }

-- The request at this place of the list ends; a place past its end is no request.
unfoldable pub finish_in : Session → ℕ → String → ℕ → ℤ → Session
finish_in s now id k actual = elim (get_elem? s.open_budgets k) [
  | none ↦ s
  | some budget ↦ record {
    tracker = complete s.tracker now id (pos budget) actual;
    open_budgets = erase_idx s.open_budgets k;
  }
]

unfoldable pub step : String → Session → Event → Session
unfolding begin_in finish_in
step id s (begin now estimate) = begin_in s now id estimate
step id s (finish now k actual) = finish_in s now id k actual
step id s (ask now) = record s { tracker = (allow s.tracker now id).0 }
step id s (count now) = record s { tracker = record_request s.tracker now id }
step id s (look now) = record s { tracker = (usage s.tracker now id).0 }

unfoldable pub run : String → Session → List Event → Session
unfolding step
run id s [] = s
run id s (e ∷ es) = run id (step id s e) es

abbrev pub sum : List ℕ → ℕ
sum [] = 0
sum (x ∷ xs) = x + sum xs

-- No request declares more than 2^31 tokens.
abbrev pub IsModest : Event → Type 0
IsModest (begin now estimate) = estimate ≤ 2 ^ 31
IsModest (finish now k actual) = Unit
IsModest (ask now) = Unit
IsModest (count now) = Unit
IsModest (look now) = Unit

record IsBalanced (id : String) (s : Session) : Type 0 where
  limited : is_pos (limits_for s.tracker id).0 ≡ true
  balanced : held s.tracker id ≡ pos (sum s.open_budgets)

add64_pos : (a b : ℕ) → a + b < 2 ^ 63 → add64 (pos a) (pos b) ≡ pos (a + b)
unfolding add64
add64_pos a b h = ground arith

release_held_lem : (a b : ℕ) → b ≤ a → a < 2 ^ 63 → release_held (pos a) (pos b) ≡ pos (a - b)
unfolding release_held sub64
release_held_lem a b h k = ground arith

sum-erase_idx :
    (xs : List ℕ) (k : ℕ) {b : ℕ} → get_elem? xs k ≡ some b → b + sum (erase_idx xs k) ≡ sum xs
sum-erase_idx [] k h = cc
sum-erase_idx (x ∷ xs) zero h = ground arith
sum-erase_idx (x ∷ xs) (suc k) h = omega (arith, sum-erase_idx xs k h)

limits_for-reserve :
    (q : QuotaTracker) (now : ℕ) (id : String) (estimate : ℤ)
    → limits_for (reserve q now id estimate).0 id ≡ limits_for q id
unfolding reserve limits_for
limits_for-reserve q now id estimate = ground arith

limits_for-complete :
    (q : QuotaTracker) (now : ℕ) (id : String) (budget actual : ℤ)
    → limits_for (complete q now id budget actual) id ≡ limits_for q id
unfolding complete limits_for
limits_for-complete q now id budget actual = ground arith

held-complete :
    (q : QuotaTracker) (now : ℕ) (id : String) (total budget : ℕ) (actual : ℤ)
    → held q id ≡ pos total
    → budget ≤ total
    → total < 2 ^ 63
    → held (complete q now id (pos budget) actual) id ≡ pos (total - budget)
unfolding complete
held-complete q now id total budget actual h b k = ground (
  arith,
  release_held_lem total budget b k,
  lookup_or-insert_self id (pos 0) (pos (total - budget)) q.reserved,
)

begin-IsBalanced :
    (id : String) (s : Session) (now estimate : ℕ)
    → IsBalanced id s
    → sum s.open_budgets + estimate < 2 ^ 63
    → IsBalanced id (begin_in s now id estimate)
unfolding begin_in reserve
begin-IsBalanced id s now estimate v h = record {
  limited = rw (limits_for-reserve s.tracker now id (pos estimate)) v.limited;
  balanced = ground (
    arith,
    v.limited,
    v.balanced,
    add64_pos (sum s.open_budgets) estimate h,
    lookup_or-insert_self id (pos 0) (pos (sum s.open_budgets + estimate)) s.tracker.reserved,
  );
}

finish-IsBalanced :
    (id : String) (s : Session) (now k : ℕ) (actual : ℤ)
    → IsBalanced id s
    → sum s.open_budgets < 2 ^ 63
    → IsBalanced id (finish_in s now id k actual)
unfolding finish_in
finish-IsBalanced id s now k actual v h = elim (Option-cases (get_elem? s.open_budgets k)) [
  | inl e ↦ rw (e, finish_in) v
  | inr (b, e) ↦
      let split = sum-erase_idx s.open_budgets k e in
      rw (e, finish_in)
        (record {
          limited = rw (limits_for-complete s.tracker now id (pos b) actual) v.limited;
          balanced =
              held-complete s.tracker now id (sum s.open_budgets) b actual v.balanced (omega arith)
                h
              ∙ ap pos (omega arith);
        })
]

step-IsBalanced :
    (id : String) (s : Session) (e : Event)
    → IsModest e
    → IsBalanced id s
    → sum s.open_budgets + 2 ^ 31 < 2 ^ 63
    → IsBalanced id (step id s e)
unfolding step allow record_request usage limits_for
step-IsBalanced id s (begin now estimate) m v h = begin-IsBalanced id s now estimate v (omega arith)
step-IsBalanced id s (finish now k actual) m v h =
    finish-IsBalanced id s now k actual v (omega arith)
step-IsBalanced id s (ask now) m v h = record { limited = ground arith; balanced = ground arith }
step-IsBalanced id s (count now) m v h = record { limited = v.limited; balanced = v.balanced }
step-IsBalanced id s (look now) m v h = record { limited = v.limited; balanced = v.balanced }

sum-step-le :
    (id : String) (s : Session) (e : Event)
    → IsModest e
    → sum (step id s e).open_budgets ≤ sum s.open_budgets + 2 ^ 31
unfolding step begin_in finish_in
sum-step-le id s (begin now estimate) m = ground arith
sum-step-le id s (finish now k actual) m = elim (Option-cases (get_elem? s.open_budgets k)) [
  | inl e ↦ rw (e, finish_in) (omega arith)
  | inr (b, e) ↦ rw (e, finish_in) (omega (arith, sum-erase_idx s.open_budgets k e))
]
sum-step-le id s (ask now) m = omega arith
sum-step-le id s (count now) m = omega arith
sum-step-le id s (look now) m = omega arith

-- However requests of a limited server are begun, refused, finished in any order and observed,
-- what the tracker holds for it is the sum of the budgets of the requests that are open: nothing
-- leaks and nothing is released twice. (2^31 tokens a request, and fewer requests than would
-- leave int64.)
pub run_conserves :
    (id : String) (s : Session) (es : List Event)
    → is_pos (limits_for s.tracker id).0 ≡ true
    → held s.tracker id ≡ pos (sum s.open_budgets)
    → All IsModest es
    → sum s.open_budgets + 2 ^ 31 * length es < 2 ^ 63
    → held (run id s es).tracker id ≡ pos (sum (run id s es).open_budgets)
unfolding run
run_conserves id s [] l b m h = b
run_conserves id s (e ∷ es) l b (m, ms) h =
    let v : IsBalanced id s = record { limited = l; balanced = b } in
    let w = step-IsBalanced id s e m v (omega arith) in
    run_conserves id (step id s e) es w.limited w.balanced ms (omega (arith, sum-step-le id s e m))
