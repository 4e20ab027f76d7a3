-- ===== src/Router/Pool/Ordering.antt =====
-- The order of a pool is a reordering of it, by priority or by load, and starts where it should.
use native.Mathlib.Nat.{mul-le-mul_right, le_of_mul-le-mul_right}
use mathlib.Core.List.{Perm, perm_append_comm}
use mathlib.Core.List.Perm
use llm_api_router.Prelude.{
  ℕ, ◌+◌, ◌*◌, ◌≤◌, ◌<◌, ℤ, String, ◌≡◌, refl, ap, subst, Bool, true, false, not, ◌&&◌, ◌||◌,
  is_zero, none, List, [], ◌∷◌, map, arith, ltb, leb_ℤ, take, drop, select, take-append-drop,
  Option-cases, inl, inr, pos_part, neg_part,
}
use llm_api_router.Prelude.Sort.{
  stable_sort, stable_sort-perm, Ordered, IsSorted-Ordered, IsOrder, stable_sort-IsSorted,
  select-stable_sort,
}
use llm_api_router.Domain.Server.{FallbackEntry, fallback_is_enabled}
use llm_api_router.Domain.Rule.{RoutingRule}
use llm_api_router.Router.State.{Router, ServerAttempt}
use llm_api_router.Router.Pool.{
  before, ordered_fallbacks, rotate, pinned_at, balance_rotation, Ranked, capacity, less_loaded,
  ranked, balance_least,
}

before-IsOrder : IsOrder before
unfolding before
before-IsOrder = record {
  asym = λ a b h. ground (arith, h);
  not_less_trans = λ a b c h k. ground (arith, h, k);
}

abbrev pub same_priority : ℤ → FallbackEntry → Bool
same_priority k f = leb_ℤ f.priority k && leb_ℤ k f.priority

same_priority-tie :
    (k : ℤ) (a b : FallbackEntry)
    → same_priority k a ≡ true
    → same_priority k b ≡ true
    → before a b ≡ false
unfolding before
same_priority-tie k a b h g = ground (arith, h, g)

-- `x` may stand before `y`: the lower number first, and 0, which is no priority, last.
abbrev pub InPriority : FallbackEntry → FallbackEntry → Type 0
InPriority x y =
    (is_zero y.priority || not (is_zero x.priority) && leb_ℤ x.priority y.priority) ≡ true

before-InPriority : (x y : FallbackEntry) → before y x ≡ false → InPriority x y
unfolding before
before-InPriority x y h = ground (arith, h)

-- The fallbacks that a rule tries are its enabled ones, by ascending priority and those without a
-- priority (0) last, and those of one priority in the order of the rule.
pub ordered_fallbacks-IsSorted :
    (rule : RoutingRule) (k : ℤ)
    → Perm (select fallback_is_enabled rule.fallbacks) (ordered_fallbacks rule)
      × Ordered InPriority (ordered_fallbacks rule)
      × (select (same_priority k) (ordered_fallbacks rule)
          ≡ select (same_priority k) (select fallback_is_enabled rule.fallbacks))
unfolding ordered_fallbacks
ordered_fallbacks-IsSorted rule k =
    let fbs = select fallback_is_enabled rule.fallbacks in
    (
      stable_sort-perm before fbs,
      IsSorted-Ordered before InPriority before-InPriority (ordered_fallbacks rule)
          (stable_sort-IsSorted before before-IsOrder fbs),
      select-stable_sort before (same_priority k) (same_priority-tie k) fbs,
    )

rotate-perm {ℓ} : {A : Type ℓ} (i : ℕ) (xs : List A) → Perm xs (rotate i xs)
rotate-perm i xs =
    subst (λ l. Perm l (rotate i xs)) (take-append-drop i xs)
      (perm_append_comm (take i xs) (drop i xs))

ranked-attempts :
    (r : Router) (as_ : List ServerAttempt) (ws : List ℤ)
    → map (λ x. x.attempt) (ranked r as_ ws) ≡ as_
unfolding ranked
ranked-attempts r [] ws = refl
ranked-attempts r (a ∷ as_) [] = ap (λ l. a ∷ l) (ranked-attempts r as_ [])
ranked-attempts r (a ∷ as_) (w ∷ ws) = ap (λ l. a ∷ l) (ranked-attempts r as_ ws)

-- Comparing quotients: a - b over c, written with the products multiplied out.
quotient_trans :
    (a b c a' b' c' a'' b'' c'' : ℕ)
    → a' * c + b * c' ≤ a * c' + b' * c
    → a'' * c' + b' * c'' ≤ a' * c'' + b'' * c'
    → 0 < c'
    → a'' * c + b * c'' ≤ a * c'' + b'' * c
quotient_trans a b c a' b' c' a'' b'' c'' h k p =
    let hc = mul-le-mul_right c'' h in
    let kc = mul-le-mul_right c k in le_of_mul-le-mul_right {k = c'} (omega (arith, hc, kc)) p

ltb-ge : (a b : ℕ) → ltb a b ≡ false → b ≤ a
ltb-ge a b h = ground (arith, h)

ge-ltb : (a b : ℕ) → b ≤ a → ltb a b ≡ false
ge-ltb a b h = ground (arith, h)

less_loaded-IsOrder : IsOrder less_loaded
unfolding less_loaded
less_loaded-IsOrder = record {
  asym = λ a b h. ground (arith, h);
  not_less_trans = λ a b c h k. ge-ltb _ _ (
      quotient_trans (pos_part c.open_requests) (neg_part c.open_requests) (capacity c)
        (pos_part b.open_requests) (neg_part b.open_requests) (capacity b)
        (pos_part a.open_requests) (neg_part a.open_requests) (capacity a) (ltb-ge _ _ k)
        (ltb-ge _ _ h) (omega arith));
}

-- Neither balance mode loses a member or tries one twice.
pub balance-perm :
    (r : Router) (as_ : List ServerAttempt) (ws : List ℕ) (vs : List ℤ) (pinned : String)
    → Perm as_ (balance_rotation r as_ ws pinned).1 × Perm as_ (balance_least r as_ vs pinned)
unfolding balance_rotation balance_least
balance-perm r as_ ws vs pinned = elim (Option-cases (pinned_at as_ pinned)) [
  | inr (i, e) ↦ rw (balance_rotation, balance_least, e) (rotate-perm i as_, rotate-perm i as_)
  | inl e ↦
      rw (balance_rotation, balance_least, e)
        (
          rotate-perm _ as_,
          subst (λ l. Perm l (map (λ x. x.attempt) (stable_sort less_loaded (ranked r as_ vs))))
              (ranked-attempts r as_ vs)
              (Perm.map (λ x. x.attempt) (stable_sort-perm less_loaded (ranked r as_ vs))),
        )
]

-- The open requests of `x` per capacity are at most those of `y`: the products across, with the
-- negative parts on the other side.
abbrev pub AtMostLoaded : Ranked → Ranked → Type 0
AtMostLoaded x y =
    pos_part x.open_requests * capacity y + neg_part y.open_requests * capacity x
    ≤ pos_part y.open_requests * capacity x + neg_part x.open_requests * capacity y

less_loaded-AtMostLoaded : (x y : Ranked) → less_loaded y x ≡ false → AtMostLoaded x y
unfolding less_loaded
less_loaded-AtMostLoaded x y h = ltb-ge _ _ h

-- A pool that balances by load is tried in ascending order of open requests per capacity, unless
-- the conversation is pinned to a member of it.
pub balance_least-IsSorted :
    (r : Router) (as_ : List ServerAttempt) (ws : List ℤ) (pinned : String)
    → pinned_at as_ pinned ≡ none
    → (ranks : List Ranked) × Perm (ranked r as_ ws) ranks
      × Ordered AtMostLoaded ranks
      × (balance_least r as_ ws pinned ≡ map (λ x. x.attempt) ranks)
unfolding balance_least
balance_least-IsSorted r as_ ws pinned h =
    let xs = ranked r as_ ws in
    (
      stable_sort less_loaded xs,
      stable_sort-perm less_loaded xs,
      IsSorted-Ordered less_loaded AtMostLoaded less_loaded-AtMostLoaded
          (stable_sort less_loaded xs) (stable_sort-IsSorted less_loaded less_loaded-IsOrder xs),
      rw (balance_least, h) refl,
    )
