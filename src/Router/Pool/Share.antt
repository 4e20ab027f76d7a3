-- ===== src/Router/Pool/Share.antt =====
-- The rotation deals the starts of a pool by its weights.

use native.Mathlib.Nat.{mod-eq_of_lt}
use llm_api_router.Prelude.{
  ℕ, zero, suc, ◌+◌, ◌-◌, ◌*◌, ◌%◌, ◌^◌, ◌≤◌, ◌<◌, ◌≡◌, refl, ap, ◌∙◌, Option, none, some, List, [],
  ◌∷◌, arith, ◌==◌, get_elem?, String, Bool, false, ◌++◌, map, str_eq, lookup, lookup-insert_self,
  insert, length, take, drop, Option-cases, if◌then◌else◌, inl, inr,
}
use llm_api_router.Router.State.{Router, ServerAttempt}
use llm_api_router.Router.Pool.{
  start_in, start_of, sum, rotate, pool_key, pinned_at, load_counter, bump_counter,
  balance_rotation,
}
use llm_api_router.Router.Pool.Slots.{starts, starts-weight}

abbrev first_is : String → List ServerAttempt → Bool
first_is id [] = false
first_is id (a ∷ _) = str_eq a.server.id id

-- How many of `n` requests in a row, none of which is pinned, are tried at a server first.
abbrev pub firsts : String → Router → List ServerAttempt → List ℕ → ℕ → ℕ
firsts id r as_ ws zero = 0
firsts id r as_ ws (suc n) =
    let (r1, order) = balance_rotation r as_ ws "" in
    (if first_is id order then 1 else 0) + firsts id r1 as_ ws n

abbrev pub key_of : List ServerAttempt → String
key_of as_ = pool_key (map (λ a. a.server.id) as_)

lookup-bump_counter :
    (r : Router) (key : String) (c : ℕ)
    → lookup key r.rotations ≡ some c
    → c < 2 ^ 63
    → lookup key (bump_counter r key c).rotations ≡ some (c + 1)
unfolding bump_counter
lookup-bump_counter r key c h k =
    let room : (c + 1) % 2 ^ 64 ≡ c + 1 = mod-eq_of_lt (omega (arith, k)) in
    let stored = lookup-insert_self key ((c + 1) % 2 ^ 64) r.rotations in
    let bumped : Router = record r { rotations = insert key ((c + 1) % 2 ^ 64) r.rotations } in
    let there : bump_counter r key c ≡ bumped = rw (bump_counter, h) refl in
    ap (λ (x : Router). lookup key x.rotations) there ∙ stored ∙ ap some room

balance_rotation-counter :
    (r : Router) (as_ : List ServerAttempt) (ws : List ℕ) (c : ℕ)
    → lookup (key_of as_) r.rotations ≡ some c
    → c < 2 ^ 63
    → ((balance_rotation r as_ ws "").1 ≡ rotate (start_of ws c) as_)
      × (lookup (key_of as_) (balance_rotation r as_ ws "").0.rotations ≡ some (c + 1))
unfolding balance_rotation load_counter pinned_at
balance_rotation-counter r as_ ws c h k = (
  rw (balance_rotation, load_counter, h) refl,
  rw (balance_rotation, load_counter, h) (lookup-bump_counter r (key_of as_) c h k),
)

first_is-drop :
    (id : String) (as_ bs : List ServerAttempt) (k : ℕ) (b : ServerAttempt)
    → get_elem? as_ k ≡ some b
    → first_is id (drop k as_ ++ bs) ≡ str_eq b.server.id id
first_is-drop id [] bs k b h = ground (arith, h)
first_is-drop id (a ∷ as_) bs zero b h =
    ap (λ (o : Option ServerAttempt). elim o [ none ↦ false | some x ↦ str_eq x.server.id id ]) h
first_is-drop id (a ∷ as_) bs (suc k) b h = first_is-drop id as_ bs k b h

get_elem?-lt :
    (as_ : List ServerAttempt) (k : ℕ)
    → k < length as_
    → (b : ServerAttempt) × (get_elem? as_ k ≡ some b)
get_elem?-lt [] k h = ground (arith, h)
get_elem?-lt (a ∷ as_) zero h = (a, refl)
get_elem?-lt (a ∷ as_) (suc k) h = get_elem?-lt as_ k (omega (arith, h))

start_in-lt : (ws : List ℕ) (s k : ℕ) → start_in ws s ≡ some k → k < length ws
unfolding start_in
start_in-lt [] s k h = ground (arith, h)
start_in-lt (w ∷ ws) s k h = elim (Option-cases (start_in ws (s - w))) [
  | inl e ↦ ground (arith, h, e)
  | inr (j, e) ↦ let later = start_in-lt ws (s - w) j e in ground (arith, h, e, later)
]

start_of-lt : (ws : List ℕ) (c : ℕ) → 0 < length ws → start_of ws c < length ws
unfolding start_of
start_of-lt ws c h = elim (Option-cases (start_in ws (c % sum ws))) [
  | inl e ↦ ground (arith, h, e)
  | inr (k, e) ↦ let below = start_in-lt ws (c % sum ws) k e in ground (arith, h, e, below)
]

-- The server of a place is at no other.
abbrev pub OnlyAt : ℕ → ServerAttempt → List ServerAttempt → Type 0
OnlyAt i a as_ =
    (k : ℕ) (b : ServerAttempt)
    → get_elem? as_ k ≡ some b
    → str_eq b.server.id a.server.id ≡ (k == i)

firsts-starts :
    (as_ : List ServerAttempt) (ws : List ℕ) (i : ℕ) (a : ServerAttempt)
    → length ws ≡ length as_
    → 0 < length as_
    → OnlyAt i a as_
    → (r : Router) (c n : ℕ) → lookup (key_of as_) r.rotations ≡ some c
    → c + n ≤ 2 ^ 63
    → firsts a.server.id r as_ ws n ≡ starts ws i c n
firsts-starts as_ ws i a same some_member only r c zero h k = refl
firsts-starts as_ ws i a same some_member only r c (suc n) h k =
    let (order, counted) = balance_rotation-counter r as_ ws c h (omega (arith, k)) in
    let s = start_of ws c in
    let (b, at) =
      get_elem?-lt as_ s
        (omega (arith, start_of-lt ws c (omega (arith, same, some_member)), same)) in
    let hit : first_is a.server.id (balance_rotation r as_ ws "").1 ≡ (s == i) =
      ap (first_is a.server.id) order
      ∙ first_is-drop a.server.id as_ (take s as_) s b at
      ∙ only s b at in
    let later =
      firsts-starts as_ ws i a same some_member only (balance_rotation r as_ ws "").0 (c + 1) n
        counted (omega (arith, k)) in
    let once : Bool → ℕ = λ b. if b then 1 else 0 in omega (arith, ap once hit, later)

-- In every round of as many requests as the weights add up to, none of them pinned, the rotation
-- of a pool that is counted tries exactly as many requests at a member first as its weight says,
-- until the counter passes 2^63. (The round begins at a multiple of the sum; each member has a
-- weight and a server of its own.)
pub starts-round :
    (r : Router) (as_ : List ServerAttempt) (ws : List ℕ) (i : ℕ) (a : ServerAttempt) (w rounds : ℕ)
    → lookup (key_of as_) r.rotations ≡ some (rounds * sum ws)
    → length ws ≡ length as_
    → 0 < length as_
    → OnlyAt i a as_
    → get_elem? ws i ≡ some w
    → rounds * sum ws + sum ws ≤ 2 ^ 63
    → firsts a.server.id r as_ ws (sum ws) ≡ w
starts-round r as_ ws i a w rounds counted same some_member only weight h =
    firsts-starts as_ ws i a same some_member only r (rounds * sum ws) (sum ws) counted h
    ∙ starts-weight ws i w rounds weight h
