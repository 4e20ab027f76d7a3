-- ===== src/Router/Pool.antt =====
-- router/router.go: the order in which the members of a rule's pool are tried.
pub mod Ordering
pub mod Share
pub mod Slots
use Prim.Native.String.{◌++◌ as append}
use mathlib.Core.Option
use llm_api_router.Prelude.{
  ℕ, zero, suc, ◌+◌, ◌-◌, ◌*◌, ◌%◌, ◌^◌, ℤ, pos, negsuc, String, Bool, true, false, not, ◌&&◌, ◌||◌,
  Option, none, some, List, [], ◌∷◌, ◌++◌, map, ltb, ltb_ℤ, is_zero, is_empty, is_some, str_eq,
  length, take, drop, select, find_idx?, get_elem?, any, lookup, insert, retain, if◌then◌else◌, max,
  pos_part, neg_part,
}
use llm_api_router.Prelude.Sort.{stable_sort}
use llm_api_router.Domain.Server.{FallbackEntry, fallback_is_enabled}
use llm_api_router.Domain.Rule.{RoutingRule, balances}
use llm_api_router.Config.Store.{get_rules}
use llm_api_router.Router.State.{Router, ServerAttempt, inflight_count}

-- 0 is no priority, and stands after every other number.
unfoldable pub before : FallbackEntry → FallbackEntry → Bool
before x y =
    if not (ltb_ℤ x.priority y.priority) && not (ltb_ℤ y.priority x.priority)
    then false
    else if is_zero x.priority
    then false
    else if is_zero y.priority
    then true
    else ltb_ℤ x.priority y.priority

unfoldable pub ordered_fallbacks : RoutingRule → List FallbackEntry
ordered_fallbacks rule = stable_sort before (select fallback_is_enabled rule.fallbacks)

unfoldable pub fallback_ids : RoutingRule → List String
fallback_ids rule = map (λ fb. fb.server_id) (ordered_fallbacks rule)

-- `strings.Join(ids, ",")`.
unfoldable pub pool_key : List String → String
pool_key [] = ""
pool_key (x ∷ []) = x
pool_key (x ∷ y ∷ ys) = let rest = pool_key (y ∷ ys) in append x (append "," rest)

abbrev rotation_sweep_at : ℕ
rotation_sweep_at = 256

-- The keys of the pools that the active profile can build.
unfoldable pub live_pools : List RoutingRule → List String
live_pools [] = []
live_pools (r ∷ rs) =
    let rest = live_pools rs in
    let ids = r.server_id ∷ fallback_ids r in
    if not r.enabled || not (balances r.balance) || is_empty r.server_id
    then rest
    else if ltb 1 (length ids)
    then pool_key ids ∷ rest
    else rest

abbrev distinct : List String → List String
distinct [] = []
distinct (x ∷ xs) = let rest = distinct xs in if any (str_eq x) rest then rest else x ∷ rest

unfoldable pub live_keys : Router → List String
live_keys r = elim (get_rules r.store "") [ none ↦ [] | some rules ↦ live_pools rules ]

unfoldable pub sweep_rotations : Router → Router
sweep_rotations r =
    let live = live_keys r in
    record r {
      rotations = retain (λ k _. any (str_eq k) live) r.rotations;
      rotation_keys = length (distinct live);
    }

-- The list, starting at a place.
abbrev pub rotate {ℓ} : {A : Type ℓ} → ℕ → List A → List A
rotate i xs = drop i xs ++ take i xs

unfoldable pub pinned_at : List ServerAttempt → String → Option ℕ
pinned_at attempts pinned =
    if is_empty pinned then none else find_idx? (λ a. str_eq a.server.id pinned) attempts

-- The member that a slot falls to, if the weights reach that far.
unfoldable pub start_in : List ℕ → ℕ → Option ℕ
start_in [] slot = none
start_in (w ∷ ws) slot =
    let rest = start_in ws (slot - w) in if ltb slot w then some 0 else Option.map suc rest

abbrev pub sum : List ℕ → ℕ
sum [] = 0
sum (w ∷ ws) = w + sum ws

-- The counter is a uint64, read as an int: past 2^63 it is negative, its remainder is at most 0,
-- and that stands before every weight, so the first member starts.
unfoldable pub start_of : List ℕ → ℕ → ℕ
unfolding start_in
start_of weights counter =
    if ltb counter (2 ^ 63)
    then elim (start_in weights (counter % sum weights)) [ none ↦ 0 | some i ↦ i ]
    else 0

-- `LoadOrStore` of the pool's counter, with the sweep that a new pool may cause; the counter is
-- its value before.
unfoldable pub load_counter : Router → String → Router × ℕ
load_counter r key = elim (lookup key r.rotations) [
  | some counter ↦ (r, counter)
  | none ↦
      let r1 = record r {
        rotations = insert key 0 r.rotations;
        rotation_keys = r.rotation_keys + 1;
      } in
      (if ltb rotation_sweep_at r1.rotation_keys then sweep_rotations r1 else r1, 0)
]

-- A counter that the sweep dropped is counted on where nobody finds it again.
unfoldable pub bump_counter : Router → String → ℕ → Router
bump_counter r key counter =
    if is_some (lookup key r.rotations)
    then record r { rotations = insert key ((counter + 1) % 2 ^ 64) r.rotations }
    else r

-- The weights stand at the places of the attempts; their sum is taken to fit an int.
unfoldable pub balance_rotation :
    Router → List ServerAttempt → List ℕ → String → Router × List ServerAttempt
balance_rotation r attempts weights pinned =
    let key = pool_key (map (λ a. a.server.id) attempts) in
    let (r1, counter) = load_counter r key in
    elim (pinned_at attempts pinned) [
      | some i ↦ (r1, rotate i attempts)
      | none ↦ (bump_counter r1 key counter, rotate (start_of weights counter) attempts)
    ]

-- A member with what it is ranked by: its open requests, and its weight, 0 where it has none.
pub record Ranked : Type 0 where
  pub attempt : ServerAttempt
  pub open_requests : ℤ
  pub weight : ℤ

abbrev pub capacity : Ranked → ℕ
capacity x = max (pos_part x.weight) 1

-- The quotients of open requests by capacity are float64 in the source; here they are compared
-- exactly, a / b < c / d being a * d < c * b, which is the same for counts below 2^31 and
-- capacities below 2^21.
unfoldable pub less_loaded : Ranked → Ranked → Bool
less_loaded x y =
    ltb (pos_part x.open_requests * capacity y + neg_part y.open_requests * capacity x)
      (pos_part y.open_requests * capacity x + neg_part x.open_requests * capacity y)

unfoldable pub ranked : Router → List ServerAttempt → List ℤ → List Ranked
ranked r [] ws = []
ranked r (a ∷ as_) [] =
    record { attempt = a; open_requests = inflight_count r a.server.id; weight = pos 0 }
    ∷ ranked r as_ []
ranked r (a ∷ as_) (w ∷ ws) =
    record { attempt = a; open_requests = inflight_count r a.server.id; weight = w }
    ∷ ranked r as_ ws

unfoldable pub balance_least : Router → List ServerAttempt → List ℤ → String → List ServerAttempt
balance_least r attempts weights pinned = elim (pinned_at attempts pinned) [
  | some i ↦ rotate i attempts
  | none ↦ map (λ x. x.attempt) (stable_sort less_loaded (ranked r attempts weights))
]
