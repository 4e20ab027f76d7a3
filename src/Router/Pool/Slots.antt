-- ===== src/Router/Pool/Slots.antt =====
-- The slots of a round, and the members that they fall to.
use mathlib.Core.Option
use native.Mathlib.Nat.{mul-add-mod_self_right, mod-eq_of_lt}
use llm_api_router.Prelude.{
  ℕ, zero, suc, ◌+◌, ◌-◌, ◌*◌, ◌%◌, ◌^◌, ◌≤◌, ◌<◌, ◌≡◌, refl, ap, ◌∙◌, Option, none, some, List, [],
  ◌∷◌, arith, ltb, lt→ltb, ◌==◌, get_elem?, if◌then◌else◌, Bool-cases, inl, inr,
}
use llm_api_router.Router.Pool.{start_in, start_of, sum}

-- Whether a slot falls to the member at a place.
abbrev is_place : ℕ → Option ℕ → ℕ
is_place i none = 0
is_place i (some k) = if k == i then 1 else 0

abbrev turns : List ℕ → ℕ → ℕ → ℕ → ℕ
turns ws i from zero = 0
turns ws i from (suc n) = is_place i (start_in ws from) + turns ws i (from + 1) n

turns-append :
    (ws : List ℕ) (i from n m : ℕ)
    → turns ws i from (n + m) ≡ turns ws i from n + turns ws i (from + n) m
turns-append ws i from zero m =
    let e : 0 + m ≡ m = omega arith in
    let f : from + 0 ≡ from = omega arith in
    omega (arith, ap (λ k. turns ws i from k) e, ap (λ k. turns ws i k m) f)
turns-append ws i from (suc n) m =
    let e : suc n + m ≡ suc (n + m) = omega arith in
    let f : from + 1 + n ≡ from + suc n = omega arith in
    omega (
      arith,
      turns-append ws i (from + 1) n m,
      ap (λ k. turns ws i from k) e,
      ap (λ k. turns ws i k m) f,
    )

-- The first `w` slots are the first member's, and the others go on as without it.
turns-first : (w : ℕ) (ws : List ℕ) (from n : ℕ) → from + n ≤ w → turns (w ∷ ws) 0 from n ≡ n
unfolding start_in
turns-first w ws from zero h = refl
turns-first w ws from (suc n) h =
    ground (arith, h, turns-first w ws (from + 1) n (omega (arith, h)))

turns-not_first :
    (w : ℕ) (ws : List ℕ) (i from n : ℕ) → from + n ≤ w → turns (w ∷ ws) (suc i) from n ≡ 0
unfolding start_in
turns-not_first w ws i from zero h = refl
turns-not_first w ws i from (suc n) h =
    ground (arith, h, turns-not_first w ws i (from + 1) n (omega (arith, h)))

start_in-later :
    (w : ℕ) (ws : List ℕ) (s : ℕ) → start_in (w ∷ ws) (w + s) ≡ Option.map suc (start_in ws s)
unfolding start_in
start_in-later w ws s = ground (arith, ap (λ k. start_in ws k) back)
  where
    back : w + s - w ≡ s
    back = omega arith

is_place-suc : (i : ℕ) (o : Option ℕ) → is_place (suc i) (Option.map suc o) ≡ is_place i o
is_place-suc i none = refl
is_place-suc i (some k) = ground arith

is_place-suc_zero : (o : Option ℕ) → is_place 0 (Option.map suc o) ≡ 0
is_place-suc_zero none = refl
is_place-suc_zero (some k) = ground arith

some_inj : (v w : ℕ) → some v ≡ some w → v ≡ w
some_inj v w h = ground (arith, h)

turns-later_first : (w : ℕ) (ws : List ℕ) (s n : ℕ) → turns (w ∷ ws) 0 (w + s) n ≡ 0
turns-later_first w ws s zero = refl
turns-later_first w ws s (suc n) =
    let e : w + s + 1 ≡ w + (s + 1) = omega arith in
    let start = start_in-later w ws s in
    omega (
      arith,
      ap (is_place 0) start ∙ is_place-suc_zero (start_in ws s),
      ap (λ k. turns (w ∷ ws) 0 k n) e,
      turns-later_first w ws (s + 1) n,
    )

turns-later : (w : ℕ) (ws : List ℕ) (i s n : ℕ) → turns (w ∷ ws) (suc i) (w + s) n ≡ turns ws i s n
turns-later w ws i s zero = refl
turns-later w ws i s (suc n) =
    let e : w + s + 1 ≡ w + (s + 1) = omega arith in
    let start = start_in-later w ws s in
    omega (
      arith,
      ap (is_place (suc i)) start ∙ is_place-suc i (start_in ws s),
      ap (λ k. turns (w ∷ ws) (suc i) k n) e,
      turns-later w ws i (s + 1) n,
    )

-- Out of one round of slots, each member starts as many as its weight.
turns-round : (ws : List ℕ) (i w : ℕ) → get_elem? ws i ≡ some w → turns ws i 0 (sum ws) ≡ w
turns-round [] i w h = ground (arith, h)
turns-round (v ∷ ws) zero w h =
    let e : v + 0 ≡ 0 + v = omega arith in
    omega (
      arith,
      turns-append (v ∷ ws) 0 0 v (sum ws),
      turns-first v ws 0 v (omega arith),
      ap (λ k. turns (v ∷ ws) 0 k (sum ws)) e,
      turns-later_first v ws 0 (sum ws),
      some_inj v w h,
    )
turns-round (v ∷ ws) (suc i) w h =
    let e : v + 0 ≡ 0 + v = omega arith in
    omega (
      arith,
      turns-append (v ∷ ws) (suc i) 0 v (sum ws),
      turns-not_first v ws i 0 v (omega arith),
      ap (λ k. turns (v ∷ ws) (suc i) k (sum ws)) e,
      turns-later v ws i 0 (sum ws),
      turns-round ws i w h,
    )

-- How many of `n` requests in a row, from one value of the counter on, start at a member.
abbrev pub starts : List ℕ → ℕ → ℕ → ℕ → ℕ
starts ws i counter zero = 0
starts ws i counter (suc n) =
    (if start_of ws counter == i then 1 else 0) + starts ws i (counter + 1) n

start_in-some : (ws : List ℕ) (s : ℕ) → s < sum ws → (k : ℕ) × (start_in ws s ≡ some k)
unfolding start_in
start_in-some [] s h = ground (arith, h)
start_in-some (w ∷ ws) s h = elim (Bool-cases (ltb s w)) [
  | inl e ↦ rw e (0, refl)
  | inr e ↦ let (k, f) = start_in-some ws (s - w) (ground (arith, h, e)) in rw (e, f) (suc k, refl)
]

mod_of_round : (rounds m s : ℕ) → s < m → (rounds * m + s) % m ≡ s
mod_of_round rounds m s h = mul-add-mod_self_right rounds m s ∙ mod-eq_of_lt h

start_of-slot :
    (ws : List ℕ) (i rounds s : ℕ)
    → s < sum ws
    → rounds * sum ws + s < 2 ^ 63
    → (if start_of ws (rounds * sum ws + s) == i then 1 else 0) ≡ is_place i (start_in ws s)
unfolding start_of
start_of-slot ws i rounds s h k =
    let (j, e) = start_in-some ws s h in
    rw (start_of, mod_of_round rounds (sum ws) s h, e, lt→ltb _ _ k) refl

starts-turns :
    (ws : List ℕ) (i rounds s n : ℕ)
    → s + n ≤ sum ws
    → rounds * sum ws + s + n ≤ 2 ^ 63
    → starts ws i (rounds * sum ws + s) n ≡ turns ws i s n
starts-turns ws i rounds s zero h k = refl
starts-turns ws i rounds s (suc n) h k =
    let e : rounds * sum ws + s + 1 ≡ rounds * sum ws + (s + 1) = omega arith in
    omega (
      arith,
      start_of-slot ws i rounds s (omega (arith, h)) (omega (arith, k)),
      ap (λ c. starts ws i c n) e,
      starts-turns ws i rounds (s + 1) n (omega (arith, h)) (omega (arith, k)),
    )

pub starts-weight :
    (ws : List ℕ) (i w rounds : ℕ)
    → get_elem? ws i ≡ some w
    → rounds * sum ws + sum ws ≤ 2 ^ 63
    → starts ws i (rounds * sum ws) (sum ws) ≡ w
starts-weight ws i w rounds h k =
    let e : rounds * sum ws + 0 ≡ rounds * sum ws = omega arith in
    omega (
      arith,
      ap (λ c. starts ws i c (sum ws)) e,
      starts-turns ws i rounds 0 (sum ws) (omega arith) (omega (arith, k)),
      turns-round ws i w h,
    )
