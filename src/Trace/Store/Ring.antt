-- ===== src/Trace/Store/Ring.antt =====
-- The ring holds the last entries, in the order in which they were added.
use llm_api_router.Prelude.{
  ℕ, zero, suc, ◌+◌, ◌-◌, ◌%◌, ◌≤◌, ◌<◌, ◌≡◌, refl, sym, ap, ◌∙◌, true, false, List, [], ◌∷◌, ◌++◌,
  arith, ltb, length, set, take, drop, length-set, length-replicate, length-append, length-take,
  length-drop, if◌then◌else◌, Bool-cases, ◌⊎◌, inl, inr, ltb→lt, lt→ltb,
}
use mathlib.Core.List.{append-nil, append_assoc}
use native.Mathlib.Nat.{mod-eq_of_lt, mod-lt, mod_self}
use llm_api_router.Domain.Settings.{TraceSettings}
use llm_api_router.Trace.Store.{Store, new_store, add, list}

-- The slots fill from the first on, and then the oldest is the next to go.
pub record IsRing {ℓ} {E : Type ℓ} (s : Store E) : Type ℓ where
  pub has_room : 0 < s.max
  pub slots : length s.entries ≡ s.max
  pub next_slot : s.ring_idx < s.max
  pub filled : s.count ≤ s.max
  pub fills_up : (s.max ≤ s.count) ⊎ (s.ring_idx ≡ s.count)

module _ {ℓ} {E : Type ℓ} where
  take-set :
      (xs : List E) (i : ℕ) (e : E)
      → i < length xs
      → take (suc i) (set xs i e) ≡ take i xs ++ e ∷ []
  take-set [] i e h = ground (arith, h)
  take-set (x ∷ xs) zero e h = refl
  take-set (x ∷ xs) (suc i) e h = ap (λ l. x ∷ l) (take-set xs i e (omega (arith, h)))

  take-set_before : (xs : List E) (i : ℕ) (e : E) → take i (set xs i e) ≡ take i xs
  take-set_before [] i e = refl
  take-set_before (x ∷ xs) zero e = refl
  take-set_before (x ∷ xs) (suc i) e = ap (λ l. x ∷ l) (take-set_before xs i e)

  drop-set : (xs : List E) (i : ℕ) (e : E) → drop (suc i) (set xs i e) ≡ drop (suc i) xs
  drop-set [] i e = refl
  drop-set (x ∷ xs) zero e = refl
  drop-set (x ∷ xs) (suc i) e = drop-set xs i e

  drop-one :
      (xs ys : List E) (i : ℕ) → i < length xs → drop 1 (drop i xs ++ ys) ≡ drop (suc i) xs ++ ys
  drop-one [] ys i h = ground (arith, h)
  drop-one (x ∷ xs) ys zero h = refl
  drop-one (x ∷ xs) ys (suc i) h = drop-one xs ys i (omega (arith, h))

  drop-all : (xs : List E) (i : ℕ) → length xs ≤ i → drop i xs ≡ []
  drop-all [] zero h = refl
  drop-all [] (suc i) h = refl
  drop-all (x ∷ xs) zero h = ground (arith, h)
  drop-all (x ∷ xs) (suc i) h = drop-all xs i (omega (arith, h))

  take-all : (xs : List E) (i : ℕ) → length xs ≤ i → take i xs ≡ xs
  take-all [] zero h = refl
  take-all [] (suc i) h = refl
  take-all (x ∷ xs) zero h = ground (arith, h)
  take-all (x ∷ xs) (suc i) h = ap (λ l. x ∷ l) (take-all xs i (omega (arith, h)))

ltb_self : (n : ℕ) → ltb n n ≡ false
ltb_self n = ground arith

next_idx : (i m : ℕ) → i < m → (suc i < m) × ((i + 1) % m ≡ suc i) ⊎ (suc i ≡ m) × ((i + 1) % m ≡ 0)
next_idx i m h = elim (Bool-cases (ltb (suc i) m)) [
  | inl e ↦ inl (ltb→lt _ _ e, mod-eq_of_lt (omega (arith, ltb→lt _ _ e)) ∙ omega arith)
  | inr e ↦
      let f : i + 1 ≡ m = ground (arith, h, e) in
      inr (omega (arith, f), ap (λ k. k % m) f ∙ mod_self m)
]

module _ {ℓ} {E : Type ℓ} where
  -- A write at `i`, read from the place after it around to `i`.
  rotate-set :
      (xs : List E) (i m : ℕ) (e : E)
      → length xs ≡ m
      → i < m
      → drop ((i + 1) % m) (set xs i e) ++ take ((i + 1) % m) (set xs i e)
        ≡ drop (suc i) xs ++ (take i xs ++ e ∷ [])
  rotate-set xs i m e l h = elim (next_idx i m h) [
    | inl (_, j) ↦ rw (j, drop-set xs i e, take-set xs i e (omega (arith, h, l))) refl
    | inr (full, j) ↦
        let whole = take-all (set xs i e) (suc i) (omega (arith, length-set xs i e, l, full)) in
        rw (j, append-nil (set xs i e), drop-all xs (suc i) (omega (arith, l, full)))
          (sym whole ∙ take-set xs i e (omega (arith, h, l)))
  ]

  list-room : (s : Store E) → ltb s.count s.max ≡ true → list s ≡ take s.count s.entries
  unfolding list
  list-room s h = rw h refl

  list-full :
      (s : Store E)
      → ltb s.count s.max ≡ false
      → list s ≡ drop s.ring_idx s.entries ++ take s.ring_idx s.entries
  unfolding list
  list-full s h = rw h refl

  count-add :
      (s : Store E) (e : E) → (add s e).count ≡ (if ltb s.count s.max then suc s.count else s.count)
  unfolding add
  count-add s e = ground arith

  -- The full ring after a write.
  add-full :
      (s : Store E) (e : E)
      → IsRing s
      → ltb (add s e).count s.max ≡ false
      → list (add s e) ≡ drop (suc s.ring_idx) s.entries ++ (take s.ring_idx s.entries ++ e ∷ [])
  unfolding add
  add-full s e v h =
      list-full (add s e) h ∙ rotate-set s.entries s.ring_idx s.max e v.slots v.next_slot

  added :
      (s : Store E) (e : E)
      → IsRing s
      → s.ring_idx ≡ s.count
      → (add s e).count ≡ suc s.count
      → take (add s e).count (add s e).entries ≡ take s.count s.entries ++ e ∷ []
  unfolding add
  added s e v at count =
      ap (λ n. take n (add s e).entries) (count ∙ ap suc (sym at))
      ∙ take-set s.entries s.ring_idx e (omega (arith, v.slots, v.next_slot))
      ∙ ap (λ n. take n s.entries ++ e ∷ []) at

  max-add : (s : Store E) (e : E) → (add s e).max ≡ s.max
  unfolding add
  max-add s e = refl

  add-grows :
      (s : Store E) (e : E)
      → IsRing s
      → s.count < s.max
      → (list (add s e) ≡ list s ++ e ∷ []) × (length (list s) ≡ s.count)
  add-grows s e v h =
      let at : s.ring_idx ≡ s.count = ground (arith, h, v.fills_up) in
      let room = list-room s (lt→ltb s.count s.max h) in
      let count : (add s e).count ≡ suc s.count = ground (arith, count-add s e, h) in
      let size : length (take s.count s.entries) ≡ s.count =
        omega (arith, length-take s.count s.entries, v.slots, h) in
      (
        elim (Bool-cases (ltb (suc s.count) s.max)) [
          | inl f ↦
              list-room (add s e) (rw (count, max-add s e) f)
              ∙ added s e v at count
              ∙ ap (λ l. l ++ e ∷ []) (sym room)
          | inr f ↦
              let none_left =
                drop-all s.entries (suc s.ring_idx) (ground (arith, v.slots, at, f)) in
              add-full s e v (rw count f)
              ∙ ap (λ l. l ++ (take s.ring_idx s.entries ++ e ∷ [])) none_left
              ∙ ap (λ n. take n s.entries ++ e ∷ []) at
              ∙ ap (λ l. l ++ e ∷ []) (sym room)
        ],
        rw room size,
      )

  add-replaces :
      (s : Store E) (e : E)
      → IsRing s
      → s.max ≤ s.count
      → (list (add s e) ≡ drop 1 (list s) ++ e ∷ []) × (length (list s) ≡ s.max)
  add-replaces s e v h =
      let full : ltb s.count s.max ≡ false = ground (arith, h) in
      let count : (add s e).count ≡ s.count = ground (arith, count-add s e, full) in
      let one =
        drop-one s.entries (take s.ring_idx s.entries) s.ring_idx
          (omega (arith, v.slots, v.next_slot)) in
      let old = list-full s full in
      (
        add-full s e v (rw count full)
            ∙ sym (
                append_assoc (drop (suc s.ring_idx) s.entries) (take s.ring_idx s.entries) (e ∷ []))
            ∙ rw (old, one) refl,
        rw old (
            omega (
              arith,
              length-append (drop s.ring_idx s.entries) (take s.ring_idx s.entries),
              length-take s.ring_idx s.entries,
              length-drop s.ring_idx s.entries,
              v.slots,
              v.next_slot,
            )),
      )

  add-IsRing : (s : Store E) (e : E) → IsRing s → IsRing (add s e)
  unfolding add
  add-IsRing s e v = record {
    has_room = v.has_room;
    slots = length-set s.entries s.ring_idx e ∙ v.slots;
    next_slot = mod-lt (s.ring_idx + 1) v.has_room;
    filled = ground (arith, v.filled);
    fills_up = ground (arith, v.filled, v.fills_up, next_idx s.ring_idx s.max v.next_slot);
  }

  -- In a ring, adding an entry puts it behind the listed ones, the oldest of which goes if the ring
  -- is full; and what was a ring stays one.
  pub list-add :
      (s : Store E) (e : E)
      → IsRing s
      → IsRing (add s e)
        × (list (add s e)
            ≡ (if ltb (length (list s)) s.max then list s else drop 1 (list s)) ++ e ∷ [])
  list-add s e v = (
    add-IsRing s e v,
    elim (Bool-cases (ltb s.count s.max)) [
      | inl h ↦ let (step, size) = add-grows s e v (ltb→lt _ _ h) in rw (size, h) step
      | inr h ↦
          let (step, size) = add-replaces s e v (ground (arith, h)) in
          rw (size, ltb_self s.max) step
    ],
  )

  abbrev pub adds : Store E → List E → Store E
  adds s [] = s
  adds s (e ∷ es) = adds (add s e) es

  new_store-IsRing :
      (zero_entry : E) (now max : ℕ) (st : TraceSettings)
      → 0 < max
      → IsRing (new_store zero_entry now max st)
  unfolding new_store
  new_store-IsRing zero_entry now max st h = record {
    has_room = h;
    slots = length-replicate max zero_entry;
    next_slot = h;
    filled = omega arith;
    fills_up = inr refl;
  }

  drop-append : (n : ℕ) (xs ys : List E) → n ≤ length xs → drop n (xs ++ ys) ≡ drop n xs ++ ys
  drop-append zero xs ys h = refl
  drop-append (suc n) [] ys h = ground (arith, h)
  drop-append (suc n) (x ∷ xs) ys h = drop-append n xs ys (omega (arith, h))

  drop-suc : (n : ℕ) (xs : List E) → drop 1 (drop n xs) ≡ drop (suc n) xs
  drop-suc zero xs = refl
  drop-suc (suc n) [] = refl
  drop-suc (suc n) (x ∷ xs) = drop-suc n xs

  -- The last `m` of a list.
  abbrev pub last_of : ℕ → List E → List E
  last_of m xs = drop (length xs - m) xs

  last_of-push :
      (m : ℕ) (xs : List E) (e : E)
      → 0 < m
      → last_of m (xs ++ e ∷ [])
        ≡ (if ltb (length (last_of m xs)) m then last_of m xs else drop 1 (last_of m xs)) ++ e ∷ []
  last_of-push m xs e h =
      let size = length-drop (length xs - m) xs in
      let grown = length-append xs (e ∷ []) in
      elim (Bool-cases (ltb (length xs) m)) [
        | inl f ↦
            let all_ : length xs - m ≡ 0 = ground (arith, f) in
            let all' : length (xs ++ e ∷ []) - m ≡ 0 = ground (arith, f, grown) in
            let few : ltb (length (last_of m xs)) m ≡ true = ground (arith, f, size) in
            rw few (ap (λ n. drop n (xs ++ e ∷ [])) all' ∙ ap (λ n. drop n xs ++ e ∷ []) (sym all_))
        | inr f ↦
            let next : length (xs ++ e ∷ []) - m ≡ suc (length xs - m) = ground (arith, f, grown) in
            let many : ltb (length (last_of m xs)) m ≡ false = ground (arith, f, size) in
            rw many (
              ap (λ n. drop n (xs ++ e ∷ [])) next
              ∙ drop-append (suc (length xs - m)) xs (e ∷ []) (ground (arith, f, h))
              ∙ ap (λ l. l ++ e ∷ []) (sym (drop-suc (length xs - m) xs)))
      ]

  adds-last :
      (s : Store E) (es old : List E)
      → IsRing s
      → list s ≡ last_of s.max old
      → list (adds s es) ≡ last_of s.max (old ++ es)
  adds-last s [] old v h = h ∙ ap (last_of s.max) (sym (append-nil old))
  adds-last s (e ∷ es) old v h =
      let (ring, step) = list-add s e v in
      let push : List E → List E = λ l. (if ltb (length l) s.max then l else drop 1 l) ++ e ∷ [] in
      let pushed =
        step
        ∙ ap push h
        ∙ sym (last_of-push s.max old e v.has_room)
        ∙ ap (λ m. last_of m (old ++ e ∷ [])) (sym (max-add s e)) in
      adds-last (add s e) es (old ++ e ∷ []) ring pushed
      ∙ ap (last_of (add s e).max) (append_assoc old (e ∷ []) es)
      ∙ ap (λ m. last_of m (old ++ e ∷ es)) (max-add s e)

  drop-nil : (n : ℕ) → drop {A = E} n [] ≡ []
  drop-nil zero = refl
  drop-nil (suc n) = refl

  -- A store with room for `max` entries, at least one, lists the last `max` of the entries
  -- added to it, in the order in which they were added.
  pub list-adds :
      (zero_entry : E) (now max : ℕ) (st : TraceSettings) (es : List E)
      → 0 < max
      → list (adds (new_store zero_entry now max st) es) ≡ last_of max es
  unfolding new_store
  list-adds zero_entry now max st es h =
      adds-last (new_store zero_entry now max st) es [] (new_store-IsRing zero_entry now max st h)
        (list-room (new_store zero_entry now max st) (lt→ltb 0 max h) ∙ sym (drop-nil (0 - max)))
