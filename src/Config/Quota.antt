-- ===== src/Config/Quota.antt =====
-- config/quota.go: the tokens and requests of the last minute per server, and the output budgets
-- held in flight.
--
-- Token counts are int64 and wrap (`add64`, `sub64`). Each method takes the reading of
-- `time.Now()` that it makes; `at.After(cutoff)` with `cutoff = now - 60 s` is `now < at + 60 s`.
-- The nil receiver is the `none` of the caller's option.
pub mod Admission
pub mod Conservation
pub mod Observation
mod Tests
use llm_api_router.Prelude.{
  ℕ, ◌+◌, ◌*◌, ℤ, pos, String, Bool, true, false, not, ◌&&◌, ◌||◌, Option, none, some, List, [],
  ◌∷◌, ◌++◌, ltb, leb_ℤ, ltb_ℤ, is_pos, add64, sub64, length, select, if◌then◌else◌, insert, lookup,
  lookup_or, drop,
}
use llm_api_router.Prelude.Dict.{Assoc}

pub record TokenEvent : Type 0 where
  pub at : ℕ
  pub tokens : ℤ

-- `limits` gives tokens and requests per minute, 0 for unlimited; `none` is no lookup installed.
pub record QuotaTracker : Type 0 where
  pub tokens : Assoc (List TokenEvent)
  pub requests : Assoc (List ℕ)
  pub reserved : Assoc ℤ
  pub limits : Option (String → ℤ × ℤ)

unfoldable pub new_quota_tracker : QuotaTracker
new_quota_tracker = record { tokens = []; requests = []; reserved = []; limits = none }

-- 60 seconds in nanoseconds.
abbrev pub window_60s : ℕ
window_60s = 60 * 1_000_000_000

unfoldable pub limits_for : QuotaTracker → String → ℤ × ℤ
limits_for q id = elim q.limits [ none ↦ (pos 0, pos 0) | some f ↦ f id ]

unfoldable pub prune_events : ℕ → List TokenEvent → List TokenEvent
prune_events now = select λ e. ltb now (e.at + window_60s)

unfoldable pub prune_times : ℕ → List ℕ → List ℕ
prune_times now = select λ t. ltb now (t + window_60s)

-- `for _, e := range evs { used += e.tokens }`.
unfoldable pub sum_tokens : ℤ → List TokenEvent → ℤ
sum_tokens used [] = used
sum_tokens used (e ∷ evs) = sum_tokens (add64 used e.tokens) evs

abbrev pub events : QuotaTracker → ℕ → String → List TokenEvent
events q now id = prune_events now (lookup_or id [] q.tokens)

abbrev pub times : QuotaTracker → ℕ → String → List ℕ
times q now id = prune_times now (lookup_or id [] q.requests)

-- The tokens of the last minute, and what is held for requests in flight.
unfoldable pub used_tokens : QuotaTracker → ℕ → String → ℤ
used_tokens q now id = sum_tokens (pos 0) (events q now id)

abbrev pub held : QuotaTracker → String → ℤ
held q id = lookup_or id (pos 0) q.reserved

-- Pruning is written back, so `Allow` changes the state.
unfoldable pub allow : QuotaTracker → ℕ → String → QuotaTracker × Bool
allow q now id =
    let (tpm, rpm) = limits_for q id in
    if not (is_pos tpm) && not (is_pos rpm)
    then (q, true)
    else let q1 =
        if is_pos rpm then record q { requests = insert id (times q now id) q.requests } else q in
      if is_pos rpm && leb_ℤ rpm (pos (length (times q now id)))
      then (q1, false)
      else if is_pos tpm
      then (
        record q1 { tokens = insert id (events q now id) q.tokens },
        not (leb_ℤ tpm (used_tokens q now id)),
      )
      else (q1, true)

unfoldable pub record_request : QuotaTracker → ℕ → String → QuotaTracker
record_request q now id = record q { requests = insert id (times q now id ++ now ∷ []) q.requests }

abbrev add_event : QuotaTracker → ℕ → String → ℤ → QuotaTracker
add_event q now id tokens = record q {
  tokens = insert id (events q now id ++ record { at = now; tokens = tokens } ∷ []) q.tokens;
}

unfoldable pub record_tokens : QuotaTracker → ℕ → String → ℤ → QuotaTracker
record_tokens q now id tokens = if not (is_pos tokens) then q else add_event q now id tokens

unfoldable pub reserve : QuotaTracker → ℕ → String → ℤ → QuotaTracker × Bool
reserve q now id estimate =
    if not (is_pos estimate)
    then (q, true)
    else let (tpm, _) = limits_for q id in
      if not (is_pos tpm)
      then (q, true)
      else let q1 = record q { tokens = insert id (events q now id) q.tokens } in
        if ltb_ℤ tpm (add64 (add64 (used_tokens q now id) (held q id)) estimate)
        then (q1, false)
        else (record q1 { reserved = insert id (add64 (held q id) estimate) q.reserved }, true)

-- What is held after a release: never below 0.
unfoldable pub release_held : ℤ → ℤ → ℤ
release_held h tokens = let rest = sub64 h tokens in if ltb_ℤ rest (pos 0) then pos 0 else rest

unfoldable pub complete : QuotaTracker → ℕ → String → ℤ → ℤ → QuotaTracker
complete q now id reserved_tokens actual =
    let q1 =
      if is_pos reserved_tokens
      then record q { reserved = insert id (release_held (held q id) reserved_tokens) q.reserved }
      else q in
    if is_pos actual then add_event q1 now id actual else q1

-- A slice filtered in place: the kept elements move to the front of the array, and whoever still
-- holds the slice at its old length sees them followed by what stood there before.
unfoldable pub in_place {ℓ} : {A : Type ℓ} → List A → List A → List A
in_place kept old = kept ++ drop (length kept) old

unfoldable pub overwrite {ℓ} :
    {A : Type ℓ} → (List A → List A) → String → Assoc (List A) → Assoc (List A)
overwrite prune id m = elim (lookup id m) [
  | none ↦ m
  | some old ↦ insert id (in_place (prune old) old) m
]

-- `Usage` filters both slices in place and stores neither back.
unfoldable pub usage : QuotaTracker → ℕ → String → QuotaTracker × (ℤ × ℤ)
unfolding overwrite
usage q now id = (
  record q {
    tokens = overwrite (prune_events now) id q.tokens;
    requests = overwrite (prune_times now) id q.requests;
  },
  (used_tokens q now id, pos (length (times q now id))),
)
