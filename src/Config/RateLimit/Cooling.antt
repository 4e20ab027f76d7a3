-- ===== src/Config/RateLimit/Cooling.antt =====
-- When a server is benched, for how long, and what ends it.
use llm_api_router.Prelude.{
  ℕ, ◌+◌, ℤ, String, ◌≡◌, ◌≢◌, refl, ap, ◌∙◌, Bool, true, false, not, ◌&&◌, ◌||◌, Option, none,
  some, List, [], ◌∷◌, ◌++◌, ◌==◌, leb, lookup, lookup_or, insert, arith, Assoc, eq_iff,
  lookup-insert, lookup-delete, lookup-insert_self, ltb, str_eq, is_pos, pos_part, min, max,
  if◌then◌else◌,
}
use llm_api_router.Config.RateLimit.{
  RateLimiter, FailKind, FailEntry, kind_immediate, kind_server, kind_client, same_kind, count_kind,
  valid_entries, threshold_for, is_immediate, clamp_hint, second, hour, should_skip, may_cool,
  record_failure, record_success, failure_count, classify_failure, bench_for, has_cooldown_override,
  cooldown_duration, entries_after,
}

-- The statuses that bench at once, and the limit on failures of the kind of any other: a server's
-- own (no answer, or 500 and above), and a client's.
abbrev pub is_denial : ℕ → Bool
is_denial code = code == 401 || code == 403 || code == 429

abbrev pub is_server_failure : ℕ → Bool
is_server_failure code = code == 0 || leb 500 code

abbrev pub failure_limit : RateLimiter → ℕ → ℕ
failure_limit rl code =
    if is_denial code || is_server_failure code then rl.max_fails else rl.max_fails_4xx

-- The recorded failures of a kind that a window before now still holds.
abbrev pub recent_of : ℕ → ℕ → FailKind → List FailEntry → ℕ
recent_of window now kind [] = 0
recent_of window now kind (f ∷ fs) =
    (if ltb now (f.at + window) && same_kind f.kind kind then 1 else 0)
    + recent_of window now kind fs

abbrev pub recent_failures : RateLimiter → ℕ → String → ℕ → ℕ
recent_failures rl now id code =
    recent_of rl.window now (classify_failure code) (lookup_or id [] rl.failures)

-- A cooldown is set, and is not over.
abbrev pub is_benched : RateLimiter → ℕ → String → Bool
is_benched rl now id = elim (lookup id rl.cooldown) [ none ↦ false | some expiry ↦ leb now expiry ]

abbrev pub set_by_operator : Option (String → ℤ) → String → Option ℕ
set_by_operator none id = none
set_by_operator (some f) id = if is_pos (f id) then some (pos_part (f id)) else none

abbrev pub hinted : List ℤ → Option ℕ
hinted [] = none
hinted (d ∷ _) = if is_pos d then some (max second (min hour (pos_part d))) else none

abbrev pub bench_of : Option ℕ → Option ℕ → ℕ → ℕ
bench_of (some n) hint n' = n
bench_of none (some n) n' = n
bench_of none none n' = n'

abbrev pub bench_length : RateLimiter → String → ℕ → List ℤ → ℕ
bench_length rl id code hints =
    bench_of (set_by_operator rl.cooldown_for id) (if is_denial code then hinted hints else none)
      rl.cooldown_dur

is_immediate-denial : (code : ℕ) → is_immediate (classify_failure code) ≡ is_denial code
unfolding classify_failure
is_immediate-denial code = ground arith

threshold_for-limit :
    (rl : RateLimiter) (id : String) (code : ℕ)
    → threshold_for rl id (classify_failure code) ≡ failure_limit rl code
unfolding classify_failure threshold_for
threshold_for-limit rl id code = ground arith

may_cool-benched :
    (rl : RateLimiter) (now : ℕ) (id : String) → may_cool rl now id ≡ not (is_benched rl now id)
unfolding may_cool
may_cool-benched rl now id = ground arith

same_kind_self : (k : FailKind) → same_kind k k ≡ true
same_kind_self kind_immediate = refl
same_kind_self kind_server = refl
same_kind_self kind_client = refl

count_kind-recent :
    (window now : ℕ) (kind : FailKind) (fs : List FailEntry)
    → count_kind kind (valid_entries window now fs ++ record { at = now; kind = kind } ∷ [])
      ≡ recent_of window now kind fs + 1
unfolding count_kind valid_entries
count_kind-recent window now kind [] = ground (arith, same_kind_self kind)
count_kind-recent window now kind (f ∷ fs) =
    let later = count_kind-recent window now kind fs in ground (arith, later)

entries_after-recent :
    (rl : RateLimiter) (now : ℕ) (id : String) (code : ℕ)
    → count_kind (classify_failure code) (entries_after rl now id (classify_failure code))
      ≡ recent_failures rl now id code + 1
unfolding entries_after
entries_after-recent rl now id code =
    count_kind-recent rl.window now (classify_failure code) (lookup_or id [] rl.failures)

clamp_hint-hinted :
    (hints : List ℤ) → clamp_hint hints ≡ elim (hinted hints) [ none ↦ 0 | some n ↦ n ]
unfolding clamp_hint
clamp_hint-hinted [] = refl
clamp_hint-hinted (d ∷ _) = ground arith

bench_for-kind :
    (rl : RateLimiter) (id : String) (kind : FailKind) (hints : List ℤ)
    → bench_for rl id kind hints
      ≡ bench_of
          (set_by_operator rl.cooldown_for id)
          (if is_immediate kind then hinted hints else none)
          rl.cooldown_dur
unfolding bench_for has_cooldown_override cooldown_duration clamp_hint
bench_for-kind rl id kind_immediate [] = ground arith
bench_for-kind rl id kind_immediate (d ∷ ds) = ground arith
bench_for-kind rl id kind_server hints = ground arith
bench_for-kind rl id kind_client hints = ground arith

bench_for-length :
    (rl : RateLimiter) (id : String) (code : ℕ) (hints : List ℤ)
    → bench_for rl id (classify_failure code) hints ≡ bench_length rl id code hints
bench_for-length rl id code hints =
    bench_for-kind rl id (classify_failure code) hints
    ∙ ap
        (λ (b : Bool).
          bench_of (set_by_operator rl.cooldown_for id) (if b then hinted hints else none)
            rl.cooldown_dur)
        (is_immediate-denial code)

module _ (rl : RateLimiter) (now : ℕ) (id : String) (code : ℕ) (hints : List ℤ) where
  abbrev benches_at_once : Bool
  benches_at_once =
      is_denial code || leb (failure_limit rl code) (recent_failures rl now id code + 1)

  -- The state of a cooldown after a failure.
  cooldown-record_failure : (record_failure rl now id code hints).0.cooldown ≡ (
      if benches_at_once && not (is_benched rl now id)
      then insert id (now + bench_length rl id code hints) rl.cooldown
      else rl.cooldown)
  unfolding record_failure
  cooldown-record_failure =
      let kind = classify_failure code in
      let length_of_bench = bench_for-length rl id code hints in
      let cooling = may_cool-benched rl now id in
      let reached = entries_after-recent rl now id code in
      let limit = threshold_for-limit rl id code in
      let immediate = is_immediate-denial code in
      rw (immediate, reached, limit, cooling, length_of_bench) (ground arith)

  -- A failure benches a server that is not benched already if its status is 401, 403 or 429, or if
  -- it makes the failures of its kind inside the window as many as the limit of the kind: the
  -- server is then skipped for the duration that the operator set for it, else for the hint that
  -- such a status came with, held between a second and an hour, else for the configured duration.
  -- After any other failure it is skipped exactly as before.
  pub should_skip-record_failure :
      (t : ℕ)
      → should_skip (record_failure rl now id code hints).0 t id ≡ (
          if (is_denial code || leb (failure_limit rl code) (recent_failures rl now id code + 1))
            && not (is_benched rl now id)
          then ltb t (now + bench_length rl id code hints)
          else should_skip rl t id)
  unfolding should_skip
  should_skip-record_failure t =
      let expiry = now + bench_length rl id code hints in
      let skips : Assoc ℕ → Bool = λ m. elim (lookup id m) [ none ↦ false | some e ↦ ltb t e ] in
      ap skips cooldown-record_failure ∙ ground (arith, lookup-insert_self id expiry rl.cooldown)

  -- The same by the flag that the failure returns.
  pub should_skip-flag :
      (t : ℕ)
      → should_skip (record_failure rl now id code hints).0 t id ≡ (
          if (record_failure rl now id code hints).1
          then ltb t (now + bench_length rl id code hints)
          else should_skip rl t id)
  unfolding record_failure should_skip
  should_skip-flag t =
      let expiry = now + bench_for rl id (classify_failure code) hints in
      let same = bench_for-length rl id code hints in
      ground (arith, same, lookup-insert_self id expiry rl.cooldown)

  pub bench_length-record_failure :
      bench_length (record_failure rl now id code hints).0 id code [] ≡ bench_length rl id code []
  unfolding record_failure
  bench_length-record_failure = ground arith

  -- A server that is being skipped is not benched again: its cooldown is not prolonged, and no
  -- second notice leaves the process.
  pub record_failure_edge :
      should_skip rl now id ≡ true
      → ((record_failure rl now id code hints).1 ≡ false)
        × ((record_failure rl now id code hints).2 ≡ none)
        × ((record_failure rl now id code hints).0.cooldown ≡ rl.cooldown)
  unfolding record_failure should_skip may_cool
  record_failure_edge h = ground arith

  -- A failure of one server leaves every other alone: whether it is skipped, and its count.
  record_failure_other :
      (j : String) (t : ℕ)
      → id ≢ j
      → (should_skip (record_failure rl now id code hints).0 t j ≡ should_skip rl t j)
        × (failure_count (record_failure rl now id code hints).0 t j ≡ failure_count rl t j)
  unfolding record_failure should_skip failure_count
  record_failure_other j t h =
      let expiry = now + bench_for rl id (classify_failure code) hints in
      let entries = entries_after rl now id (classify_failure code) in
      (
        ground (arith, eq_iff id j, lookup-insert id j expiry rl.cooldown),
        ground (arith, eq_iff id j, lookup-insert id j entries rl.failures),
      )

-- The backend's hint sets the bench of an immediate status, held between a second and an hour,
-- unless the operator set a duration for this server, which then decides.
bench_for_immediate :
    (rl : RateLimiter) (id : String) (d : ℤ) (rest : List ℤ)
    → is_pos d ≡ true
    → bench_for rl id kind_immediate (d ∷ rest) ≡ (
        if has_cooldown_override rl id
        then cooldown_duration rl id
        else max second (min hour (pos_part d)))
unfolding bench_for
bench_for_immediate rl id d rest h = ground arith

-- A success ends the cooldown and forgets the failures of its server, and of no other.
pub record_success_lem :
    (rl : RateLimiter) (id j : String) (t : ℕ)
    → (should_skip (record_success rl id) t j ≡ (if str_eq id j then false else should_skip rl t j))
      × (failure_count (record_success rl id) t j
          ≡ (if str_eq id j then 0 else failure_count rl t j))
unfolding record_success should_skip failure_count
record_success_lem rl id j t =
    (ground (arith, lookup-delete id j rl.cooldown), ground (arith, lookup-delete id j rl.failures))
