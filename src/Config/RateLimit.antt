-- ===== src/Config/RateLimit.antt =====
-- config/ratelimit.go: failures per server, and the cooldown that they lead to.
--
-- Times and positive durations are nanoseconds on one clock; each method takes the reading of
-- `time.Now()` that it makes. A duration that may be zero or negative is an integer. The nil
-- receiver, which every method answers with "no limit", is the `none` of the caller's option.
-- `at.After(now.Add(-window))` is written without a subtraction, as `now < at + window`.

pub mod Cooling
pub mod Counting
mod Tests
use llm_api_router.Prelude.{
  ℕ, ◌+◌, ◌-◌, ◌*◌, ℤ, String, Bool, true, false, not, ◌&&◌, ◌||◌, Option, none, some, List, [],
  ◌∷◌, ◌++◌, ltb, leb, is_pos, ◌==◌, pos_part, length, select, if◌then◌else◌, lookup, insert,
  delete, lookup_or, Assoc,
}

pub data FailKind : Type 0 where
  kind_immediate kind_server kind_client : FailKind

abbrev pub same_kind : FailKind → FailKind → Bool
same_kind kind_immediate kind_immediate = true
same_kind kind_server kind_server = true
same_kind kind_client kind_client = true
same_kind _ _ = false

pub record FailEntry : Type 0 where
  pub at : ℕ
  pub kind : FailKind

-- The reasons that a cooldown is reported with.
pub data Reason : Type 0 where
  too_many_failures : Reason
  answered : ℕ → Reason

-- `alerter` is whether one is installed; a notice is the call of its `Notify`.
pub record RateLimiter : Type 0 where
  pub failures : Assoc (List FailEntry)
  pub cooldown : Assoc ℕ
  pub reason : Assoc Reason
  pub max_fails : ℕ
  pub max_fails_4xx : ℕ
  pub window : ℕ
  pub cooldown_dur : ℕ
  pub cooldown_for : Option (String → ℤ)
  pub alerter : Bool

pub record Notice : Type 0 where
  pub server : String
  pub why : Reason

abbrev pub second : ℕ
second = 1_000_000_000

abbrev pub hour : ℕ
hour = 3600 * second

unfoldable pub new_rate_limiter : ℕ → ℕ → ℕ → RateLimiter
new_rate_limiter max_fails window cooldown_dur = record {
  failures = [];
  cooldown = [];
  reason = [];
  max_fails = max_fails;
  max_fails_4xx = max_fails * 2;
  window = window;
  cooldown_dur = cooldown_dur;
  cooldown_for = none;
  alerter = false;
}

unfoldable pub set_thresholds : RateLimiter → ℤ → ℤ → RateLimiter
set_thresholds rl max_fails cooldown =
    let rl' =
      if is_pos max_fails
      then record rl { max_fails = pos_part max_fails; max_fails_4xx = pos_part max_fails * 2 }
      else rl in
    if is_pos cooldown then record rl' { cooldown_dur = pos_part cooldown } else rl'

unfoldable pub cooldown_duration : RateLimiter → String → ℕ
cooldown_duration rl id = elim rl.cooldown_for [
  | none ↦ rl.cooldown_dur
  | some f ↦ if is_pos (f id) then pos_part (f id) else rl.cooldown_dur
]

unfoldable pub has_cooldown_override : RateLimiter → String → Bool
has_cooldown_override rl id = elim rl.cooldown_for [ none ↦ false | some f ↦ is_pos (f id) ]

unfoldable pub should_skip : RateLimiter → ℕ → String → Bool
should_skip rl now id = elim (lookup id rl.cooldown) [ none ↦ false | some expiry ↦ ltb now expiry ]

unfoldable pub record_success : RateLimiter → String → RateLimiter
record_success rl id = record rl {
  failures = delete id rl.failures;
  cooldown = delete id rl.cooldown;
  reason = delete id rl.reason;
}

unfoldable pub classify_failure : ℕ → FailKind
classify_failure status =
    if status == 429 || (status == 401 || status == 403)
    then kind_immediate
    else if status == 0
    then kind_server
    else if leb 500 status
    then kind_server
    else kind_client

unfoldable pub threshold_for : RateLimiter → String → FailKind → ℕ
threshold_for rl id kind_client = rl.max_fails_4xx
threshold_for rl id _ = rl.max_fails

-- The first of the optional hints, bounded; 0 is "no hint".
unfoldable pub clamp_hint : List ℤ → ℕ
clamp_hint [] = 0
clamp_hint (d ∷ _) =
    if not (is_pos d)
    then 0
    else if ltb (pos_part d) second
    then second
    else if ltb hour (pos_part d)
    then hour
    else pos_part d

-- The failures that are still inside the window.
unfoldable pub valid_entries : ℕ → ℕ → List FailEntry → List FailEntry
valid_entries window now = select λ f. ltb now (f.at + window)

unfoldable pub count_kind : FailKind → List FailEntry → ℕ
count_kind kind entries = length (select (λ f. same_kind f.kind kind) entries)

-- How long the server is benched: an immediate status takes the backend's hint, unless the
-- operator set a duration for this server.
unfoldable pub bench_for : RateLimiter → String → FailKind → List ℤ → ℕ
unfolding clamp_hint has_cooldown_override cooldown_duration
bench_for rl id kind_immediate retry_after =
    if ltb 0 (clamp_hint retry_after) && not (has_cooldown_override rl id)
    then clamp_hint retry_after
    else cooldown_duration rl id
bench_for rl id _ retry_after = cooldown_duration rl id

abbrev reason_for : FailKind → ℕ → Reason
reason_for kind_immediate s = answered s
reason_for _ s = too_many_failures

abbrev pub is_immediate : FailKind → Bool
is_immediate kind_immediate = true
is_immediate _ = false

-- `!wasCooling || now.After(expiry)`.
unfoldable pub may_cool : RateLimiter → ℕ → String → Bool
may_cool rl now id = elim (lookup id rl.cooldown) [ none ↦ true | some expiry ↦ ltb expiry now ]

-- The entries of the server after a failure of this kind, which is recorded first.
unfoldable pub entries_after : RateLimiter → ℕ → String → FailKind → List FailEntry
unfolding lookup_or valid_entries
entries_after rl now id kind =
    valid_entries rl.window now (lookup_or id [] rl.failures)
    ++ record { at = now; kind = kind } ∷ []

-- The new state, whether the server was just benched, and the notice that leaves the process.
unfoldable pub record_failure :
    RateLimiter → ℕ → String → ℕ → List ℤ → RateLimiter × Bool × Option Notice
record_failure rl now id status retry_after =
    let kind = classify_failure status in
    let valid = entries_after rl now id kind in
    let rl' = record rl { failures = insert id valid rl.failures } in
    if (is_immediate kind || leb (threshold_for rl id kind) (count_kind kind valid))
      && may_cool rl now id
    then (
      record rl' {
        cooldown = insert id (now + bench_for rl id kind retry_after) rl.cooldown;
        reason = insert id (reason_for kind status) rl.reason;
      },
      true,
      (if rl.alerter then some (record { server = id; why = reason_for kind status }) else none),
    )
    else (rl', false, none)

unfoldable pub clear_cooldown : RateLimiter → String → RateLimiter
clear_cooldown rl id = record rl {
  cooldown = delete id rl.cooldown;
  reason = delete id rl.reason;
  failures = delete id rl.failures;
}

-- A difference of times that is not positive is 0.
unfoldable pub cooldown_remaining : RateLimiter → ℕ → String → ℕ
cooldown_remaining rl now id = elim (lookup id rl.cooldown) [
  | none ↦ 0
  | some expiry ↦ expiry - now
]

-- When the cooldown ends and what put the server there.
unfoldable pub cooldown_report : RateLimiter → ℕ → String → Option (ℕ × Option Reason)
cooldown_report rl now id = elim (lookup id rl.cooldown) [
  | none ↦ none
  | some expiry ↦ if not (ltb now expiry) then none else some (expiry, lookup id rl.reason)
]

unfoldable pub failure_count : RateLimiter → ℕ → String → ℕ
unfolding lookup_or valid_entries
failure_count rl now id = length (valid_entries rl.window now (lookup_or id [] rl.failures))
