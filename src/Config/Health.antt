-- ===== src/Config/Health.antt =====
-- config/health.go: which backends are up, and the background probe of those that are not.
--
-- A probe's outcome is what the network answered; each method takes the readings of `time.Now()`
-- that it makes. The capability cache that a successful probe feeds is not part of the state.
pub mod Transitions
pub mod Probing
mod Tests
use llm_api_router.Prelude.{
  ℕ, ◌+◌, ℤ, String, Bool, true, false, not, ◌&&◌, ◌||◌, Option, none, some, List, [], ◌∷◌, ◌++◌,
  map, ltb, ◌==◌, is_pos, pos_part, is_empty, if◌then◌else◌, insert, delete, lookup, lookup_or,
  member, retain,
}
use llm_api_router.Prelude.Dict.{Assoc}
use llm_api_router.Domain.Server.{Server}

-- `alerter` is whether one is installed.
pub record HealthTracker : Type 0 where
  pub status : Assoc Bool
  pub throttled : Assoc ℕ
  pub alerter : Bool
  pub interval : ℕ
  pub timeout : ℕ
  pub probe_path : String

pub data Notice : Type 0 where
  is_back : String → Notice
  is_down : String → Notice

abbrev pub health_probe_path : String
health_probe_path = "/v1/models"

abbrev pub health_probe_timeout : ℕ
health_probe_timeout = 5_000_000_000

unfoldable pub new_health_tracker : ℕ → HealthTracker
new_health_tracker interval = record {
  status = [];
  throttled = [];
  alerter = false;
  interval = interval;
  timeout = health_probe_timeout;
  probe_path = health_probe_path;
}

unfoldable pub set_probe : HealthTracker → String → ℤ → HealthTracker
set_probe t path timeout =
    let t1 = if is_empty path then t else record t { probe_path = path } in
    if is_pos timeout then record t1 { timeout = pos_part timeout } else t1

unfoldable pub set_interval : HealthTracker → ℤ → HealthTracker
set_interval t interval = if is_pos interval then record t { interval = pos_part interval } else t

-- Marks every server of the configuration healthy.
unfoldable pub start : HealthTracker → Assoc Server → HealthTracker
start t [] = t
start t ((id, _) ∷ servers) = start (record t { status = insert id true t.status }) servers

-- A server that was never seen reads as `false`, the zero value.
unfoldable pub is_healthy : HealthTracker → String → Bool
is_healthy t id = lookup_or id false t.status

-- Known and down.
unfoldable pub was_down : HealthTracker → String → Bool
was_down t id = member id t.status && not (lookup_or id false t.status)

abbrev pub notice_if : Bool → Notice → List Notice
notice_if b n = if b then n ∷ [] else []

unfoldable pub mark_healthy : HealthTracker → String → HealthTracker × List Notice
unfolding was_down
mark_healthy t id = (
  record t { status = insert id true t.status; throttled = delete id t.throttled },
  notice_if (was_down t id && t.alerter) (is_back id),
)

unfoldable pub mark_unhealthy : HealthTracker → String → HealthTracker × List Notice
mark_unhealthy t id = (
  record t { status = insert id false t.status },
  notice_if (lookup_or id false t.status && t.alerter) (is_down id),
)

-- What a probe came back with: no answer (or no usable request or transport), or a status with
-- the parsed Retry-After header, 0 for none.
pub data ProbeResult : Type 0 where
  no_answer : ProbeResult
  answered : ℕ → ℕ → ProbeResult

-- Whether the probe found the server up; a throttled probe opens its window.
unfoldable pub check_server : HealthTracker → ℕ → String → ProbeResult → HealthTracker × Bool
check_server t now id no_answer = (t, false)
check_server t now id (answered code retry_after) =
    if code == 200
    then (t, true)
    else if code == 429
    then (
      (if ltb 0 retry_after
          then record t { throttled = insert id (now + retry_after) t.throttled }
          else t),
      true,
    )
    else (t, code == 401 || code == 403)

unfoldable pub forget_removed : HealthTracker → Assoc Server → HealthTracker
forget_removed t servers = record t {
  status = retain (λ id _. member id servers) t.status;
  throttled = retain (λ id _. not (member id t.status) || member id servers) t.throttled;
}

-- `time.Now().Before(t.throttled[id])`; the zero time is before everything.
unfoldable pub is_throttled : HealthTracker → ℕ → String → Bool
is_throttled t now id = elim (lookup id t.throttled) [ none ↦ false | some end ↦ ltb now end ]

-- One server of a tick; the probe is made only if the server is down and not throttled.
unfoldable pub check_one :
    (String → ProbeResult) → ℕ → String → HealthTracker → HealthTracker × List Notice
unfolding check_server
check_one probe now id t =
    if is_healthy t id || is_throttled t now id
    then (t, [])
    else let (t1, up) = check_server t now id (probe id) in
      if up then mark_healthy t1 id else (t1, [])

unfoldable pub check_servers :
    (String → ProbeResult) → ℕ → List String → HealthTracker → HealthTracker × List Notice
check_servers probe now [] t = (t, [])
check_servers probe now (id ∷ ids) t =
    let (t1, notices) = check_one probe now id t in
    let (t2, more) = check_servers probe now ids t1 in (t2, notices ++ more)

unfoldable pub check_all :
    (String → ProbeResult) → ℕ → Assoc Server → HealthTracker → HealthTracker × List Notice
unfolding check_servers
check_all probe now servers t =
    check_servers probe now (map (λ e. e.0) servers) (forget_removed t servers)
