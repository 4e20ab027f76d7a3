-- ===== src/Config/Health/Probing.antt =====
-- What a tick of the background probe does.
use llm_api_router.Prelude.{
  ℕ, String, ◌≡◌, refl, ◌∙◌, true, false, List, [], ◌∷◌, map, arith, eq_iff, lookup, insert, delete,
  retain, lookup_or, lookup-insert, str_eq, str_eq_refl, if◌then◌else◌, ◌+◌, ◌||◌, ◌==◌, Bool,
  Bool-cases, inl, inr,
}
use llm_api_router.Prelude.Dict.{Assoc}
use llm_api_router.Domain.Server.{Server}
use llm_api_router.Config.Health.{
  HealthTracker, ProbeResult, no_answer, answered, new_health_tracker, start, is_healthy,
  is_throttled, mark_healthy, mark_unhealthy, check_server, forget_removed, check_one,
  check_servers, check_all,
}
use llm_api_router.Config.Health.Transitions.{Mark, mark}

-- Everything that happens to a tracker after its construction.
pub data Event : Type 0 where
  started : Assoc Server → Event
  marked : Mark → Event
  ticked : (String → ProbeResult) → ℕ → Assoc Server → Event

pub after : HealthTracker → Event → HealthTracker
after t (started servers) = start t servers
after t (marked m) = (mark t m).0
after t (ticked probe now servers) = (check_all probe now servers t).0

pub history : HealthTracker → List Event → HealthTracker
history t [] = t
history t (e ∷ es) = history (after t e) es

start-throttled :
    (servers : Assoc Server) (t : HealthTracker) → (start t servers).throttled ≡ t.throttled
unfolding start
start-throttled [] t = refl
start-throttled ((id, s) ∷ servers) t =
    start-throttled servers (record t { status = insert id true t.status })

delete-insert_nil : (id : String) (v : ℕ) → delete id (insert id v []) ≡ []
unfolding delete insert
delete-insert_nil id v = rw (str_eq_refl id)

-- Only a probe that also finds the server up opens a window, and for that server alone.
check_server-throttled :
    (t : HealthTracker) (now : ℕ) (id : String) (r : ProbeResult)
    → t.throttled ≡ []
    → (delete id (check_server t now id r).0.throttled ≡ [])
      × ((check_server t now id r).1 ≡ false → (check_server t now id r).0.throttled ≡ [])
unfolding check_server
check_server-throttled t now id no_answer h = (rw h (unfold delete in refl), λ _. h)
check_server-throttled t now id (answered code pause) h =
    let d : delete {V = ℕ} id [] ≡ [] = unfold delete in refl in
    (ground (arith, h, d, delete-insert_nil id (now + pause)), λ closed. ground arith)

check_one-throttled :
    (probe : String → ProbeResult) (now : ℕ) (id : String) (t : HealthTracker)
    → t.throttled ≡ []
    → (check_one probe now id t).0.throttled ≡ []
unfolding check_one mark_healthy
check_one-throttled probe now id t h =
    let (cleared, closed) = check_server-throttled t now id (probe id) h in
    elim (Bool-cases (is_healthy t id || is_throttled t now id)) [
      | inl skip ↦ rw (skip, check_one) h
      | inr go ↦ elim (Bool-cases (check_server t now id (probe id)).1) [
        | inl up ↦ rw (go, up, check_one) cleared
        | inr down ↦ rw (go, down, check_one) (closed down)
      ]
    ]

check_servers-throttled :
    (probe : String → ProbeResult) (now : ℕ) (ids : List String) (t : HealthTracker)
    → t.throttled ≡ []
    → (check_servers probe now ids t).0.throttled ≡ []
unfolding check_servers
check_servers-throttled probe now [] t h = h
check_servers-throttled probe now (id ∷ ids) t h =
    check_servers-throttled probe now ids (check_one probe now id t).0
      (check_one-throttled probe now id t h)

after-throttled : (t : HealthTracker) (e : Event) → t.throttled ≡ [] → (after t e).throttled ≡ []
unfolding after mark mark_healthy mark_unhealthy check_all forget_removed
after-throttled t (started servers) h = start-throttled servers t ∙ h
after-throttled t (marked (Mark.healthy id)) h = rw h (unfold delete in refl)
after-throttled t (marked (Mark.unhealthy id)) h = h
after-throttled t (ticked probe now servers) h =
    check_servers-throttled probe now (map (λ e. e.0) servers) (forget_removed t servers)
      (rw h (unfold retain in refl))

history-throttled :
    (es : List Event) (t : HealthTracker) → t.throttled ≡ [] → (history t es).throttled ≡ []
unfolding history
history-throttled [] t h = h
history-throttled (e ∷ es) t h = history-throttled es (after t e) (after-throttled t e h)

-- Between two operations no Retry-After window is ever open, for any server, whatever the probes
-- answered: a probe that opens one reports the server up, and marking it healthy closes it.
pub window_never_open :
    (interval now : ℕ) (es : List Event) (id : String)
    → is_throttled (history (new_health_tracker interval) es) now id ≡ false
unfolding is_throttled new_health_tracker
window_never_open interval now es id =
    rw (history-throttled es (new_health_tracker interval) refl, is_throttled)
      (unfold lookup in refl)

status-check_server :
    (t : HealthTracker) (now : ℕ) (id : String) (r : ProbeResult)
    → (check_server t now id r).0.status ≡ t.status
unfolding check_server
status-check_server t now id no_answer = refl
status-check_server t now id (answered code pause) = ground arith

-- The answers that say that a server runs: a success, a key refused, too many requests.
abbrev pub says_up : ProbeResult → Bool
says_up no_answer = false
says_up (answered code pause) = code == 200 || code == 401 || code == 403 || code == 429

says_up-check_server :
    (t : HealthTracker) (now : ℕ) (id : String) (r : ProbeResult)
    → (check_server t now id r).1 ≡ says_up r
unfolding check_server
says_up-check_server t now id no_answer = refl
says_up-check_server t now id (answered code pause) = ground arith

-- With no Retry-After window open, a server that is up stays up when it is probed, and one that is
-- down comes back exactly if its probe is answered, with 200, 401, 403 or 429; no other server
-- changes.
pub is_healthy-check_one :
    (probe : String → ProbeResult) (now : ℕ) (id j : String) (t : HealthTracker)
    → is_throttled t now id ≡ false
    → is_healthy (check_one probe now id t).0 j
      ≡ (if str_eq id j then is_healthy t id || says_up (probe id) else is_healthy t j)
unfolding check_one mark_healthy is_healthy lookup_or
is_healthy-check_one probe now id j t open_ =
    let s = check_server t now id (probe id) in
    ground (
      arith,
      eq_iff id j,
      says_up-check_server t now id (probe id),
      status-check_server t now id (probe id),
      lookup-insert id j true s.0.status,
    )

-- A tick never marks a server down.
check_one-keeps :
    (probe : String → ProbeResult) (now : ℕ) (id j : String) (t : HealthTracker)
    → is_healthy t j ≡ true
    → is_healthy (check_one probe now id t).0 j ≡ true
unfolding check_one mark_healthy is_healthy lookup_or
check_one-keeps probe now id j t h =
    let s = check_server t now id (probe id) in
    ground (
      arith,
      eq_iff id j,
      status-check_server t now id (probe id),
      lookup-insert id j true s.0.status,
    )

check_servers-keeps :
    (probe : String → ProbeResult) (now : ℕ) (ids : List String) (j : String) (t : HealthTracker)
    → is_healthy t j ≡ true
    → is_healthy (check_servers probe now ids t).0 j ≡ true
unfolding check_servers
check_servers-keeps probe now [] j t h = h
check_servers-keeps probe now (id ∷ ids) j t h =
    check_servers-keeps probe now ids j (check_one probe now id t).0
      (check_one-keeps probe now id j t h)
