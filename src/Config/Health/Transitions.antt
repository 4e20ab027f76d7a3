-- ===== src/Config/Health/Transitions.antt =====
-- Notices leave the process on the edges of a server's state only.
use llm_api_router.Prelude.{
  String, ◌≡◌, refl, sym, ◌∙◌, subst, Bool, true, false, some, List, [], ◌∷◌, ◌++◌, arith, eq_iff,
  lookup, lookup_or, member, lookup-insert, str_eq, if◌then◌else◌, not, ◌&&◌, inl, inr, Bool-cases,
}
use llm_api_router.Config.Health.{
  HealthTracker, Notice, is_back, is_down, mark_healthy, mark_unhealthy, was_down, notice_if,
}

-- What routing reports: a server answered, or did not.
pub data Mark : Type 0 where
  healthy unhealthy : String → Mark

unfoldable pub mark : HealthTracker → Mark → HealthTracker × List Notice
mark t (healthy id) = mark_healthy t id
mark t (unhealthy id) = mark_unhealthy t id

unfoldable pub marks : HealthTracker → List Mark → HealthTracker × List Notice
marks t [] = (t, [])
marks t (m ∷ ms) = let (t1, a) = mark t m in let (t2, b) = marks t1 ms in (t2, a ++ b)

-- The notices about one server alternate, beginning with "down" if it is up and with "back" if it
-- is down; those about the others are passed over.
abbrev pub Alternates : String → Bool → List Notice → Type 0
Alternates id up [] = Unit
Alternates id up (is_back j ∷ ns) =
    if str_eq j id then (up ≡ false) × Alternates id true ns else Alternates id up ns
Alternates id up (is_down j ∷ ns) =
    if str_eq j id then (up ≡ true) × Alternates id false ns else Alternates id up ns

-- The state of the server after a mark.
abbrev next : String → Bool → Mark → Bool
next id up (healthy j) = if str_eq j id then true else up
next id up (unhealthy j) = if str_eq j id then false else up

status-mark :
    (t : HealthTracker) (id : String) (m : Mark) (up : Bool)
    → lookup id t.status ≡ some up
    → lookup id (mark t m).0.status ≡ some (next id up m)
unfolding mark mark_healthy mark_unhealthy
status-mark t id (healthy j) up h = ground (arith, lookup-insert j id true t.status)
status-mark t id (unhealthy j) up h = ground (arith, lookup-insert j id false t.status)

alerter-mark : (t : HealthTracker) (m : Mark) → (mark t m).0.alerter ≡ t.alerter
unfolding mark mark_healthy mark_unhealthy
alerter-mark t (healthy j) = refl
alerter-mark t (unhealthy j) = refl

back-Alternates :
    (id j : String) (b up : Bool) (ns : List Notice)
    → (str_eq j id ≡ true → b ≡ not up)
    → Alternates id (if str_eq j id then true else up) ns
    → Alternates id up (notice_if b (is_back j) ++ ns)
back-Alternates id j true up ns e k = elim (Bool-cases (str_eq j id)) [
  | inl same ↦ rw same (ground (arith, e same), rw same at k)
  | inr other ↦ rw other (rw other at k)
]
back-Alternates id j false up ns e k = elim (Bool-cases (str_eq j id)) [
  | inl same ↦ subst (λ u. Alternates id u ns) (ground (arith, e same)) (rw same at k)
  | inr other ↦ rw other at k
]

down-Alternates :
    (id j : String) (b up : Bool) (ns : List Notice)
    → (str_eq j id ≡ true → b ≡ up)
    → Alternates id (if str_eq j id then false else up) ns
    → Alternates id up (notice_if b (is_down j) ++ ns)
down-Alternates id j true up ns e k = elim (Bool-cases (str_eq j id)) [
  | inl same ↦ rw same (sym (e same), rw same at k)
  | inr other ↦ rw other (rw other at k)
]
down-Alternates id j false up ns e k = elim (Bool-cases (str_eq j id)) [
  | inl same ↦ subst (λ u. Alternates id u ns) (e same) (rw same at k)
  | inr other ↦ rw other at k
]

mark-Alternates :
    (t : HealthTracker) (id : String) (m : Mark) (up : Bool) (ns : List Notice)
    → lookup id t.status ≡ some up
    → t.alerter ≡ true
    → Alternates id (next id up m) ns
    → Alternates id up ((mark t m).1 ++ ns)
unfolding mark mark_healthy mark_unhealthy was_down lookup_or member
mark-Alternates t id (healthy j) up ns h a k =
    back-Alternates id j (was_down t j && t.alerter) up ns
      (λ same. ground (arith, a, h, eq_iff j id)) k
mark-Alternates t id (unhealthy j) up ns h a k =
    down-Alternates id j (lookup_or j false t.status && t.alerter) up ns
      (λ same. ground (arith, a, h, eq_iff j id)) k

-- Whatever routing reports of the servers, and in whatever order, the notices about a known server
-- alternate between "down" and "back", the first of them a change from the state that it was in.
pub marks-Alternates :
    (t : HealthTracker) (id : String) (up : Bool) (ms : List Mark)
    → lookup id t.status ≡ some up
    → t.alerter ≡ true
    → Alternates id up (marks t ms).1
unfolding marks
marks-Alternates t id up [] h a = tt
marks-Alternates t id up (m ∷ ms) h a = mark-Alternates t id m up (marks (mark t m).0 ms).1 h a (
    marks-Alternates (mark t m).0 id (next id up m) ms (status-mark t id m up h)
      (alerter-mark t m ∙ a))
