-- ===== src/Router/Handle/Answered.antt =====
-- The answer of a request that a rule routes: its attempts', or the security gate's.
use mathlib.Core.List.{Perm}
use mathlib.Core.List.Perm
use llm_api_router.Prelude.{
  ℕ, ◌+◌, ◌<◌, pos, String, ◌≡◌, refl, sym, ap, ◌∙◌, subst, Bool, true, false, not, ◌&&◌, ◌||◌,
  Option, none, some, List, [], ◌∷◌, arith, ltb, length, length-take, map, is_some, is_pos,
  pos_part, str_eq, contains, has_prefix, Bool-cases, inl, inr,
}
use llm_api_router.Domain.Server.{Server}
use llm_api_router.Domain.Rule.{
  JevRouter, RoutingRule, balances, balance_least_connections, enabled_candidates,
}
use llm_api_router.Domain.Settings.{Config}
use llm_api_router.Config.Store.{get_server}
use llm_api_router.Config.Store.Matching.{Glob, get_rule_by_model}
use llm_api_router.Router.State.{Router, ServerAttempt}
use llm_api_router.Router.Sticky.{sticky_get}
use llm_api_router.Router.Pool.Ordering.{balance-perm}
use llm_api_router.Router.World.{World, Request}
use llm_api_router.Router.Attempts.{handle_attempts}
use llm_api_router.Router.Attempts.Answers.{handle_attempts-IsGrounded}
use llm_api_router.Router.Attempts.Grounds.{IsGrounded}
use llm_api_router.Router.Chain.{Weighted, static_attempts, balanced_attempts, capped}
use llm_api_router.Router.Listing.{jev_of}
use llm_api_router.Router.Jev.{JevOutcome, Capability}
use llm_api_router.Router.Jev.Memory.{JevMemory}
use llm_api_router.Router.Jev.Decision.{Ask}
use llm_api_router.Router.Jev.Attempts.{jev_attempts}
use llm_api_router.Router.Jev.Usable.{AllKnown}
use llm_api_router.Router.Jev.FailOpen.{Served, jev_attempts-Served}
use llm_api_router.Router.Handle.{
  Incoming, Reply, blocked_by_gate, attempted, Front, request_of, pin_of, try_all, route_static,
  after_jev, route_rule, route_model, handle_model, handle_request, model_of, is_proxied, proceeds,
  screen, after_screen,
}

-- What a rule needs to be served: the primary server, or a pool all of whose servers are there.
abbrev pub Servable : Config → RoutingRule → Option JevRouter → Type 0
Servable store rule none = is_some (get_server store rule.server_id) ≡ true
Servable store rule (some j) =
    (0 < length (enabled_candidates j)) × AllKnown store (enabled_candidates j)

-- The attempts that a rule gives a request, and whether the decision of a jev rule blocks it.
module _ (digest : List String → String) (ask : Ask) (audio vision : Capability) where
  abbrev pub attempts_of : Incoming → RoutingRule → Option JevRouter → Front → List ServerAttempt
  attempts_of inc rule none (r, m) = elim (get_server r.store rule.server_id) [
    | none ↦ []
    | some primary ↦
        let pool = static_attempts r.store rule primary in
        let (r1, attempts) = balanced_attempts r inc.now rule inc.conversation pool in
        capped r1.store attempts
  ]
  attempts_of inc rule (some j) (r, m) =
      capped r.store (jev_attempts digest ask audio vision r.store m rule j inc.jev).1

  abbrev pub is_blocked : Incoming → RoutingRule → Option JevRouter → Front → Bool
  is_blocked inc rule none (r, m) = false
  is_blocked inc rule (some j) (r, m) =
      str_eq (jev_attempts digest ask audio vision r.store m rule j inc.jev).2.reason "blocked"

-- A reply that the attempts gave, one of whose grounds it has, or the gate's, when it blocks.
abbrev pub IsAnswered : World → Incoming → RoutingRule → List ServerAttempt → Bool → Reply → Type 0
IsAnswered w inc rule as_ blocked (attempted a) =
    (pin_key : String) × IsGrounded w (request_of inc rule pin_key) as_ a
IsAnswered w inc rule as_ blocked blocked_by_gate = blocked ≡ true
IsAnswered w inc rule as_ blocked _ = ⊥

capped-some : (c : Config) (as_ : List ServerAttempt) → 0 < length as_ → 0 < length (capped c as_)
unfolding capped
capped-some c [] h = ground (arith, h)
capped-some c (a ∷ as_) h =
    let limit = c.settings.routing.max_fallbacks in
    elim (Bool-cases (is_pos limit && ltb (pos_part limit + 1) (length (a ∷ as_)))) [
      | inl e ↦ rw (capped, e) (omega (arith, length-take (pos_part limit + 1) (a ∷ as_)))
      | inr e ↦ rw (capped, e) h
    ]

module _ (w : World) where
  grounded :
      (q : Request) (as_ : List ServerAttempt) (r : Router)
      → 0 < length as_
      → IsGrounded w q as_ (handle_attempts w q as_ r).1
  grounded q [] r h = ground (arith, h)
  grounded q (a ∷ as_) r h = (handle_attempts-IsGrounded w q a as_ r).0

  try_all-IsAnswered :
      (inc : Incoming) (rule : RoutingRule) (pin : String) (as_ : List ServerAttempt) (f : Front)
      (blocked : Bool)
      → 0 < length as_
      → IsAnswered w inc rule (capped f.0.store as_) blocked (try_all w inc rule pin as_ f).1
  unfolding try_all
  try_all-IsAnswered inc rule pin as_ (r, m) blocked h =
      (pin, grounded (request_of inc rule pin) (capped r.store as_) r (capped-some r.store as_ h))

not_nil_perm : (a : ServerAttempt) (as_ bs : List ServerAttempt) → Perm (a ∷ as_) bs → 0 < length bs
not_nil_perm a as_ [] p = ground (arith, Perm.length-eq p)
not_nil_perm a as_ (b ∷ bs) p = omega arith

balanced-some :
    (r : Router) (now : ℕ) (rule : RoutingRule) (key : String) (x : Weighted) (xs : List Weighted)
    → 0 < length (balanced_attempts r now rule key (x ∷ xs)).1
unfolding balanced_attempts
balanced-some r now rule key x xs =
    let pool = x ∷ xs in
    let attempts = map (λ (y : Weighted). y.0) pool in
    let rest = map (λ (y : Weighted). y.0) xs in
    let found = sticky_get r now key in
    let perms =
      balance-perm found.0 attempts (map (λ (y : Weighted). y.1) pool)
        (map (λ (y : Weighted). pos y.1) pool) found.1 in
    elim (Bool-cases (not (ltb 1 (length pool) && balances rule.balance))) [
      | inl e ↦ rw (balanced_attempts, e) (omega arith)
      | inr e ↦ elim (Bool-cases (str_eq rule.balance balance_least_connections)) [
        | inl f ↦ rw (balanced_attempts, e, f) (not_nil_perm x.0 rest _ perms.1)
        | inr f ↦ rw (balanced_attempts, e, f) (not_nil_perm x.0 rest _ perms.0)
      ]
    ]

module _ (w : World) where
  route_static-IsAnswered :
      (inc : Incoming) (rule : RoutingRule) (primary : Server) (f : Front)
      → let pool = static_attempts f.0.store rule primary in
        let balanced = balanced_attempts f.0 inc.now rule inc.conversation pool in
        IsAnswered w inc rule
          (capped balanced.0.store balanced.1)
          false
          (route_static w inc rule (some primary) f).1
  unfolding route_static static_attempts
  route_static-IsAnswered inc rule primary (r, m) =
      let pool = static_attempts r.store rule primary in
      let balanced = balanced_attempts r inc.now rule inc.conversation pool in
      try_all-IsAnswered w inc rule (pin_of inc rule pool) balanced.1 (balanced.0, m) false
        (balanced-some r inc.now rule inc.conversation _ _)

  after_jev-IsAnswered :
      (inc : Incoming) (rule : RoutingRule) (j : JevRouter) (as_ : List ServerAttempt)
      (out : JevOutcome) (f : Front)
      → Served j as_ out
      → IsAnswered w inc rule
          (capped f.0.store as_)
          (str_eq out.reason "blocked")
          (after_jev w inc rule as_ out f).1
  unfolding after_jev
  after_jev-IsAnswered inc rule j as_ out f h = elim (Bool-cases (str_eq out.reason "blocked")) [
    | inl e ↦ rw (after_jev, e) refl
    | inr e ↦ elim h [
      | inl more ↦ rw (after_jev, e) (try_all-IsAnswered w inc rule "" as_ f false more)
      | inr (reason, why) ↦
          ground (arith, e, subst (λ s. str_eq s "blocked" ≡ true) (sym reason) refl)
    ]
  ]

screen-proceeds :
    (listed proxied readable counted : Bool)
    → listed ≡ false
    → proxied ≡ true
    → readable ≡ true
    → counted ≡ false
    → screen listed proxied readable counted ≡ proceeds
unfolding screen
screen-proceeds listed proxied readable counted h k l n = rw (screen, h, k, l, n) refl

module _ (w : World) (glob : Glob) (digest : List String → String) (ask : Ask)
    (audio vision : Capability) where
  route_rule-IsAnswered :
      (inc : Incoming) (rule : RoutingRule) (j : Option JevRouter) (f : Front)
      → Servable f.0.store rule j
      → IsAnswered w inc rule
          (attempts_of digest ask audio vision inc rule j f)
          (is_blocked digest ask audio vision inc rule j f)
          (route_rule w glob digest ask audio vision inc rule j f).1
  unfolding route_rule
  route_rule-IsAnswered inc rule none (r, m) h = static_found (get_server r.store rule.server_id) h
    where
      list_of : Option Server → List ServerAttempt
      list_of o = elim o [
        | none ↦ []
        | some primary ↦
            let pool = static_attempts r.store rule primary in
            let (r1, attempts) = balanced_attempts r inc.now rule inc.conversation pool in
            capped r1.store attempts
      ]

      static_found :
          (o : Option Server)
          → is_some o ≡ true
          → IsAnswered w inc rule (list_of o) false (route_static w inc rule o (r, m)).1
      static_found none k = ground (arith, k)
      static_found (some primary) k = route_static-IsAnswered w inc rule primary (r, m)
  route_rule-IsAnswered inc rule (some j) (r, m) (some_candidate, known) =
      let found = jev_attempts digest ask audio vision r.store m rule j inc.jev in
      after_jev-IsAnswered w inc rule j found.1 found.2 (r, found.0)
        (jev_attempts-Served digest ask audio vision r.store m rule j inc.jev some_candidate known)

  -- A POST that is read, is no token count, names a model that a rule matches, and whose rule has
  -- its primary server in the store (or, for a jev rule, a candidate enabled and the servers of
  -- all of them) is answered by its attempts: with what a backend sent, or with a reason of theirs
  -- that there is (the client gone at a try, a body that could not be rewritten, a last backend
  -- that cannot be spoken to, a transport error). Else it is blocked, and that only if the decision
  -- of its jev rule is to block. There is no other way.
  pub handle_request-IsAnswered :
      (inc : Incoming) (model : String) (rule : RoutingRule) (r : Router) (m : JevMemory)
      → inc.method ≡ "POST"
      → inc.readable ≡ true
      → contains inc.path "/count_tokens" ≡ false
      → model_of inc ≡ some model
      → get_rule_by_model glob r.store model ≡ some rule
      → Servable r.store rule (jev_of rule)
      → IsAnswered w inc rule
          (attempts_of digest ask audio vision inc rule (jev_of rule) (r, m))
          (is_blocked digest ask audio vision inc rule (jev_of rule) (r, m))
          (handle_request w glob digest ask audio vision inc (r, m)).1
  unfolding handle_request after_screen handle_model route_model
  handle_request-IsAnswered inc model rule r m post readable counts named matched servable =
      let listed = str_eq inc.method "GET" && str_eq inc.path "/v1/models" in
      let not_get : listed ≡ false =
        subst (λ s. (str_eq s "GET" && str_eq inc.path "/v1/models") ≡ false) (sym post) refl in
      let proxied : is_proxied inc ≡ true =
        subst (λ s. (str_eq s "POST" || str_eq s "GET" && has_prefix inc.path "/v1/audio/") ≡ true)
          (sym post) refl in
      let through =
        screen-proceeds listed (is_proxied inc) inc.readable (contains inc.path "/count_tokens")
          not_get proxied readable counts in
      let reached =
        ap (λ s. after_screen w glob digest ask audio vision inc s (r, m)) through
        ∙ ap (λ n. handle_model w glob digest ask audio vision inc n (r, m)) named
        ∙ ap (λ o. route_model w glob digest ask audio vision inc o (r, m)) matched in
      let as_ = attempts_of digest ask audio vision inc rule (jev_of rule) (r, m) in
      let blocked = is_blocked digest ask audio vision inc rule (jev_of rule) (r, m) in
      subst (λ (x : Front × Reply). IsAnswered w inc rule as_ blocked x.1) (sym reached)
        (route_rule-IsAnswered inc rule (jev_of rule) (r, m) servable)
