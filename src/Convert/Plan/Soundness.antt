-- ===== src/Convert/Plan/Soundness.antt =====
-- What a plan speaks.
use llm_api_router.Prelude.{
  String, ◌≡◌, refl, Bool, true, false, not, ◌&&◌, ◌||◌, none, some, List, [], ◌∷◌, arith, eq_iff,
  any, str_eq, is_empty, if◌then◌else◌, Option-cases, Bool-cases, inl, inr, ◌⊎◌, str_eq→eq, cut,
}
use llm_api_router.Domain.Server.{ServerProtocol}
use llm_api_router.Convert.Dialect.{Dialect, chat, messages, responses, legacy, dialect_for_path}
use llm_api_router.Convert.Plan.{
  Plan, Decision, planned, refused, Transform, Options, decide, decide_declared, decide_forced,
  endpoint_of, request, edge,
}

-- Whether a backend declares an endpoint of a dialect.
unfoldable pub declares : Dialect → List ServerProtocol → Bool
declares d = any (λ p. str_eq (dialect_for_path p.path) d)

endpoint_of-declares :
    (d : Dialect) (ps : List ServerProtocol)
    → (endpoint_of d ps ≡ none) × (declares d ps ≡ false)
      ⊎ ((path : String) × (endpoint_of d ps ≡ some path)
          × (declares d ps ≡ true)
          × (dialect_for_path path ≡ d))
unfolding endpoint_of declares
endpoint_of-declares d [] = inl (refl, refl)
endpoint_of-declares d (p ∷ ps) =
    ground (arith, eq_iff (dialect_for_path p.path) d, endpoint_of-declares d ps)

-- Whether the configuration leaves the choice of the dialect to the declaration.
abbrev pub is_auto : String → Bool
is_auto forced = is_empty forced || str_eq forced "auto"

abbrev pub is_planned : Decision → Bool
is_planned (planned _) = true
is_planned (refused _) = false

-- Whether the build converts a client's dialect into chat.
abbrev pub converts : Dialect → Bool
converts d = str_eq d messages || str_eq d responses

is_auto-off : (forced : String) → is_auto forced ≡ true → str_eq forced "off" ≡ false
is_auto-off forced h = elim (Bool-cases (is_empty forced)) [
  | inl e ↦ rw (str_eq→eq forced "" e) refl
  | inr e ↦ rw (str_eq→eq forced "auto" (ground (arith, h, e))) refl
]

decide-declared :
    (path : String) (q : ServerProtocol) (qs : List ServerProtocol) (forced : String)
    → is_empty (dialect_for_path path) ≡ false
    → is_auto forced ≡ true
    → decide (dialect_for_path path) path (q ∷ qs) forced
      ≡ decide_declared (dialect_for_path path) path (q ∷ qs)
unfolding decide
decide-declared path q qs forced known auto = ground (arith, known, auto, is_auto-off forced auto)

-- With nothing forced, a request of a known dialect is planned for a backend that declares its
-- endpoints exactly if one of them is of the
-- request's dialect, or is a chat endpoint and the request is in messages or in responses; a
-- request for `/v1/completions` is always refused, even if that is an endpoint that it declares.
pub is_planned-decide :
    (path : String) (q : ServerProtocol) (qs : List ServerProtocol) (forced : String)
    → is_empty (dialect_for_path path) ≡ false
    → is_auto forced ≡ true
    → is_planned (decide (dialect_for_path path) path (q ∷ qs) forced) ≡ (
        not (str_eq (dialect_for_path path) legacy)
        && (declares (dialect_for_path path) (q ∷ qs)
            || converts (dialect_for_path path) && declares chat (q ∷ qs)))
unfolding decide_declared
is_planned-decide path q qs forced known auto = rw (decide-declared path q qs forced known auto) (
    ground (
      arith,
      endpoint_of-declares (dialect_for_path path) (q ∷ qs),
      endpoint_of-declares chat (q ∷ qs),
    ))

-- With nothing forced and a request of a known dialect, the path of a plan for a backend that
-- declares its endpoints is in the dialect of the plan, which
-- the backend declares; the dialect is the client's own, on the client's own path, or chat.
pub decide-speaks :
    (path : String) (q : ServerProtocol) (qs : List ServerProtocol) (forced : String) (p : Plan)
    → is_empty (dialect_for_path path) ≡ false
    → is_auto forced ≡ true
    → decide (dialect_for_path path) path (q ∷ qs) forced ≡ planned p
    → (dialect_for_path p.path ≡ p.dialect)
      × (declares p.dialect (q ∷ qs) ≡ true)
      × ((p.dialect ≡ dialect_for_path path) × (p.path ≡ path) ⊎ (p.dialect ≡ chat))
unfolding decide_declared
decide-speaks path q qs forced p known auto h = ground (
  arith,
  h,
  decide-declared path q qs forced known auto,
  endpoint_of-declares (dialect_for_path path) (q ∷ qs),
  endpoint_of-declares chat (q ∷ qs),
)

decide_forced-shape :
    (client : Dialect) (forced : String) (p : Plan)
    → decide_forced client forced ≡ planned p
    → (p.from ≡ client) × (p.dialect ≡ chat) × ((client ≡ messages) ⊎ (client ≡ responses))
unfolding decide_forced
decide_forced-shape client forced p h = elim (Option-cases (cut b'>' forced)) [
  | inl e ↦ ground (arith, e, h)
  | inr (ft, e) ↦
      ground (arith, e, h, eq_iff ft.0 client, eq_iff ft.0 messages, eq_iff ft.0 responses)
]

-- A plan is the identity, or leads from the client's dialect into chat.
decide-shape :
    (client : Dialect) (path : String) (ps : List ServerProtocol) (forced : String) (p : Plan)
    → decide client path ps forced ≡ planned p
    → (p.dialect ≡ p.from)
      ⊎ (p.from ≡ client) × (p.dialect ≡ chat) × ((client ≡ messages) ⊎ (client ≡ responses))
unfolding decide decide_declared
decide-shape client path ps forced p h = ground (
  arith,
  h,
  decide_forced-shape client forced p,
  endpoint_of-declares client ps,
  endpoint_of-declares chat ps,
  eq_iff client messages,
  eq_iff client responses,
)

edge-converted :
    (m r : Transform) (p : Plan) (body : String) (o : Options)
    → (p.from ≡ messages) ⊎ (p.from ≡ responses)
    → p.dialect ≡ chat
    → (is_empty (edge p) ≡ false)
      × (request m r p body o ≡ (if str_eq p.from messages then m body o else r body o))
unfolding request edge
edge-converted m r p body o (inl e) d = rw (e, d) (refl, refl)
edge-converted m r p body o (inr e) d = rw (e, d) (refl, refl)

edge-identity :
    (m r : Transform) (p : Plan) (body : String) (o : Options)
    → p.dialect ≡ p.from
    → (is_empty (edge p) ≡ true) × (request m r p body o ≡ some (body, []))
unfolding request edge
edge-identity m r p body o e = rw ((eq_iff p.dialect p.from).1 e) (refl, refl)

-- A plan that was made has its translation: the body of a plan without an edge is sent as it is,
-- and that of any other goes through the translation from the client's dialect into chat.
pub request-decide :
    (m r : Transform) (client : Dialect) (path : String) (ps : List ServerProtocol)
    (forced : String) (p : Plan) (body : String) (o : Options)
    → decide client path ps forced ≡ planned p
    → request m r p body o ≡ (
        if is_empty (edge p)
        then some (body, [])
        else if str_eq client messages
        then m body o
        else r body o)
request-decide m r client path ps forced p body o h = ground (
  arith,
  decide-shape client path ps forced p h,
  edge-identity m r p body o,
  edge-converted m r p body o,
)
