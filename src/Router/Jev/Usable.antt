-- ===== src/Router/Jev/Usable.antt =====
-- The filters of a pool leave candidates to serve from.
use llm_api_router.Prelude.{
  suc, ◌<◌, String, ◌≡◌, refl, sym, ap, subst, true, not, ◌&&◌, List, [], ◌∷◌, arith, length,
  is_some, is_empty, ltb, All, All-select, Bool-cases, Option-cases, inl, inr,
}
use llm_api_router.Domain.Rule.{JevCandidate}
use llm_api_router.Domain.Settings.{Config}
use llm_api_router.Config.Store.{get_server}
use llm_api_router.Router.Jev.{
  Pool, Capability, names_after, jev_candidate_ids, may_see, jev_vision_pool, is_audio,
  jev_audio_pool, resolve_vision, resolve_vision_pool,
}
use llm_api_router.Router.Jev.Decision.{JevRequest}
use llm_api_router.Router.Jev.Attempts.{unless_empty, usable_pool, sighted_pool, text_pool}

-- Every candidate's server is in the store.
abbrev pub AllKnown : Config → Pool → Type 0
AllKnown store pool = All (λ (c : JevCandidate). is_some (get_server store c.server_id) ≡ true) pool

-- A pool that can be served from.
abbrev pub Usable : Config → Pool → Type 0
Usable store pool = (0 < length pool) × AllKnown store pool

names_after-length :
    (pool : Pool) (seen : List String) → length (names_after seen pool) ≡ length pool
unfolding names_after
names_after-length [] seen = refl
names_after-length (c ∷ cs) seen = ap suc (names_after-length cs _)

pub jev_candidate_ids-length : (pool : Pool) → length (jev_candidate_ids pool) ≡ length pool
unfolding jev_candidate_ids
jev_candidate_ids-length pool = names_after-length pool []

resolve_vision-server :
    (vision : Capability) (store : Config) (c : JevCandidate)
    → (resolve_vision vision store c).server_id ≡ c.server_id
unfolding resolve_vision
resolve_vision-server vision store c = elim (Option-cases c.vision) [
  | inr (v, e) ↦ rw (resolve_vision, e) refl
  | inl e ↦ elim (Bool-cases (is_empty c.target_model)) [
    | inl f ↦ rw (resolve_vision, e, f) refl
    | inr f ↦ elim (Option-cases (get_server store c.server_id)) [
      | inl g ↦ rw (resolve_vision, e, f, g) refl
      | inr (srv, g) ↦ rw (resolve_vision, e, f, g) refl
    ]
  ]
]

resolve_vision_pool-Usable :
    (vision : Capability) (store : Config) (pool : Pool)
    → AllKnown store pool
    → AllKnown store (resolve_vision_pool vision store pool)
      × (length (resolve_vision_pool vision store pool) ≡ length pool)
unfolding resolve_vision_pool
resolve_vision_pool-Usable vision store [] h = (tt, refl)
resolve_vision_pool-Usable vision store (c ∷ cs) (k, h) =
    let (known, same) = resolve_vision_pool-Usable vision store cs h in
    (
      (
        subst (λ id. is_some (get_server store id) ≡ true)
            (sym (resolve_vision-server vision store c)) k,
        known,
      ),
      ap suc same,
    )

unless_empty-Usable :
    (store : Config) (filtered pool : Pool)
    → AllKnown store filtered
    → Usable store pool
    → Usable store (unless_empty filtered pool)
unfolding unless_empty
unless_empty-Usable store [] pool h k = k
unless_empty-Usable store (c ∷ cs) pool h k = (omega arith, h)

text_pool-Usable :
    (audio : Capability) (store : Config) (pool : Pool)
    → Usable store pool
    → Usable store (text_pool audio store pool)
unfolding text_pool jev_audio_pool
text_pool-Usable audio store pool (n, h) =
    let heard = jev_audio_pool audio store pool in
    let known =
      All-select (λ (c : JevCandidate). is_some (get_server store c.server_id) ≡ true)
        (λ c. not (is_audio audio store c)) pool h in
    elim (Bool-cases (ltb 0 (length heard) && ltb (length heard) (length pool))) [
      | inl e ↦ rw (text_pool, e) (ground (arith, e), known)
      | inr e ↦ rw (text_pool, e) (n, h)
    ]

sighted_pool-Usable :
    (vision : Capability) (store : Config) (images : List String) (pool : Pool)
    → Usable store pool
    → Usable store (sighted_pool vision store images pool)
unfolding sighted_pool jev_vision_pool
sighted_pool-Usable vision store [] pool h = h
sighted_pool-Usable vision store (i ∷ is) pool (n, h) =
    let resolved = resolve_vision_pool vision store pool in
    let (known, same) = resolve_vision_pool-Usable vision store pool h in
    unless_empty-Usable store (jev_vision_pool resolved) resolved
      (All-select (λ (c : JevCandidate). is_some (get_server store c.server_id) ≡ true) may_see
        resolved known)
      (omega (arith, same, n), known)

pub usable_pool-Usable :
    (audio vision : Capability) (store : Config) (req : JevRequest) (pool : Pool)
    → Usable store pool
    → Usable store (usable_pool audio vision store req pool)
unfolding usable_pool
usable_pool-Usable audio vision store req pool h =
    sighted_pool-Usable vision store req.images (text_pool audio store pool)
      (text_pool-Usable audio store pool h)
