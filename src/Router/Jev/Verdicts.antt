-- ===== src/Router/Jev/Verdicts.antt =====
-- How a decision may end: what it blocks, and that it chooses from the pool.
use llm_api_router.Prelude.{
  ℕ, ◌<◌, ℤ, String, ◌≡◌, refl, Bool, true, ◌&&◌, ◌||◌, Option, none, some, List, [], ◌∷◌, arith,
  length, find_idx?, is_empty, is_pos, str_eq, str_eq→eq, contains, if◌then◌else◌, Bool-cases,
  Option-cases, ◌⊎◌, inl, inr,
}
use llm_api_router.Domain.Server.{Server}
use llm_api_router.Domain.Rule.{JevRouter}
use llm_api_router.Domain.Settings.{Config}
use llm_api_router.Config.Store.{get_server}
use llm_api_router.Router.Jev.{JevOutcome, Pool}
use llm_api_router.Router.Jev.Memory.{JevMemory, jev_cache_get, jev_sticky_get, jev_cache_key}
use llm_api_router.Router.Jev.Decision.{
  Ask, JevRequest, JevResponse, JevAnswer, Decision, Verdict, blocked, chosen, answer, harmful,
  index_in, take_answer, take_reply, decide_live, decide_cached, decide_new, decide_pinned, decide,
  query_of, sent_images, is_nil, jev_default_question,
}

-- What a decision on `n` candidates may be: to block, where the rule has a security gate or a
-- cache, or a candidate of the pool, or none.
abbrev pub VerdictOk : JevRouter → ℕ → Verdict → String → Type 0
VerdictOk j n blocked reason =
    (reason ≡ "blocked") × ((j.security ≡ true) ⊎ (is_pos j.cache_ttl ≡ true))
VerdictOk j n (chosen none) reason = Unit
VerdictOk j n (chosen (some i)) reason = i < n

abbrev pub DecisionOk : JevRouter → ℕ → Decision → Type 0
DecisionOk j n d = VerdictOk j n d.verdict d.outcome.reason

find_idx?-lt {ℓ} :
    {A : Type ℓ} (p : A → Bool) (xs : List A) (i : ℕ) → find_idx? p xs ≡ some i → i < length xs
find_idx?-lt p [] i e = ground (arith, e)
find_idx?-lt p (x ∷ xs) i e = elim (Option-cases (find_idx? p xs)) [
  | inl f ↦ ground (arith, e, f)
  | inr (k, f) ↦ ground (arith, e, f, find_idx?-lt p xs k f)
]

index_in-Ok :
    (j : JevRouter) (ids : List String) (id reason : String)
    → VerdictOk j (length ids) (chosen (index_in ids id)) reason
index_in-Ok j ids id reason = found (index_in ids id) refl
  where
    found : (o : Option ℕ) → index_in ids id ≡ o → VerdictOk j (length ids) (chosen o) reason
    found none e = tt
    found (some i) e = find_idx?-lt (str_eq id) ids i e

take_answer-Ok :
    (m : JevMemory) (j : JevRouter) (req : JevRequest) (ids : List String) (key : String)
    (resp : JevResponse) (out : JevOutcome) (a : Option JevAnswer)
    → DecisionOk j (length ids) (take_answer m j req ids key resp out a)
unfolding take_answer
take_answer-Ok m j req ids key resp out none = tt
take_answer-Ok m j req ids key resp out (some a) =
    elim (Bool-cases (j.security && harmful (answer resp "security"))) [
      | inl e ↦ rw (take_answer, e) (refl, inl (ground (arith, e)))
      | inr e ↦
          rw (take_answer, e)
            (index_in-Ok j ids a.choice
              (elim (index_in ids a.choice) [ none ↦ "unknown-choice" | some i ↦ "jev" ]))
    ]

take_reply-Ok :
    (m : JevMemory) (j : JevRouter) (req : JevRequest) (ids : List String) (key : String)
    (out : JevOutcome) (reply : Option JevResponse × ℤ)
    → DecisionOk j (length ids) (take_reply m j req ids key out reply)
unfolding take_reply
take_reply-Ok m j req ids key out (none, ms) = tt
take_reply-Ok m j req ids key out (some resp, ms) =
    take_answer-Ok m j req ids key resp (record out { latency_ms = ms }) (answer resp "model")

decide_live-Ok :
    (ask : Ask) (m : JevMemory) (j : JevRouter) (req : JevRequest) (pool : Pool) (ids : List String)
    (key : String) (out : JevOutcome) (srv : Option Server)
    → DecisionOk j (length ids) (decide_live ask m j req pool ids key out srv)
unfolding decide_live
decide_live-Ok ask m j req pool ids key out none = tt
decide_live-Ok ask m j req pool ids key out (some srv) =
    take_reply-Ok m j req ids key out (ask srv (query_of j req pool ids))

decide_cached-Ok :
    (ask : Ask) (store : Config) (m : JevMemory) (j : JevRouter) (req : JevRequest) (pool : Pool)
    (ids : List String) (key : String) (out : JevOutcome) (hit : Option JevOutcome)
    → (hit ≡ none) ⊎ (is_pos j.cache_ttl ≡ true)
    → DecisionOk j (length ids) (decide_cached ask store m j req pool ids key out hit)
unfolding decide_cached
decide_cached-Ok ask store m j req pool ids key out none h =
    decide_live-Ok ask m j req pool ids key out (get_server store j.server_id)
decide_cached-Ok ask store m j req pool ids key out (some hit) h =
    elim (Bool-cases (str_eq hit.reason "blocked")) [
      | inl e ↦
          rw (decide_cached, e)
            (str_eq→eq hit.reason "blocked" e, elim h [ inl f ↦ ground (arith, f) | inr f ↦ inr f ])
      | inr e ↦
          rw (decide_cached, e)
            (index_in-Ok j ids hit.choice
              (elim (index_in ids hit.choice) [ none ↦ "cache-unknown" | some i ↦ "cache" ]))
    ]

module _ (digest : List String → String) (ask : Ask) where
  decide_new-Ok :
      (store : Config) (m : JevMemory) (j : JevRouter) (req : JevRequest) (pool : Pool)
      (ids : List String) (out : JevOutcome)
      → DecisionOk j (length ids) (decide_new digest ask store m j req pool ids out)
  unfolding decide_new
  decide_new-Ok store m j req pool ids out = elim (Bool-cases (is_pos j.cache_ttl)) [
    | inl e ↦
        let question = if is_empty j.question then jev_default_question else j.question in
        let key = jev_cache_key digest j.model question ids req.text (sent_images j req) in
        let found = jev_cache_get m req.now key in
        rw (decide_new, e)
          (decide_cached-Ok ask store found.0 j req pool ids key out found.1 (inr e))
    | inr e ↦
        rw (decide_new, e) (decide_cached-Ok ask store m j req pool ids "" out none (inl refl))
  ]

  decide_pinned-Ok :
      (j : JevRouter) (ids : List String) (out : JevOutcome) (found : JevMemory × String)
      → DecisionOk j (length ids) (decide_pinned ids out found)
  unfolding decide_pinned
  decide_pinned-Ok j ids out (m, pin) = elim (Bool-cases (is_empty pin)) [
    | inl e ↦ rw (decide_pinned, e) tt
    | inr e ↦ elim (Option-cases (index_in ids pin)) [
      | inl f ↦ rw (decide_pinned, e, f) tt
      | inr (i, f) ↦ rw (decide_pinned, e, f) (find_idx?-lt (str_eq pin) ids i f)
    ]
  ]

  pub decide-Ok :
      (store : Config) (m : JevMemory) (j : JevRouter) (req : JevRequest) (pool : Pool)
      (ids : List String) (out : JevOutcome)
      → DecisionOk j (length ids) (decide digest ask store m j req pool ids out)
  unfolding decide
  decide-Ok store m j req pool ids out =
      elim (Bool-cases (req.header_off || contains req.path "count_tokens")) [
        | inl e ↦ rw (decide, e) tt
        | inr e ↦ elim (Bool-cases (is_empty req.text && is_nil (sent_images j req))) [
          | inl f ↦
              rw (decide, e, f)
                (decide_pinned-Ok j ids out (jev_sticky_get m req.now req.session_key))
          | inr f ↦ rw (decide, e, f) (decide_new-Ok store m j req pool ids out)
        ]
      ]
