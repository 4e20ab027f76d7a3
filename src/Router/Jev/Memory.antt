-- ===== src/Router/Jev/Memory.antt =====
-- router/jev.go: the cache of decisions, and the candidate that a conversation is pinned to.
use Prim.Native.String.{◌++◌ as append}
use llm_api_router.Prelude.{
  ℕ, suc, ◌+◌, ◌-◌, ◌*◌, ◌^◌, ℤ, pos, negsuc, pos_part, String, Option, none, some, List, [], ◌∷◌,
  Assoc, not, ◌||◌, ltb, leb, length, is_empty, is_pos, lookup, insert, delete, retain, wrap64,
  if◌then◌else◌,
}
use llm_api_router.Router.Jev.{JevOutcome}

pub record JevCacheEntry : Type 0 where
  pub outcome : JevOutcome
  pub expires : ℕ

pub record JevStickyEntry : Type 0 where
  pub choice : String
  pub expires : ℕ

-- The two maps of the router that its mutex `jevMu` guards.
pub record JevMemory : Type 0 where
  pub cache : Assoc JevCacheEntry
  pub sticky : Assoc JevStickyEntry

abbrev pub jev_cache_sweep_at : ℕ
jev_cache_sweep_at = 4096

-- Nanoseconds.
abbrev pub jev_sticky_ttl : ℕ
jev_sticky_ttl = 30 * 60 * 10 ^ 9

-- `time.Duration(s) * time.Second`.
unfoldable pub seconds : ℤ → ℤ
unfolding wrap64
seconds (pos n) = wrap64 (pos (n * 10 ^ 9))
seconds (negsuc n) = wrap64 (negsuc (suc n * 10 ^ 9 - 1))

unfoldable pub joined : String → List String → String
joined sep [] = ""
joined sep (s ∷ []) = s
joined sep (s ∷ t ∷ ss) = append s (append sep (joined sep (t ∷ ss)))

-- The key of a decision: the SHA-256 of its parts, each ended by a zero byte, in hexadecimal. The
-- digest is a parameter.
unfoldable pub jev_cache_key :
    (List String → String) → String → String → List String → String → List String → String
unfolding joined
jev_cache_key digest model question ids text images =
    digest (model ∷ question ∷ joined "," ids ∷ text ∷ joined "\0" images ∷ [])

unfoldable pub jev_cache_get : JevMemory → ℕ → String → JevMemory × Option JevOutcome
jev_cache_get m now key = if is_empty key then (m, none) else elim (lookup key m.cache) [
  | none ↦ (m, none)
  | some e ↦
      if ltb e.expires now
      then (record m { cache = delete key m.cache }, none)
      else (m, some e.outcome)
]

-- The entries that are not expired, where the map is full.
unfoldable pub swept_cache : ℕ → Assoc JevCacheEntry → Assoc JevCacheEntry
swept_cache now cache =
    if leb jev_cache_sweep_at (length cache)
    then retain (λ k e. not (ltb e.expires now)) cache
    else cache

unfoldable pub jev_cache_put : JevMemory → ℕ → String → JevOutcome → ℤ → JevMemory
unfolding swept_cache
jev_cache_put m now key out ttl = if is_empty key || not (is_pos ttl) then m else record m {
  cache =
      insert key (record { outcome = out; expires = now + pos_part ttl }) (swept_cache now m.cache);
}

-- "" is no pin.
unfoldable pub jev_sticky_get : JevMemory → ℕ → String → JevMemory × String
jev_sticky_get m now key = if is_empty key then (m, "") else elim (lookup key m.sticky) [
  | none ↦ (m, "")
  | some e ↦
      if ltb e.expires now then (record m { sticky = delete key m.sticky }, "") else (m, e.choice)
]

unfoldable pub swept_sticky : ℕ → Assoc JevStickyEntry → Assoc JevStickyEntry
swept_sticky now sticky =
    if leb jev_cache_sweep_at (length sticky)
    then retain (λ k e. not (ltb e.expires now)) sticky
    else sticky

unfoldable pub jev_sticky_put : JevMemory → ℕ → String → String → JevMemory
unfolding swept_sticky
jev_sticky_put m now key choice = if is_empty key || is_empty choice then m else record m {
  sticky =
      insert key (record { choice = choice; expires = now + jev_sticky_ttl })
        (swept_sticky now m.sticky);
}
