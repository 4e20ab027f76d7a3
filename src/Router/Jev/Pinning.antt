-- ===== src/Router/Jev/Pinning.antt =====
-- What the router remembers of its decisions, until it expires.
use llm_api_router.Prelude.{
  ℕ, ◌+◌, ◌≤◌, ℤ, pos_part, Bool, ltb_ℤ, String, ◌≡◌, refl, sym, ap, ◌∙◌, true, false, some, arith,
  ltb, is_empty, is_pos, insert, lookup-insert_self,
}
use llm_api_router.Router.Jev.{JevOutcome, Pool, tier_at}
use llm_api_router.Router.Jev.Memory.{
  JevMemory, JevCacheEntry, jev_cache_get, jev_cache_put, swept_cache,
}

-- Until it expires, a decision that is put in the cache is the one that its key gives, and the
-- memory stays as it is.
pub jev_cache_get-put :
    (m : JevMemory) (now later : ℕ) (key : String) (out : JevOutcome) (ttl : ℤ)
    → is_empty key ≡ false
    → is_pos ttl ≡ true
    → later ≤ now + pos_part ttl
    → jev_cache_get (jev_cache_put m now key out ttl) later key
      ≡ (jev_cache_put m now key out ttl, some out)
unfolding jev_cache_get jev_cache_put
jev_cache_get-put m now later key out ttl named lasts h =
    let cache = swept_cache now m.cache in
    let fresh : ltb (now + pos_part ttl) later ≡ false = ground (arith, h) in
    let entry : JevCacheEntry = record { outcome = out; expires = now + pos_part ttl } in
    let stored : jev_cache_put m now key out ttl ≡ record m { cache = insert key entry cache } =
      rw (jev_cache_put, named, lasts) refl in
    let got : jev_cache_get (record m { cache = insert key entry cache }) later key
        ≡ (record m { cache = insert key entry cache }, some out) =
      rw (jev_cache_get, named, lookup-insert_self key entry cache, fresh) refl in
    ap (λ r. jev_cache_get r later key) stored ∙ got ∙ ap (λ r. (r, some out)) (sym stored)

-- A candidate of a lower tier than another.
abbrev pub is_weaker : Pool → ℕ → ℕ → Bool
is_weaker pool a b = ltb_ℤ (tier_at pool a) (tier_at pool b)
