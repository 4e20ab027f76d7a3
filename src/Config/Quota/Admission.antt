-- ===== src/Config/Quota/Admission.antt =====
-- Who is admitted: the boundary of the limits, and what an admission promises.
use llm_api_router.Prelude.{
  ℕ, ℤ, pos, ◌+ℤ◌, String, ◌≡◌, true, false, ◌||◌, ◌&&◌, not, arith, is_pos, leb_ℤ, add64,
  add64_exact, ltb_ℤ, max_int64, ◌<◌, ◌^◌, InInt64, length, lookup_or-insert_self, if◌then◌else◌,
}
use llm_api_router.Config.Quota.{QuotaTracker, limits_for, allow, reserve, used_tokens, held, times}

-- A server is refused exactly when one of the limits that it has is reached.
allow_boundary :
    (q : QuotaTracker) (now : ℕ) (id : String)
    → (allow q now id).1
      ≡ not (
          (is_pos (limits_for q id).1 && leb_ℤ (limits_for q id).1 (pos (length (times q now id))))
          || (is_pos (limits_for q id).0 && leb_ℤ (limits_for q id).0 (used_tokens q now id)))
unfolding allow
allow_boundary q now id = ground arith

-- With counts that do not leave int64, a budget that a limited server admits keeps its usage and
-- everything held within the limit, and is held in full; a refused one leaves what is held alone.
pub reserve_within_limit :
    (q : QuotaTracker) (now : ℕ) (id : String) (estimate : ℤ)
    → is_pos estimate ≡ true
    → is_pos (limits_for q id).0 ≡ true
    → InInt64 (used_tokens q now id +ℤ held q id)
    → InInt64 (used_tokens q now id +ℤ held q id +ℤ estimate)
    → InInt64 (held q id +ℤ estimate)
    → ((reserve q now id estimate).1
        ≡ leb_ℤ (used_tokens q now id +ℤ held q id +ℤ estimate) (limits_for q id).0)
      × (held (reserve q now id estimate).0 id
          ≡ (if (reserve q now id estimate).1 then held q id +ℤ estimate else held q id))
unfolding reserve
reserve_within_limit q now id estimate p l a b c =
    let u = used_tokens q now id in
    let h = held q id in
    let e1 = add64_exact u h a in
    let e2 = add64_exact (u +ℤ h) estimate b in
    let e3 = add64_exact h estimate c in
    (
      ground (arith, e1, e2, e3),
      ground (arith, e1, e2, e3, lookup_or-insert_self id (pos 0) (h +ℤ estimate) q.reserved),
    )

sum_wraps :
    (busy : ℕ) (tpm : ℤ)
    → 0 < busy
    → busy < 2 ^ 63
    → is_pos tpm ≡ true
    → ltb_ℤ tpm (add64 (pos busy) max_int64) ≡ false
unfolding add64
sum_wraps busy (pos n) h b p = ground arith
sum_wraps busy (ℤ.negsuc n) h b p = cc

-- A limited server with usage or budgets in flight admits the largest int64 as a budget, however
-- far that is above its limit: the sum wraps to a negative number.
pub reserve_wraps :
    (q : QuotaTracker) (now : ℕ) (id : String) (busy : ℕ)
    → is_pos (limits_for q id).0 ≡ true
    → add64 (used_tokens q now id) (held q id) ≡ pos busy
    → 0 < busy
    → busy < 2 ^ 63
    → (reserve q now id max_int64).1 ≡ true
unfolding reserve
reserve_wraps q now id busy l s h b = ground (arith, s, sum_wraps busy (limits_for q id).0 h b l)
