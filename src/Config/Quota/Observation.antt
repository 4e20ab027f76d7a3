-- ===== src/Config/Quota/Observation.antt =====
-- `Usage` filters the shared slices in place and stores neither back: what an observation does to
-- the counts that follow it.
use llm_api_router.Prelude.{
  ℕ, ◌+◌, ◌≤◌, ◌<◌, ℤ, pos, String, ◌≡◌, refl, ◌∙◌, ap, some, List, [], ◌∷◌, ◌++◌, arith, All,
  All-append, length, drop, add64, lookup, lookup_or, lookup_or-some, lookup_or-insert_self,
  All-of_append,
}
use llm_api_router.Prelude.Dict.{Assoc}
use llm_api_router.Config.Quota.{
  QuotaTracker, TokenEvent, window_60s, prune_events, sum_tokens, used_tokens, usage, in_place,
  overwrite,
}

abbrev IsLive : ℕ → TokenEvent → Type 0
IsLive now e = now < e.at + window_60s

prune_events_live :
    (now : ℕ) (evs : List TokenEvent) → All (IsLive now) evs → prune_events now evs ≡ evs
unfolding prune_events
prune_events_live now [] _ = refl
prune_events_live now (e ∷ evs) (h, k) = ground (arith, prune_events_live now evs k)

prune_events_old :
    (now : ℕ) (old : TokenEvent) (evs : List TokenEvent)
    → old.at + window_60s ≤ now
    → prune_events now (old ∷ evs) ≡ prune_events now evs
unfolding prune_events
prune_events_old now old evs h = ground arith

drop-shift {ℓ} :
    {A : Type ℓ} (x l : A) (xs : List A)
    → drop (length (xs ++ l ∷ [])) (x ∷ (xs ++ l ∷ [])) ≡ l ∷ []
drop-shift x l [] = refl
drop-shift x l (y ∷ ys) = drop-shift y l ys

sum_tokens-append :
    (used : ℤ) (evs : List TokenEvent) (e : TokenEvent)
    → sum_tokens used (evs ++ e ∷ []) ≡ add64 (sum_tokens used evs) e.tokens
unfolding sum_tokens
sum_tokens-append used [] e = refl
sum_tokens-append used (x ∷ evs) e = sum_tokens-append (add64 used x.tokens) evs e

-- What an observation leaves behind: the live events, and the newest of them once more.
overwritten :
    (now : ℕ) (id : String) (m : Assoc (List TokenEvent)) (old newest : TokenEvent)
    (between : List TokenEvent)
    → lookup id m ≡ some (old ∷ (between ++ newest ∷ []))
    → old.at + window_60s ≤ now
    → All (IsLive now) (between ++ newest ∷ [])
    → lookup_or id [] (overwrite (prune_events now) id m) ≡ (between ++ newest ∷ []) ++ newest ∷ []
unfolding overwrite in_place
overwritten now id m old newest between h o live =
    let evs = between ++ newest ∷ [] in
    let pruned = prune_events_old now old evs o ∙ prune_events_live now evs live in
    rw (h, overwrite)
      (lookup_or-insert_self id [] (in_place (prune_events now (old ∷ evs)) (old ∷ evs)) m
        ∙ rw (pruned) (ap (λ (t : List TokenEvent). evs ++ t) (drop-shift old newest between)))

-- If the oldest recorded event of a server has left the window and the others have not, then
-- looking at its usage makes the newest event count once more from then on.
pub used_tokens-usage :
    (q : QuotaTracker) (now : ℕ) (id : String) (old newest : TokenEvent) (between : List TokenEvent)
    → lookup id q.tokens ≡ some (old ∷ (between ++ newest ∷ []))
    → old.at + window_60s ≤ now
    → All (IsLive now) (between ++ newest ∷ [])
    → used_tokens (usage q now id).0 now id ≡ add64 (used_tokens q now id) newest.tokens
unfolding used_tokens usage
used_tokens-usage q now id old newest between h o live =
    let evs = between ++ newest ∷ [] in
    let pruned = prune_events_old now old evs o ∙ prune_events_live now evs live in
    let both =
      All-append (IsLive now) evs (newest ∷ []) live
        (All-of_append (IsLive now) between (newest ∷ []) live).1 in
    rw
      (
        overwritten now id q.tokens old newest between h o live,
        prune_events_live now (evs ++ newest ∷ []) both,
        lookup_or-some id [] (old ∷ evs) q.tokens h,
        pruned,
      )
      (sum_tokens-append (pos 0) evs newest)
