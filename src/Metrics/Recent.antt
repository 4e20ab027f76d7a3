-- ===== src/Metrics/Recent.antt =====
-- The recent requests: the ring is that of the trace store.
use llm_api_router.Prelude.{
  ℕ, ◌<◌, ◌≡◌, refl, ap, ◌∙◌, List, [], ◌∷◌, ◌==◌, ltb, true, false, none, pos, arith, Bool-cases,
  inl, inr,
}
use llm_api_router.Domain.Settings.{TraceSettings}
use llm_api_router.Trace.Store.{Store as Ring, new_store, add, list}
use llm_api_router.Trace.Store.Ring.{last_of, adds, list-adds}
use llm_api_router.Metrics.{RequestMetric, Store, new_metrics, add_metric, recent}
use llm_api_router.Metrics.Totals.{add_all}

abbrev ring_of : Store → Ring RequestMetric
ring_of s = record {
  entries = s.recent_requests;
  ring_idx = s.ring_index;
  count = s.ring_count;
  max = s.max_recent;
  enabled = false;
  expires_at = none;
  models = [];
  servers = [];
}

abbrev untraced : TraceSettings
untraced = record { enabled = false; seconds = pos 0; models = []; servers = [] }

recent-list : (s : Store) → 0 < s.max_recent → recent s ≡ list (ring_of s)
unfolding recent list
recent-list s h = elim (Bool-cases (s.ring_count == 0)) [
  | inl e ↦
      let empty : s.ring_count ≡ 0 = ground (arith, e) in
      let room : ltb s.ring_count s.max_recent ≡ true = ground (arith, h, empty) in
      rw (e, room, empty) refl
  | inr e ↦ rw e refl
]

ring_of-add_all :
    (s : Store) (ms : List RequestMetric) → ring_of (add_all s ms) ≡ adds (ring_of s) ms
unfolding add_metric add
ring_of-add_all s [] = refl
ring_of-add_all s (m ∷ ms) = ring_of-add_all (add_metric s m) ms

max_recent-add_all :
    (s : Store) (ms : List RequestMetric) → (add_all s ms).max_recent ≡ s.max_recent
unfolding add_metric
max_recent-add_all s [] = refl
max_recent-add_all s (m ∷ ms) = max_recent-add_all (add_metric s m) ms

-- A store with room for `max_recent` requests, at least one, gives the last `max_recent` of the
-- requests added to it, in the order in which they were added.
pub recent-add_all :
    (zero_metric : RequestMetric) (max_recent : ℕ) (ms : List RequestMetric)
    → 0 < max_recent
    → recent (add_all (new_metrics zero_metric max_recent) ms) ≡ last_of max_recent ms
unfolding new_metrics new_store
recent-add_all zero_metric max_recent ms h =
    let end : Store = add_all (new_metrics zero_metric max_recent) ms in
    let room : 0 < end.max_recent =
      omega (arith, h, max_recent-add_all (new_metrics zero_metric max_recent) ms) in
    recent-list end room
    ∙ ap list (ring_of-add_all (new_metrics zero_metric max_recent) ms)
    ∙ list-adds zero_metric 0 max_recent untraced ms h
