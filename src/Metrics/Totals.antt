-- ===== src/Metrics/Totals.antt =====
-- What the summary of a key says of the requests counted under it.
use llm_api_router.Prelude.{
  ℕ, ◌+◌, ◌≡◌, refl, sym, ap, ◌∙◌, String, Bool, true, false, Option, none, some, List, [], ◌∷◌,
  ◌++◌, ◌≢◌, arith, ltb, str_eq, str_eq→eq, eq_iff, lookup, lookup_or, lookup_or-insert_self,
  lookup_or-insert_ne, insert, Assoc, if◌then◌else◌, Bool-cases, inl, inr, subst,
}
use mathlib.Core.List.{append-nil, append_assoc}
use llm_api_router.Domain.Metric.{
  StatusClass, status_class, is_class, bump_buckets, add_latency_bucket, latency_buckets_ms,
}
use llm_api_router.Metrics.Counts.{
  how_many, sum_of, peak_of, histogram, how_many-snoc, sum_of-snoc, peak_of-snoc,
  bump_buckets-histogram,
}
use llm_api_router.Metrics.{
  RequestMetric, Summary, Store, no_requests, new_metrics, is_success, update_summary, update_at,
  update_all, keys_of, add_metric,
}

abbrev latency_of : RequestMetric → ℕ
latency_of m = m.latency_ms

abbrev fell_back : RequestMetric → Bool
fell_back m = m.was_fallback

abbrev in_class : StatusClass → RequestMetric → Bool
in_class c m = is_class c (status_class m.status_code)

-- A nil slice stands for the histogram of no requests.
abbrev pub Spread : Option (List ℕ) → List RequestMetric → Type 0
Spread none ms = ms ≡ []
Spread (some buckets) ms = buckets ≡ histogram latency_of latency_buckets_ms ms

pub record IsTally (sum : Summary) (ms : List RequestMetric) : Type 0 where
  pub counted : sum.total_requests ≡ how_many (λ _. true) ms
  pub succeeded : sum.success_count ≡ how_many is_success ms
  pub split_up : sum.success_count + sum.error_count ≡ sum.total_requests
  pub fallbacks : sum.fallback_count ≡ how_many fell_back ms
  pub classes : (c : StatusClass) → sum.status_class_count c ≡ how_many (in_class c) ms
  pub time : sum.latency_ms_sum ≡ sum_of latency_of ms
  pub slowest : sum.max_latency_ms ≡ peak_of latency_of ms
  pub spread : Spread sum.latency_ms_buckets ms

add_latency_bucket-Spread :
    (buckets : Option (List ℕ)) (ms : List RequestMetric) (m : RequestMetric)
    → Spread buckets ms
    → Spread (some (add_latency_bucket buckets m.latency_ms)) (ms ++ m ∷ [])
unfolding add_latency_bucket
add_latency_bucket-Spread none ms m h =
    bump_buckets-histogram latency_of latency_buckets_ms [] m
    ∙ ap (λ l. histogram latency_of latency_buckets_ms (l ++ m ∷ [])) (sym h)
add_latency_bucket-Spread (some buckets) ms m h =
    ap (λ l. bump_buckets latency_buckets_ms l m.latency_ms) h
    ∙ bump_buckets-histogram latency_of latency_buckets_ms ms m

bump : (b : Bool) (n k : ℕ) → n ≡ k → (if b then n + 1 else n) ≡ (if b then k + 1 else k)
bump b n k h = ap (λ x. if b then x + 1 else x) h

split_step :
    (b : Bool) (s e n : ℕ) → s + e ≡ n → (if b then s + 1 else s) + (if b then e else e + 1) ≡ n + 1
split_step true s e n h = omega (arith, h)
split_step false s e n h = omega (arith, h)

update_summary-IsTally :
    (sum : Summary) (ms : List RequestMetric) (m : RequestMetric)
    → IsTally sum ms
    → IsTally (update_summary sum m) (ms ++ m ∷ [])
unfolding update_summary
update_summary-IsTally sum ms m v = record {
  counted = ap (λ n. n + 1) v.counted ∙ sym (how_many-snoc (λ _. true) ms m);
  succeeded =
      bump (is_success m) sum.success_count (how_many is_success ms) v.succeeded
      ∙ sym (how_many-snoc is_success ms m);
  split_up = split_step (is_success m) sum.success_count sum.error_count _ v.split_up;
  fallbacks =
      bump m.was_fallback sum.fallback_count (how_many fell_back ms) v.fallbacks
      ∙ sym (how_many-snoc fell_back ms m);
  classes = λ c.
      bump (in_class c m) (sum.status_class_count c) (how_many (in_class c) ms) (v.classes c)
      ∙ sym (how_many-snoc (in_class c) ms m);
  time = ap (λ n. n + m.latency_ms) v.time ∙ sym (sum_of-snoc latency_of ms m);
  slowest =
      ap (λ n. if ltb n m.latency_ms then m.latency_ms else n) v.slowest
      ∙ sym (peak_of-snoc latency_of ms m);
  spread = add_latency_bucket-Spread sum.latency_ms_buckets ms m v.spread;
}

no_requests-IsTally : IsTally no_requests []
no_requests-IsTally = record {
  counted = refl;
  succeeded = refl;
  split_up = refl;
  fallbacks = refl;
  classes = λ c. refl;
  time = refl;
  slowest = refl;
  spread = refl;
}

-- The requests that were counted under a key, once for each time that `Add` counts them there.
abbrev pub counted_under : String → List String → RequestMetric → List RequestMetric
counted_under key [] m = []
counted_under key (k ∷ ks) m = (if str_eq k key then m ∷ [] else []) ++ counted_under key ks m

abbrev pub requests_of : String → List RequestMetric → List RequestMetric
requests_of key [] = []
requests_of key (m ∷ ms) = counted_under key (keys_of m) m ++ requests_of key ms

abbrev pub add_all : Store → List RequestMetric → Store
add_all s [] = s
add_all s (m ∷ ms) = add_all (add_metric s m) ms

abbrev Tallied : String → Assoc Summary → List RequestMetric → Type 0
Tallied key sums ms = IsTally (lookup_or key no_requests sums) ms

update_at-Tallied :
    (key k : String) (sums : Assoc Summary) (ms : List RequestMetric) (m : RequestMetric)
    → Tallied key sums ms
    → Tallied key (update_at sums k m) (ms ++ (if str_eq k key then m ∷ [] else []))
unfolding update_at
update_at-Tallied key k sums ms m v = elim (Bool-cases (str_eq k key)) [
  | inl e ↦
      let same : k ≡ key = str_eq→eq k key e in
      let next : Summary = update_summary (lookup_or k no_requests sums) m in
      let here : lookup_or key no_requests (insert k next sums) ≡ next =
        ap (λ j. lookup_or j no_requests (insert k next sums)) (sym same)
        ∙ lookup_or-insert_self k no_requests next sums in
      let start : Tallied k sums ms = subst (λ j. Tallied j sums ms) (sym same) v in
      let more : (if str_eq k key then m ∷ [] else []) ≡ m ∷ [] =
        ap (λ (b : Bool). if b then m ∷ [] else []) e in
      subst (λ s. IsTally s (ms ++ (if str_eq k key then m ∷ [] else []))) (sym here)
        (subst (λ l. IsTally next (ms ++ l)) (sym more)
          (update_summary-IsTally (lookup_or k no_requests sums) ms m start))
  | inr e ↦
      let other : k ≢ key = ground (arith, e, eq_iff k key) in
      let next : Summary = update_summary (lookup_or k no_requests sums) m in
      let there = lookup_or-insert_ne k key no_requests next sums other in
      let none_more : (if str_eq k key then m ∷ [] else []) ≡ [] =
        ap (λ (b : Bool). if b then m ∷ [] else []) e in
      let same_ms = ap (λ l. ms ++ l) none_more ∙ append-nil ms in
      subst (λ s. IsTally s (ms ++ (if str_eq k key then m ∷ [] else []))) (sym there)
        (subst (λ l. IsTally (lookup_or key no_requests sums) l) (sym same_ms) v)
]

update_all-Tallied :
    (key : String) (keys : List String) (sums : Assoc Summary) (ms : List RequestMetric)
    (m : RequestMetric)
    → Tallied key sums ms
    → Tallied key (update_all sums keys m) (ms ++ counted_under key keys m)
update_all-Tallied key [] sums ms m v = subst (λ l. Tallied key sums l) (sym (append-nil ms)) v
update_all-Tallied key (k ∷ ks) sums ms m v =
    let one : List RequestMetric = if str_eq k key then m ∷ [] else [] in
    subst (λ l. Tallied key (update_all sums (k ∷ ks) m) l)
      (append_assoc ms one (counted_under key ks m))
      (update_all-Tallied key ks (update_at sums k m) (ms ++ one) m
        (update_at-Tallied key k sums ms m v))

add_all-Tallied :
    (key : String) (s : Store) (old ms : List RequestMetric)
    → Tallied key s.summaries old
    → Tallied key (add_all s ms).summaries (old ++ requests_of key ms)
unfolding add_metric
add_all-Tallied key s old [] v = subst (λ l. Tallied key s.summaries l) (sym (append-nil old)) v
add_all-Tallied key s old (m ∷ ms) v =
    let these : List RequestMetric = counted_under key (keys_of m) m in
    subst (λ l. Tallied key (add_all s (m ∷ ms)).summaries l)
      (append_assoc old these (requests_of key ms))
      (add_all-Tallied key (add_metric s m) (old ++ these) ms
        (update_all-Tallied key (keys_of m) s.summaries old m v))

-- After any requests, the summary of a key is a true account of the requests that have it among
-- their keys, in number, successes, errors, fallbacks, requests of each status class, time spent
-- and slowest, and each slot of its latency histogram counts those within its bound, the last
-- slot all of them.
pub add_all-IsTally :
    (zero_metric : RequestMetric) (max_recent : ℕ) (key : String) (ms : List RequestMetric)
    → IsTally
        (lookup_or key no_requests (add_all (new_metrics zero_metric max_recent) ms).summaries)
        (requests_of key ms)
unfolding new_metrics lookup_or lookup
add_all-IsTally zero_metric max_recent key ms =
    add_all-Tallied key (new_metrics zero_metric max_recent) [] ms no_requests-IsTally
