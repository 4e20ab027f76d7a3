-- ===== src/Domain/Metric.antt =====
-- domain/metric.go: status classes and the cumulative latency histogram.
use llm_api_router.Prelude.{
  ℕ, suc, ◌+◌, List, [], ◌∷◌, leb, ltb, ◌==◌, replicate, length, if◌then◌else◌, Option, none, some,
  Bool,
}

abbrev pub latency_buckets_ms : List ℕ
latency_buckets_ms =
    50 ∷ 100 ∷ 250 ∷ 500 ∷ 1000 ∷ 2500 ∷ 5000 ∷ 10000 ∷ 30000 ∷ 60000 ∷ 120000 ∷ 300000 ∷ []

pub data StatusClass : Type 0 where
  transport class_2xx class_3xx class_4xx class_5xx : StatusClass

-- An HTTP status is at most three digits, so it is a natural number; 0 is "no response".
unfoldable pub status_class : ℕ → StatusClass
status_class status =
    if status == 0
    then transport
    else if ltb status 300
    then class_2xx
    else if ltb status 400
    then class_3xx
    else if ltb status 500
    then class_4xx
    else class_5xx

-- The loop over the bounds, which ends at the last slot, the one without a bound.
unfoldable pub bump_buckets : List ℕ → List ℕ → ℕ → List ℕ
bump_buckets [] [] ms = []
bump_buckets [] (b ∷ bs) ms = suc b ∷ bs
bump_buckets (bound ∷ bounds) [] ms = []
bump_buckets (bound ∷ bounds) (b ∷ bs) ms =
    (if leb ms bound then suc b else b) ∷ bump_buckets bounds bs ms

-- `none` is a nil slice. A latency is a difference of two clock readings, never negative.
unfoldable pub add_latency_bucket : Option (List ℕ) → ℕ → List ℕ
unfolding bump_buckets
add_latency_bucket none ms =
    bump_buckets latency_buckets_ms (replicate (length latency_buckets_ms + 1) 0) ms
add_latency_bucket (some buckets) ms = bump_buckets latency_buckets_ms buckets ms

abbrev class_index : StatusClass → ℕ
class_index transport = 0
class_index class_2xx = 1
class_index class_3xx = 2
class_index class_4xx = 3
class_index class_5xx = 4

abbrev pub is_class : StatusClass → StatusClass → Bool
is_class c d = class_index c == class_index d
