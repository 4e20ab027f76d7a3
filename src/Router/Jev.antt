-- ===== src/Router/Jev.antt =====
-- router/jev.go: the pool of a jev rule, and the candidates in it by tier.
pub mod Memory
pub mod Decision
pub mod Tiers
pub mod Clamp
pub mod Confidence
pub mod Attempts
pub mod Ordering
pub mod Verdicts
pub mod Usable
pub mod FailOpen
pub mod Pinning
mod Tests
use Prim.Native.String.{◌++◌ as append}
use llm_api_router.Prelude.{
  ℕ, zero, suc, ◌+◌, ◌^◌, ◌-◌, ℤ, pos, negsuc, String, Bool, true, not, ◌&&◌, ◌||◌, Option, none,
  some, List, [], ◌∷◌, any, select, length, get_elem?, is_empty, str_eq, ltb_ℤ, leb_ℤ, eqb_ℤ, add64,
  sub64, if◌then◌else◌,
}
use llm_api_router.Domain.Server.{Server}
use llm_api_router.Domain.Rule.{JevCandidate, Float64}
use llm_api_router.Domain.Settings.{Config}
use llm_api_router.Config.Store.{get_server}

-- The decision for one request.
pub record JevOutcome : Type 0 where
  pub choice : String
  pub confidence : Float64
  pub latency_ms : ℤ
  pub model : String
  pub reason : String
  pub input_tokens : ℤ
  pub output_tokens : ℤ
  pub scores : String

abbrev pub Pool : Type 0
Pool = List JevCandidate

-- What a backend reports of a model: `none` where it says nothing.
abbrev pub Capability : Type 0
Capability = Server → String → Option Bool

-- The names of a pool, past names that are taken.
abbrev pub own_name : JevCandidate → String
own_name c = if is_empty c.target_model then c.server_id else c.target_model

unfoldable pub names_after : List String → Pool → List String
names_after seen [] = []
names_after seen (c ∷ cs) =
    let id =
      if any (str_eq (own_name c)) seen
      then append (append (own_name c) "@") c.server_id
      else own_name c in
    id ∷ names_after (id ∷ seen) cs

unfoldable pub jev_candidate_ids : Pool → List String
unfolding names_after
jev_candidate_ids pool = names_after [] pool

unfoldable pub may_see : JevCandidate → Bool
may_see c = elim c.vision [ none ↦ true | some v ↦ v ]

unfoldable pub jev_vision_pool : Pool → Pool
unfolding may_see
jev_vision_pool pool = select may_see pool

abbrev pub says : Bool → Option Bool → Bool
says default none = default
says default (some b) = b

-- Whether a backend reports a candidate as an audio model.
unfoldable pub is_audio : Capability → Config → JevCandidate → Bool
is_audio audio store c = elim (get_server store c.server_id) [
  | none ↦ Bool.false
  | some srv ↦ not (is_empty c.target_model) && says Bool.false (audio srv c.target_model)
]

unfoldable pub jev_audio_pool : Capability → Config → Pool → Pool
unfolding is_audio
jev_audio_pool audio store pool = select (λ c. not (is_audio audio store c)) pool

-- The vision flag of a candidate, from what its backend reports where it is not set.
unfoldable pub resolve_vision : Capability → Config → JevCandidate → JevCandidate
resolve_vision vision store c = elim c.vision [
  | some v ↦ c
  | none ↦ if is_empty c.target_model then c else elim (get_server store c.server_id) [
    | none ↦ c
    | some srv ↦ record c { vision = vision srv c.target_model }
  ]
]

unfoldable pub resolve_vision_pool : Capability → Config → Pool → Pool
unfolding resolve_vision
resolve_vision_pool vision store [] = []
resolve_vision_pool vision store (c ∷ cs) =
    resolve_vision vision store c ∷ resolve_vision_pool vision store cs

-- `pool[i].Tier`; an index is one of the pool.
unfoldable pub tier_at : Pool → ℕ → ℤ
tier_at [] i = pos 0
tier_at (c ∷ cs) zero = c.tier
tier_at (c ∷ cs) (suc i) = tier_at cs i

unfoldable pub abs : ℤ → ℤ
abs n = if ltb_ℤ n (pos 0) then sub64 (pos 0) n else n

-- The distance of a tier, twice as far where it is above.
unfoldable pub distance : ℤ → ℤ → ℤ
unfolding abs
distance c tier = let gap = abs (sub64 c tier) in if ltb_ℤ tier c then add64 gap gap else gap

-- The index of the best candidate so far and its distance; -1 is none.
unfoldable pub nearer : ℕ → ℤ → ℕ × ℤ → ℕ × ℤ
nearer i dist best = if ltb_ℤ best.1 (pos 0) || ltb_ℤ dist best.1 then (i, dist) else best

-- The loop of `jevTierIndex`, from an index on.
unfoldable pub tier_index_from : ℕ → ℕ × ℤ → Pool → ℤ → ℕ
tier_index_from i best [] tier = best.0
tier_index_from i best (c ∷ cs) tier =
    let rest = tier_index_from (suc i) (nearer i (distance c.tier tier) best) cs tier in
    if eqb_ℤ c.tier tier then i else rest

unfoldable pub jev_tier_index : Pool → ℤ → ℕ
unfolding tier_index_from
jev_tier_index pool tier = tier_index_from 0 (0, negsuc 0) pool tier

abbrev pub no_tier : ℤ
no_tier = negsuc (2 ^ 31 - 1)

-- The index of the highest candidate at or below the ceiling so far, and its tier.
unfoldable pub higher : ℕ → ℤ → ℤ → ℕ × ℤ → ℕ × ℤ
higher i tier ceiling best = if leb_ℤ tier ceiling && ltb_ℤ best.1 tier then (i, tier) else best

-- The loop of `jevNearestIndex`, from an index on.
unfoldable pub highest_from : ℕ → ℕ × ℤ → Pool → ℤ → ℕ × ℤ
highest_from i best [] ceiling = best
highest_from i best (c ∷ cs) ceiling =
    highest_from (suc i) (higher i c.tier ceiling best) cs ceiling

unfoldable pub jev_nearest_index : Pool → ℤ → ℕ
unfolding highest_from
jev_nearest_index pool ceiling =
    let (best, best_tier) = highest_from 0 (0, no_tier) pool ceiling in
    if ltb_ℤ no_tier best_tier then best else jev_tier_index pool ceiling
