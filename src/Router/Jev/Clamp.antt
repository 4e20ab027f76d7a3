-- ===== src/Router/Jev/Clamp.antt =====
-- router/jev.go: the clamps on a decision, towards the default tier.
use llm_api_router.Prelude.{
  ℕ, ℤ, pos, Bool, not, ◌&&◌, Option, none, some, str_eq, ltb_ℤ, add64, if◌then◌else◌,
}
use llm_api_router.Domain.Rule.{JevRouter}
use llm_api_router.Domain.Float.{float_lt}
use llm_api_router.Router.Jev.{JevOutcome, Pool, tier_at, jev_tier_index, jev_nearest_index}
use llm_api_router.Router.Jev.Decision.{min_confidence_of}

abbrev pub jev_downgrade_max_context : ℤ
jev_downgrade_max_context = pos 20000

-- A choice, and the outcome that says why.
abbrev pub Choice : Type 0
Choice = ℕ × JevOutcome

-- An unsure choice: no step down from the default tier, and one step up at most.
unfoldable pub clamp_unsure : Pool → ℕ → ℕ → JevOutcome → Choice
unfolding tier_at jev_nearest_index
clamp_unsure pool def c out =
    if ltb_ℤ (tier_at pool c) (tier_at pool def)
    then (def, record out { reason = "low-confidence-no-downgrade" })
    else if ltb_ℤ (add64 (tier_at pool def) (pos 1)) (tier_at pool c)
    then (
      jev_nearest_index pool (add64 (tier_at pool def) (pos 1)),
      record out { reason = "low-confidence-capped" },
    )
    else (c, out)

abbrev pub is_unsure : JevRouter → JevOutcome → Bool
is_unsure j out = not (str_eq out.reason "sticky") && float_lt out.confidence (min_confidence_of j)

unfoldable pub clamp_confidence : Pool → JevRouter → ℕ → Option ℕ → JevOutcome → Choice
unfolding clamp_unsure float_lt min_confidence_of
clamp_confidence pool j def none out = (def, out)
clamp_confidence pool j def (some c) out =
    if is_unsure j out then clamp_unsure pool def c out else (c, out)

-- No step down once the conversation is large.
unfoldable pub clamp_context : Pool → ℕ → ℤ → Choice → Choice
clamp_context pool def context_tokens (c, out) =
    if ltb_ℤ (tier_at pool c) (tier_at pool def) && ltb_ℤ jev_downgrade_max_context context_tokens
    then (def, record out { reason = "context-no-downgrade" })
    else (c, out)

unfoldable pub settle : Pool → JevRouter → ℤ → Option ℕ → JevOutcome → Choice
settle pool j context_tokens choice out =
    let def = jev_tier_index pool j.default_tier in
    clamp_context pool def context_tokens (clamp_confidence pool j def choice out)
