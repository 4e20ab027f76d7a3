-- ===== src/Convert/Stream/Protocol/Index.antt =====
-- The open tool_use blocks by their `tool_calls` index.

use mathlib.Core.Option.{some-injective}
use llm_api_router.Prelude.{
  ℤ, ◌≡◌, ◌≢◌, refl, sym, ap, ◌∙◌, not, none, some, List, [], ◌∷◌, map, arith, select, eqb_ℤ,
  eqb_ℤ_iff, All, All-imply, All-select, Bool-cases, Option-cases, ◌⊎◌, inl, inr, subst,
}
use llm_api_router.Convert.Stream.Emitter.{ToolBlock, tool_at, drop_tool}
use llm_api_router.Convert.Stream.Client.{index_of_tool}
use llm_api_router.Convert.Stream.Protocol.{Apart, Distinct, eqb_refl}

-- Tools without the one index or the other.
abbrev pub Others : ℤ → ToolBlock → Type 0
Others i t = t.idx ≢ i

-- What stands at an index of a longer list.
tool_at-cases :
    (i : ℤ) (u : ToolBlock) (us : List ToolBlock)
    → ((v : ToolBlock) × (tool_at i us ≡ some v) × (tool_at i (u ∷ us) ≡ some v))
      ⊎ ((tool_at i us ≡ none)
          × ((u.idx ≡ i) × (tool_at i (u ∷ us) ≡ some u)
              ⊎ (u.idx ≢ i) × (tool_at i (u ∷ us) ≡ none)))
unfolding tool_at
tool_at-cases i u us = elim (Option-cases (tool_at i us)) [
  | inr (v, e) ↦ inl (v, e, rw (tool_at, e) refl)
  | inl e ↦ elim (Bool-cases (eqb_ℤ u.idx i)) [
    | inl h ↦ inr (e, inl ((eqb_ℤ_iff u.idx i).0 h, rw (tool_at, e, h) refl))
    | inr h ↦ inr (e, inr (λ k. ground (arith, eqb_ℤ_iff u.idx i, h, k), rw (tool_at, e, h) refl))
  ]
]

pub tool_at-All {ℓ} :
    (P : ToolBlock → Type ℓ) (i : ℤ) (ts : List ToolBlock) (t : ToolBlock)
    → All P ts
    → tool_at i ts ≡ some t
    → P t
unfolding tool_at
tool_at-All P i [] t h e = ground (arith, e)
tool_at-All P i (u ∷ us) t (p, h) e = elim (tool_at-cases i u us) [
  | inl (v, later, here) ↦ tool_at-All P i us t h (later ∙ sym here ∙ e)
  | inr (later, inl (same, here)) ↦ subst P (some-injective u t (sym here ∙ e)) p
  | inr (later, inr (other, here)) ↦ ground (arith, sym here ∙ e)
]

tool_at-idx : (i : ℤ) (ts : List ToolBlock) (t : ToolBlock) → tool_at i ts ≡ some t → t.idx ≡ i
unfolding tool_at
tool_at-idx i [] t e = ground (arith, e)
tool_at-idx i (u ∷ us) t e = elim (tool_at-cases i u us) [
  | inl (v, later, here) ↦ tool_at-idx i us t (later ∙ sym here ∙ e)
  | inr (later, inl (same, here)) ↦
      ap (λ (x : ToolBlock). x.idx) (some-injective t u (sym e ∙ here)) ∙ same
  | inr (later, inr (other, here)) ↦ ground (arith, sym here ∙ e)
]

pub tool_at-none : (i : ℤ) (ts : List ToolBlock) → tool_at i ts ≡ none → All (Others i) ts
tool_at-none i [] e = tt
tool_at-none i (u ∷ us) e = elim (tool_at-cases i u us) [
  | inl (v, later, here) ↦ ground (arith, sym here ∙ e)
  | inr (later, inl (same, here)) ↦ ground (arith, sym here ∙ e)
  | inr (later, inr (other, here)) ↦ (other, tool_at-none i us later)
]

-- Whether an entry is dropped with an index is whether it has the block that is stopped.
abbrev Matches : ℤ → ToolBlock → ToolBlock → Type 0
Matches i t u = eqb_ℤ u.idx i ≡ eqb_ℤ (index_of_tool u) (index_of_tool t)

Apart-Matches : (i : ℤ) (t u : ToolBlock) → t.idx ≡ i → Apart t u → Matches i t u
Apart-Matches i t u e (ne, other) = ground (arith, eqb_ℤ_iff u.idx i, e, ne, other)

Apart-Matches_flipped : (i : ℤ) (t u : ToolBlock) → t.idx ≡ i → Apart u t → Matches i t u
Apart-Matches_flipped i t u e (ne, other) =
    Apart-Matches i t u e (λ k. ne (sym k), λ k. other (sym k))

self-Matches : (i : ℤ) (t : ToolBlock) → t.idx ≡ i → Matches i t t
self-Matches i t e = ap (λ j. eqb_ℤ j i) e ∙ eqb_refl i ∙ sym (eqb_refl (index_of_tool t))

pub tool_at-Matches :
    (i : ℤ) (ts : List ToolBlock) (t : ToolBlock)
    → Distinct ts
    → tool_at i ts ≡ some t
    → All (Matches i t) ts
tool_at-Matches i [] t d e = tt
tool_at-Matches i (u ∷ us) t (apart, d) e = elim (tool_at-cases i u us) [
  | inl (v, later, here) ↦
      let found = later ∙ sym here ∙ e in
      (
        Apart-Matches_flipped i t u (tool_at-idx i us t found)
            (tool_at-All (Apart u) i us t apart found),
        tool_at-Matches i us t d found,
      )
  | inr (later, inl (same, here)) ↦
      subst (λ x. All (Matches i x) (u ∷ us)) (some-injective u t (sym here ∙ e))
        (
          self-Matches i u same,
          All-imply (Apart u) (Matches i u) (λ w. Apart-Matches i u w same) us apart,
        )
  | inr (later, inr (other, here)) ↦ ground (arith, sym here ∙ e)
]

-- Dropping an index takes its block off the client's list.
pub drop_tool-view :
    (i : ℤ) (t : ToolBlock) (ts : List ToolBlock)
    → All (Matches i t) ts
    → select (λ j. not (eqb_ℤ j (index_of_tool t))) (map index_of_tool ts)
      ≡ map index_of_tool (drop_tool i ts)
unfolding drop_tool
drop_tool-view i t [] h = refl
drop_tool-view i t (u ∷ us) (m, h) =
    let rest = drop_tool-view i t us h in
    elim (Bool-cases (eqb_ℤ u.idx i)) [
      | inl e ↦ rw (drop_tool, sym m ∙ e, e) rest
      | inr e ↦ rw (drop_tool, sym m ∙ e, e) (ap (λ l. index_of_tool u ∷ l) rest)
    ]

pub drop_tool-Others : (i : ℤ) (ts : List ToolBlock) → All (Others i) (drop_tool i ts)
unfolding drop_tool
drop_tool-Others i [] = tt
drop_tool-Others i (u ∷ us) = elim (Bool-cases (eqb_ℤ u.idx i)) [
  | inl e ↦ rw (drop_tool, e) (drop_tool-Others i us)
  | inr e ↦ rw (drop_tool, e) (λ k. ground (arith, eqb_ℤ_iff u.idx i, e, k), drop_tool-Others i us)
]

pub drop_tool-All {ℓ} :
    (P : ToolBlock → Type ℓ) (i : ℤ) (ts : List ToolBlock) → All P ts → All P (drop_tool i ts)
unfolding drop_tool
drop_tool-All P i ts h = All-select P (λ t. not (eqb_ℤ t.idx i)) ts h

pub drop_tool-Distinct : (i : ℤ) (ts : List ToolBlock) → Distinct ts → Distinct (drop_tool i ts)
unfolding drop_tool
drop_tool-Distinct i [] d = tt
drop_tool-Distinct i (u ∷ us) (apart, d) = elim (Bool-cases (eqb_ℤ u.idx i)) [
  | inl e ↦ rw (drop_tool, e) (drop_tool-Distinct i us d)
  | inr e ↦ rw (drop_tool, e) (drop_tool-All (Apart u) i us apart, drop_tool-Distinct i us d)
]
