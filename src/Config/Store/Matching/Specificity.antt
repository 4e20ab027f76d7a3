-- ===== src/Config/Store/Matching/Specificity.antt =====
-- An exact name beats every pattern, and among patterns the longest that matches wins.
use Prim.Native.String.{len}
use Prim.Native.String.len
use text.Mathlib.TextPositions.{len_utf8-pos}
use mathlib.Core.List.{Memᴰ}
use llm_api_router.Prelude.{
  ℕ, ◌≤◌, ◌<◌, String, ◌≡◌, refl, ◌∙◌, Bool, true, false, ◌&&◌, Option, none, some, List, [], ◌∷◌,
  ◌++◌, map, arith, ltb, str_eq, All, find, if◌then◌else◌, ◌⊎◌, inl, inr, Bool-cases,
}
use llm_api_router.Domain.Rule.{RoutingRule, is_model_pattern}
use llm_api_router.Domain.Settings.{Config}
use llm_api_router.Config.Store.{clone_rule, rules_at, active_profile}
use llm_api_router.Config.Store.Matching.{
  Glob, Found, exact, pattern_of, match_model_pattern, scan_names, scan_rules, get_rule_by_model,
}

pattern_of_match :
    (glob : Glob) (name model : String)
    → match_model_pattern glob name model ≡ true
    → is_model_pattern name ≡ true
unfolding match_model_pattern
pattern_of_match glob name model h = ground arith

-- The names that the enabled rules own, in order.
unfoldable pub owners : List RoutingRule → List (String × RoutingRule)
owners [] = []
owners (r ∷ rs) = if r.enabled then map (λ n. (n, r)) r.incoming_models ++ owners rs else owners rs

scan : Glob → String → List (String × RoutingRule) → Option RoutingRule → ℕ → Found
scan glob model [] best best_len = pattern_of best best_len
scan glob model ((name, rule) ∷ ps) best best_len =
    let better = ltb best_len (len name) && match_model_pattern glob name model in
    let rest =
      scan glob model ps (if better then some rule else best)
        (if better then len name else best_len) in
    if str_eq name model then exact rule else rest

scan-append :
    (glob : Glob) (model : String) (rule : RoutingRule) (names : List String)
    (ps : List (String × RoutingRule)) (best : Option RoutingRule) (l : ℕ)
    → scan glob model (map (λ n. (n, rule)) names ++ ps) best l
      ≡ elim (scan_names glob model rule names best l) [
        | exact r ↦ exact r
        | pattern_of b k ↦ scan glob model ps b k
      ]
unfolding scan scan_names
scan-append glob model rule [] ps best l = refl
scan-append glob model rule (name ∷ names) ps best l =
    let better = ltb l (len name) && match_model_pattern glob name model in
    let ih =
      scan-append glob model rule names ps (if better then some rule else best)
        (if better then len name else l) in
    elim (Bool-cases (str_eq name model)) [ inl hit ↦ rw hit | inr miss ↦ rw miss ih ]

Found-cases :
    (f : Found)
    → ((r : RoutingRule) × (f ≡ exact r))
      ⊎ ((b : Option RoutingRule) × (k : ℕ) × (f ≡ pattern_of b k))
Found-cases (exact r) = inl (r, refl)
Found-cases (pattern_of b k) = inr (b, k, refl)

-- The nested loops are one loop over the names that enabled rules own.
scan_rules-scan :
    (glob : Glob) (model : String) (rules : List RoutingRule) (best : Option RoutingRule) (l : ℕ)
    → scan_rules glob model rules best l ≡ scan glob model (owners rules) best l
unfolding scan_rules owners scan
scan_rules-scan glob model [] best l = refl
scan_rules-scan glob model (r ∷ rs) best l =
    let flat = scan-append glob model r r.incoming_models (owners rs) best l in
    elim (Found-cases (scan_names glob model r r.incoming_models best l)) [
      | inl (x, e) ↦ ground (arith, flat, e, scan_rules-scan glob model rs best l)
      | inr (b, k, e) ↦
          ground (
            arith,
            flat,
            e,
            scan_rules-scan glob model rs best l,
            scan_rules-scan glob model rs b k,
          )
    ]

abbrev matches : Glob → String → String × RoutingRule → Bool
matches glob model p = match_model_pattern glob p.0 model

-- No name is a pattern that matches and is longer than this.
abbrev pub NoneLonger : Glob → String → ℕ → List (String × RoutingRule) → Type 0
NoneLonger glob model l = All (λ p. (ltb l (len p.0) && match_model_pattern glob p.0 model) ≡ false)

-- What one pass makes of the best so far: it stays, or is replaced by a longest match.
abbrev Outcome :
    Glob
    → String
    → List (String × RoutingRule)
    → Option RoutingRule
    → ℕ
    → Option RoutingRule
    → ℕ
    → Type 0
Outcome glob model ps best l b k =
    ((b ≡ best) × (k ≡ l) × NoneLonger glob model l ps)
    ⊎ ((n : String) × (r : RoutingRule) × Memᴰ (n, r) ps
        × (b ≡ some r)
        × (k ≡ len n)
        × (l < len n)
        × (match_model_pattern glob n model ≡ true)
        × NoneLonger glob model (len n) ps)

NoneLonger-mono :
    (glob : Glob) (model : String) (l k : ℕ) (ps : List (String × RoutingRule))
    → l ≤ k
    → NoneLonger glob model l ps
    → NoneLonger glob model k ps
NoneLonger-mono glob model l k [] h _ = tt
NoneLonger-mono glob model l k (p ∷ ps) h (q, qs) =
    (ground arith, NoneLonger-mono glob model l k ps h qs)

scan-Outcome :
    (glob : Glob) (model : String) (ps : List (String × RoutingRule)) (best : Option RoutingRule)
    (l : ℕ)
    → All (λ p. str_eq p.0 model ≡ false) ps
    → (b : Option RoutingRule) × (k : ℕ) × (scan glob model ps best l ≡ pattern_of b k)
      × Outcome glob model ps best l b k
unfolding scan
scan-Outcome glob model [] best l _ = (best, l, refl, inl (refl, refl, tt))
scan-Outcome glob model ((name, rule) ∷ ps) best l (ne, nes) =
    elim (Bool-cases (ltb l (len name) && match_model_pattern glob name model)) [
      | inl better ↦
          let (b, k, e, o) = scan-Outcome glob model ps (some rule) (len name) nes in
          (
            b,
            k,
            rw (ne, better) e,
            elim o [
              | inl (eb, ek, none_longer) ↦ inr (
                name,
                rule,
                Memᴰ.head refl,
                eb,
                ek,
                ground arith,
                ground arith,
                (ground arith, none_longer),
              )
              | inr (n, r, m, eb, ek, lt, hit, none_longer) ↦
                  inr (n, r, Memᴰ.tail m, eb, ek, ground arith, hit, (ground arith, none_longer))
            ],
          )
      | inr worse ↦
          let (b, k, e, o) = scan-Outcome glob model ps best l nes in
          (
            b,
            k,
            rw (ne, worse) e,
            elim o [
              | inl (eb, ek, none_longer) ↦ inl (eb, ek, (worse, none_longer))
              | inr (n, r, m, eb, ek, lt, hit, none_longer) ↦
                  inr (n, r, Memᴰ.tail m, eb, ek, lt, hit, (ground arith, none_longer))
            ],
          )
    ]

len-pos : (s : String) → is_model_pattern s ≡ true → 0 < len s
unfolding is_model_pattern
len-pos String.[] h = cc
len-pos (String.◌∷◌ c s) h = let (k, e) = len_utf8-pos c in omega (arith, len.cons c s, e)

unmatched :
    (glob : Glob) (model : String) (ps : List (String × RoutingRule))
    → NoneLonger glob model 0 ps
    → All (λ p. match_model_pattern glob p.0 model ≡ false) ps
unmatched glob model [] _ = tt
unmatched glob model (p ∷ ps) (q, qs) =
    (no_match (match_model_pattern glob p.0 model) refl q, unmatched glob model ps qs)
  where
    no_match :
        (b : Bool)
        → match_model_pattern glob p.0 model ≡ b
        → (ltb 0 (len p.0) && match_model_pattern glob p.0 model) ≡ false
        → match_model_pattern glob p.0 model ≡ false
    no_match false e h = e
    no_match true e h = ground (arith, e, h, len-pos p.0 (pattern_of_match glob p.0 model e))

scan-exact :
    (glob : Glob) (model : String) (ps : List (String × RoutingRule)) (best : Option RoutingRule)
    (l : ℕ) (n : String) (r : RoutingRule)
    → find (λ p. str_eq p.0 model) ps ≡ some (n, r)
    → scan glob model ps best l ≡ exact r
unfolding scan
scan-exact glob model [] best l n r h = cc
scan-exact glob model ((name, rule) ∷ ps) best l n r h =
    let better = ltb l (len name) && match_model_pattern glob name model in
    let ih =
      scan-exact glob model ps (if better then some rule else best) (if better then len name else l)
        n r in
    elim (Bool-cases (str_eq name model)) [
      | inl hit ↦ rw hit (ground (arith, h, hit))
      | inr miss ↦ rw miss (ih (rw miss at h))
    ]

-- If an enabled rule of the active profile lists the model's own name, the first such rule owns
-- it, whatever patterns match as well.
pub get_rule_by_model-exact :
    (glob : Glob) (c : Config) (model : String) {rules : List RoutingRule} {n : String}
    {r : RoutingRule}
    → rules_at c.profiles (active_profile c) ≡ some rules
    → find (λ p. str_eq p.0 model) (owners rules) ≡ some (n, r)
    → get_rule_by_model glob c model ≡ some (clone_rule r)
unfolding get_rule_by_model
get_rule_by_model-exact glob c model {rules} {n} {r} active h = ground (
  arith,
  active,
  scan_rules-scan glob model rules none 0,
  scan-exact glob model (owners rules) none 0 n r h,
)

-- If no enabled rule of the active profile lists the model's own name, the owner is a rule with a
-- pattern that matches it, and no enabled rule has a longer pattern that matches; there is no
-- owner exactly if no pattern of an enabled rule matches.
pub get_rule_by_model-pattern :
    (glob : Glob) (c : Config) (model : String) {rules : List RoutingRule}
    → rules_at c.profiles (active_profile c) ≡ some rules
    → All (λ p. str_eq p.0 model ≡ false) (owners rules)
    → ((get_rule_by_model glob c model ≡ none)
        × All (λ p. match_model_pattern glob p.0 model ≡ false) (owners rules))
      ⊎ ((n : String) × (r : RoutingRule) × Memᴰ (n, r) (owners rules)
          × (get_rule_by_model glob c model ≡ some (clone_rule r))
          × (match_model_pattern glob n model ≡ true)
          × NoneLonger glob model (len n) (owners rules))
unfolding get_rule_by_model
get_rule_by_model-pattern glob c model {rules} active ne =
    let (b, k, e, o) = scan-Outcome glob model (owners rules) none 0 ne in
    let run = scan_rules-scan glob model rules none 0 ∙ e in
    elim o [
      | inl (eb, ek, none_longer) ↦
          inl (ground (arith, active, run, eb), unmatched glob model (owners rules) none_longer)
      | inr (n, r, m, eb, ek, lt, hit, none_longer) ↦
          inr (n, r, m, ground (arith, active, run, eb), hit, none_longer)
    ]
