-- ===== src/Config/Store/Rules/Editing.antt =====
-- A copy is the rule, and an edit changes one place of one profile.

use llm_api_router.Prelude.{
  ℕ, zero, suc, ℤ, String, ◌≡◌, refl, ap, none, some, List, [], ◌∷◌, ◌++◌, map, arith, Option-cases,
  inl, inr, modify, set, erase_idx, str_eq, find_idx?-modify, pos_part, if◌then◌else◌, Bool, true,
  false, not,
}
use llm_api_router.Domain.Rule.{RoutingRule}
use llm_api_router.Domain.Settings.{Config, RuleProfile}
use llm_api_router.Config.Store.{
  Disk, clone_rule, get_rules, rules_at, resolve_profile, profile_by_id, active_profile,
  first_profile, index_out_of_range, saved, Write,
}
use llm_api_router.Config.Store.Rules.{
  set_rules, with_rules, add_rule_to_profile, update_rule_in_profile, delete_rule_from_profile,
  with_profile_rules, in_range,
}

-- A copy has every field of the rule.
pub clone_rule-eq : (r : RoutingRule) → clone_rule r ≡ r
unfolding clone_rule
clone_rule-eq r = elim (Option-cases r.jev) [
  | inl e ↦ ground (arith, e)
  | inr (j, e) ↦ ground (arith, e)
]

map-clone_rule : (rules : List RoutingRule) → map clone_rule rules ≡ rules
map-clone_rule [] = refl
map-clone_rule (r ∷ rs) = cc (clone_rule-eq r, map-clone_rule rs)

rules_at-modify :
    (rules : List RoutingRule) (ps : List RuleProfile) (i : ℕ) {old : List RoutingRule}
    → rules_at ps (some i) ≡ some old
    → rules_at (modify (with_profile_rules rules) ps i) (some i) ≡ some rules
unfolding rules_at
rules_at-modify rules [] i e = cc
rules_at-modify rules (p ∷ ps) zero e = refl
rules_at-modify rules (p ∷ ps) (suc i) e = rules_at-modify rules ps i e

first_profile-modify :
    (rules : List RoutingRule) (ps : List RuleProfile) (i : ℕ)
    → first_profile (modify (with_profile_rules rules) ps i) ≡ first_profile ps
first_profile-modify rules [] i = refl
first_profile-modify rules (p ∷ ps) zero = refl
first_profile-modify rules (p ∷ ps) (suc i) = refl

resolve-modify :
    (c : Config) (id : String) (i : ℕ) (rules : List RoutingRule)
    → resolve_profile (set_rules c i rules) id ≡ resolve_profile c id
unfolding resolve_profile active_profile profile_by_id set_rules
resolve-modify c id i rules =
    let by = λ (k : String).
      find_idx?-modify (λ (p : RuleProfile). str_eq p.id k) (with_profile_rules rules) c.profiles i
        (λ p. refl) in
    ground (arith, by id, by c.active_profile_id, first_profile-modify rules c.profiles i)

-- Reading a profile back after its rules were set.
get_rules-set_rules :
    (c : Config) (id : String) (rules old : List RoutingRule) (i : ℕ)
    → resolve_profile c id ≡ some i
    → rules_at c.profiles (some i) ≡ some old
    → get_rules (set_rules c i rules) id ≡ some rules
unfolding get_rules set_rules
get_rules-set_rules c id rules old i r e =
    rw (resolve-modify c id i rules)
      (rw (r, rules_at-modify rules c.profiles i e) (ap some (map-clone_rule rules)))

nowhere : (ps : List RuleProfile) → rules_at ps none ≡ none
unfolding rules_at
nowhere ps = refl

-- The rules that a client reads are those of a profile of the list.
resolved :
    (c : Config) (id : String) (old : List RoutingRule)
    → get_rules c id ≡ some old
    → (i : ℕ) × (resolve_profile c id ≡ some i) × (rules_at c.profiles (some i) ≡ some old)
unfolding get_rules
resolved c id old h = elim (Option-cases (resolve_profile c id)) [
  | inl e ↦ ground (arith, e, h, nowhere c.profiles)
  | inr (i, e) ↦ elim (Option-cases (rules_at c.profiles (some i))) [
    | inl e' ↦ ground (arith, e, e', h)
    | inr (rules, e') ↦ (i, e, ground (arith, e, e', h, map-clone_rule rules))
  ]
]

with_rules_lem :
    (c : Config) (id : String) (f : ℕ → List RoutingRule → Write) {i : ℕ} {old : List RoutingRule}
    → resolve_profile c id ≡ some i
    → rules_at c.profiles (some i) ≡ some old
    → with_rules c id f ≡ f i old
unfolding with_rules
with_rules_lem c id f r e = rw (r, e, with_rules)

-- A client that reads a profile, writes a rule of it and reads again sees the rule appended, or
-- put or taken out at its index; an index out of range changes nothing.
pub get_rules-edit :
    (disk : Disk) (c : Config) (id : String) (idx : ℤ) (rule : RoutingRule) {old : List RoutingRule}
    → get_rules c id ≡ some old
    → (get_rules (add_rule_to_profile disk c id rule).0 id ≡ some (old ++ rule ∷ []))
      × (get_rules (update_rule_in_profile disk c id idx rule).0 id
          ≡ some (if in_range idx old then set old (pos_part idx) rule else old))
      × (get_rules (delete_rule_from_profile disk c id idx).0 id
          ≡ some (if in_range idx old then erase_idx old (pos_part idx) else old))
unfolding add_rule_to_profile update_rule_in_profile delete_rule_from_profile
get_rules-edit disk c id idx rule {old} h =
    let (i, r, e) = resolved c id old h in
    let read = λ (rules : List RoutingRule). get_rules-set_rules c id rules old i r e in
    let same = clone_rule-eq rule in
    (
      rw (with_rules_lem c id _ r e, same) (read (old ++ rule ∷ [])),
      rw (with_rules_lem c id _ r e, same)
          (guarded (in_range idx old) (set old (pos_part idx) rule)),
      rw (with_rules_lem c id _ r e) (guarded (in_range idx old) (erase_idx old (pos_part idx))),
    )
  where
    guarded :
        (b : Bool) (new : List RoutingRule)
        → get_rules
            (if not b
              then (c, some index_out_of_range)
              else saved disk (set_rules c (resolved c id old h).0 new)).0
            id
          ≡ some (if b then new else old)
    guarded true new =
        get_rules-set_rules c id new old (resolved c id old h).0 (resolved c id old h).1
          (resolved c id old h).2
    guarded false new = h
