-- ===== src/Config/Store/History.antt =====
-- Every write of the admin API, and what holds of a configuration whatever writes it saw.
use llm_api_router.Prelude.{
  ℕ, zero, suc, ℤ, String, ◌≡◌, refl, Bool, true, false, some, List, [], ◌∷◌, arith, All, modify,
  find_idx?-modify, str_eq, Option-cases, inl, inr, if◌then◌else◌,
}
use llm_api_router.Domain.Rule.{RoutingRule}
use llm_api_router.Domain.Settings.{Config, RuleProfile, Settings}
use llm_api_router.Config.Store.{
  Disk, Write, index_out_of_range, saved, new_config, profile_by_id, resolve_profile, rules_at,
}
use llm_api_router.Config.Store.Servers.{add_server, update_server, delete_server}
use llm_api_router.Config.Store.Servers.References.{ServerWrite, write}
use llm_api_router.Config.Store.Rules.{
  add_rule_to_profile, update_rule_in_profile, delete_rule_from_profile, with_rules, set_rules,
  with_profile_rules,
}
use llm_api_router.Config.Store.Profiles.{
  add_profile, rename_profile, delete_profile, set_active_profile,
}
use llm_api_router.Config.Store.Profiles.Invariant.{
  IsWellFormed, AllApart, apart, add_profile-IsWellFormed, rename_profile-IsWellFormed,
  delete_profile-IsWellFormed, set_active_profile-IsWellFormed,
}

pub data Edit : Type 0 where
  on_server : ServerWrite → Edit
  adds_rule : String → RoutingRule → Edit
  updates_rule : String → ℤ → RoutingRule → Edit
  deletes_rule : String → ℤ → Edit
  adds_profile : String → Bool → Edit
  renames_profile : String → String → Edit
  deletes_profile : String → Edit
  activates_profile : String → Edit

unfoldable pub edit : Disk → Config → Edit → Config
edit disk c (on_server w) = write disk c w
edit disk c (adds_rule id rule) = (add_rule_to_profile disk c id rule).0
edit disk c (updates_rule id idx rule) = (update_rule_in_profile disk c id idx rule).0
edit disk c (deletes_rule id idx) = (delete_rule_from_profile disk c id idx).0
edit disk c (adds_profile name copy) = (add_profile disk c name copy).0
edit disk c (renames_profile id name) = (rename_profile disk c id name).0
edit disk c (deletes_profile id) = (delete_profile disk c id).0
edit disk c (activates_profile id) = (set_active_profile disk c id).0

unfoldable pub edits : Disk → Config → List Edit → Config
unfolding edit
edits disk c [] = c
edits disk c (e ∷ es) = edits disk (edit disk c e) es

profiles-write :
    (disk : Disk) (c : Config) (w : ServerWrite)
    → ((write disk c w).profiles ≡ c.profiles)
      × ((write disk c w).active_profile_id ≡ c.active_profile_id)
unfolding write add_server update_server delete_server
profiles-write disk c (ServerWrite.adds srv) = ground arith
profiles-write disk c (ServerWrite.updates id srv) = ground arith
profiles-write disk c (ServerWrite.deletes id) = ground arith

All-modify :
    (p : RuleProfile) (rules : List RoutingRule) (ps : List RuleProfile) (i : ℕ)
    → All (λ q. apart p q ≡ true) ps
    → All (λ q. apart p q ≡ true) (modify (with_profile_rules rules) ps i)
All-modify p rules [] i _ = tt
All-modify p rules (q ∷ ps) zero h = h
All-modify p rules (q ∷ ps) (suc i) (h, k) = (h, All-modify p rules ps i k)

All-apart :
    (p : RuleProfile) (rules : List RoutingRule) (ps : List RuleProfile)
    → All (λ q. apart p q ≡ true) ps
    → All (λ q. apart (with_profile_rules rules p) q ≡ true) ps
All-apart p rules [] _ = tt
All-apart p rules (q ∷ ps) (h, k) = (h, All-apart p rules ps k)

AllApart-modify_rules :
    (rules : List RoutingRule) (ps : List RuleProfile) (i : ℕ)
    → AllApart ps
    → AllApart (modify (with_profile_rules rules) ps i)
AllApart-modify_rules rules [] i _ = tt
AllApart-modify_rules rules (p ∷ ps) zero (h, k) = (All-apart p rules ps h, k)
AllApart-modify_rules rules (p ∷ ps) (suc i) (h, k) =
    (All-modify p rules ps i h, AllApart-modify_rules rules ps i k)

set_rules-IsWellFormed :
    (c : Config) (i : ℕ) (rules : List RoutingRule)
    → IsWellFormed c
    → IsWellFormed (set_rules c i rules)
unfolding set_rules profile_by_id
set_rules-IsWellFormed c i rules v = record {
  apart_profiles = AllApart-modify_rules rules c.profiles i v.apart_profiles;
  active_known = ground (
    arith,
    v.active_known,
    find_idx?-modify (λ p. str_eq p.id c.active_profile_id) (with_profile_rules rules) c.profiles i
        (λ p. refl),
  );
}

with_rules-IsWellFormed :
    (c : Config) (id : String) (f : ℕ → List RoutingRule → Write)
    → IsWellFormed c
    → ((i : ℕ) (rules : List RoutingRule) → IsWellFormed (f i rules).0)
    → IsWellFormed (with_rules c id f).0
unfolding with_rules
with_rules-IsWellFormed c id f v h = elim (Option-cases (resolve_profile c id)) [
  | inl e ↦ rw (e, with_rules) v
  | inr (i, e) ↦ elim (Option-cases (rules_at c.profiles (some i))) [
    | inl e' ↦ rw (e, e', with_rules) v
    | inr (rules, e') ↦ rw (e, e', with_rules) (h i rules)
  ]
]

checked :
    (disk : Disk) (c : Config) (b : Bool) (i : ℕ) (rules : List RoutingRule)
    → IsWellFormed c
    → IsWellFormed (if b then (c, some index_out_of_range) else saved disk (set_rules c i rules)).0
checked disk c true i rules v = v
checked disk c false i rules v = set_rules-IsWellFormed c i rules v

edit-IsWellFormed :
    (disk : Disk) (c : Config) (e : Edit) → IsWellFormed c → IsWellFormed (edit disk c e)
unfolding edit add_rule_to_profile update_rule_in_profile delete_rule_from_profile profile_by_id
edit-IsWellFormed disk c (on_server w) v =
    let (e, f) = profiles-write disk c w in
    record { apart_profiles = rw e v.apart_profiles; active_known = rw (e, f) v.active_known }
edit-IsWellFormed disk c (adds_rule id rule) v =
    with_rules-IsWellFormed c id _ v (λ i rules. set_rules-IsWellFormed c i _ v)
edit-IsWellFormed disk c (updates_rule id idx rule) v =
    with_rules-IsWellFormed c id _ v (λ i rules. checked disk c _ i _ v)
edit-IsWellFormed disk c (deletes_rule id idx) v =
    with_rules-IsWellFormed c id _ v (λ i rules. checked disk c _ i _ v)
edit-IsWellFormed disk c (adds_profile name copy) v = add_profile-IsWellFormed disk c name copy v
edit-IsWellFormed disk c (renames_profile id name) v = rename_profile-IsWellFormed disk c id name v
edit-IsWellFormed disk c (deletes_profile id) v = delete_profile-IsWellFormed disk c id v
edit-IsWellFormed disk c (activates_profile id) v = set_active_profile-IsWellFormed disk c id v

-- If no two profiles share a name or an id and the active id names a profile, then it is so after
-- whatever writes the admin API makes, failed ones and ones that the disk refused included.
pub edits-IsWellFormed :
    (disk : Disk) (c : Config) (es : List Edit) → IsWellFormed c → IsWellFormed (edits disk c es)
unfolding edits
edits-IsWellFormed disk c [] v = v
edits-IsWellFormed disk c (e ∷ es) v =
    edits-IsWellFormed disk (edit disk c e) es (edit-IsWellFormed disk c e v)

-- It holds of the configuration that a store starts with when there is no file.
pub new_config-IsWellFormed : (s : Settings) → IsWellFormed (new_config s)
unfolding new_config profile_by_id
new_config-IsWellFormed s = record { apart_profiles = (tt, tt); active_known = refl }
