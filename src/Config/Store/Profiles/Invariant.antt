-- ===== src/Config/Store/Profiles/Invariant.antt =====
-- There is always a profile, no two share a name or an id, and the active id names one of them.
use llm_api_router.Prelude.{
  ℕ, zero, suc, ◌<◌, String, ◌≡◌, refl, Bool, true, false, not, ◌&&◌, some, List, [], ◌∷◌, ◌++◌,
  arith, eq_iff, str_eq, str_eq_refl, length, erase_idx, any, find_idx?, is_some, All, All-append,
  All-erase_idx, find_idx?-append, find_idx?-modify, find_idx?-erase_idx, length-erase_idx, map,
  modify, if◌then◌else◌, Bool-cases, Option-cases, inl, inr, ◌==◌,
}
use llm_api_router.Domain.Settings.{Config, RuleProfile}
use llm_api_router.Config.Store.{Disk, profile_by_id, clone_rule}
use llm_api_router.Config.Store.Profiles.{
  is_taken, add_profile, rename_profile, delete_profile, set_active_profile, first_id, active_rules,
  renamed,
}

-- Neither the name nor the id of one is the name or the id of the other.
abbrev pub apart : RuleProfile → RuleProfile → Bool
apart p q = not (is_taken p.name q) && not (is_taken p.id q)

abbrev pub AllApart : List RuleProfile → Type 0
AllApart [] = Unit
AllApart (p ∷ ps) = All (λ q. apart p q ≡ true) ps × AllApart ps

pub record IsWellFormed (c : Config) : Type 0 where
  pub apart_profiles : AllApart c.profiles
  pub active_known : is_some (profile_by_id c c.active_profile_id) ≡ true

apart_new :
    (q p : RuleProfile) (name : String)
    → p.id ≡ name
    → p.name ≡ name
    → is_taken name q ≡ false
    → apart q p ≡ true
apart_new q p name e f h =
    rw (e, f)
      (ground (arith, eq_iff name q.name, eq_iff name q.id, eq_iff q.name name, eq_iff q.id name))

AllApart-append :
    (ps : List RuleProfile) (p : RuleProfile)
    → p.id ≡ p.name
    → AllApart ps
    → any (is_taken p.name) ps ≡ false
    → AllApart (ps ++ p ∷ [])
AllApart-append [] p e _ _ = (tt, tt)
AllApart-append (q ∷ ps) p e (h, k) free = (
  All-append (λ r. apart q r ≡ true) ps (p ∷ []) h (apart_new q p p.name e refl (ground arith), tt),
  AllApart-append ps p e k (ground arith),
)

pub add_profile-IsWellFormed :
    (disk : Disk) (c : Config) (name : String) (copy : Bool)
    → IsWellFormed c
    → IsWellFormed (add_profile disk c name copy).0
unfolding add_profile profile_by_id
add_profile-IsWellFormed disk c name copy v =
    let rules = if copy then map clone_rule (active_rules c) else [] in
    let p : RuleProfile = record { id = name; name = name; rules = rules } in
    record {
      apart_profiles = elim (Bool-cases (any (is_taken name) c.profiles)) [
        | inl taken ↦ ground (arith, taken, v.apart_profiles)
        | inr free ↦
            ground (
              arith,
              free,
              v.apart_profiles,
              AllApart-append c.profiles p refl v.apart_profiles free,
            )
      ];
      active_known = ground (
        arith,
        v.active_known,
        find_idx?-append (λ q. str_eq q.id c.active_profile_id) c.profiles (p ∷ []) v.active_known,
      );
    }

-- A change of the name of the profile with this id, to a name that no other has.
abbrev free_for : String → String → RuleProfile → Bool
free_for id name p = not (str_eq p.id id) && is_taken name p

AllApart-unchanged :
    (p : RuleProfile) (id name : String) (ps : List RuleProfile) (i : ℕ)
    → str_eq p.id id ≡ false
    → is_taken name p ≡ false
    → All (λ q. apart p q ≡ true) ps
    → All (λ q. apart p q ≡ true) (modify (renamed name) ps i)
AllApart-unchanged p id name [] i n f _ = tt
AllApart-unchanged p id name (q ∷ ps) zero n f (h, k) =
    (ground (arith, eq_iff name p.name, eq_iff name p.id, eq_iff p.name name, eq_iff p.id name), k)
AllApart-unchanged p id name (q ∷ ps) (suc i) n f (h, k) =
    (h, AllApart-unchanged p id name ps i n f k)

AllApart-renamed :
    (p : RuleProfile) (id name : String) (ps : List RuleProfile)
    → str_eq p.id id ≡ true
    → any (free_for id name) ps ≡ false
    → All (λ q. apart p q ≡ true) ps
    → All (λ q. apart (renamed name p) q ≡ true) ps
AllApart-renamed p id name [] e f _ = tt
AllApart-renamed p id name (q ∷ ps) e f (h, k) = (
  ground (arith, eq_iff p.id id, eq_iff q.id id, eq_iff q.id p.id),
  AllApart-renamed p id name ps e (ground arith) k,
)

AllApart-modify :
    (ps : List RuleProfile) (id name : String) {i : ℕ}
    → AllApart ps
    → find_idx? (λ p. str_eq p.id id) ps ≡ some i
    → any (free_for id name) ps ≡ false
    → AllApart (modify (renamed name) ps i)
AllApart-modify [] id name h e f = cc
AllApart-modify (p ∷ ps) id name {i} (h, k) e f = elim (Bool-cases (str_eq p.id id)) [
  | inl hit ↦
      let z : i ≡ 0 = ground (arith, e, hit) in
      rw z (AllApart-renamed p id name ps hit (ground arith) h, k)
  | inr miss ↦ elim (Option-cases (find_idx? (λ q. str_eq q.id id) ps)) [
    | inl absent ↦ ground (arith, e, miss, absent)
    | inr (j, found) ↦
        let z : i ≡ suc j = ground (arith, e, miss, found) in
        rw z (
          AllApart-unchanged p id name ps j miss (ground arith) h,
          AllApart-modify ps id name k found (ground arith),
        )
  ]
]

pub rename_profile-IsWellFormed :
    (disk : Disk) (c : Config) (id name : String)
    → IsWellFormed c
    → IsWellFormed (rename_profile disk c id name).0
unfolding rename_profile profile_by_id
rename_profile-IsWellFormed disk c id name v =
    elim (Option-cases (find_idx? (λ p. str_eq p.id id) c.profiles)) [
      | inl absent ↦ record { apart_profiles = ground arith; active_known = ground arith }
      | inr (i, found) ↦ record {
        apart_profiles = elim (Bool-cases (any (free_for id name) c.profiles)) [
          | inl taken ↦ ground (arith, found, taken, v.apart_profiles)
          | inr free ↦ ground (
            arith,
            found,
            free,
            v.apart_profiles,
            AllApart-modify c.profiles id name v.apart_profiles found free,
          )
        ];
        active_known = ground (
          arith,
          found,
          v.active_known,
          find_idx?-modify (λ p. str_eq p.id c.active_profile_id) (renamed name) c.profiles i
              (λ p. refl),
        );
      }
    ]

AllApart-erase_idx : (ps : List RuleProfile) (i : ℕ) → AllApart ps → AllApart (erase_idx ps i)
AllApart-erase_idx [] i _ = tt
AllApart-erase_idx (p ∷ ps) zero (h, k) = k
AllApart-erase_idx (p ∷ ps) (suc i) (h, k) =
    (All-erase_idx (λ q. apart p q ≡ true) ps i h, AllApart-erase_idx ps i k)

first_known :
    (ps : List RuleProfile) (d : String)
    → 0 < length ps
    → is_some (find_idx? (λ p. str_eq p.id (first_id ps d)) ps) ≡ true
unfolding first_id
first_known [] d h = absurd (omega arith)
first_known (p ∷ ps) d h = rw (str_eq_refl p.id)

pub delete_profile-IsWellFormed :
    (disk : Disk) (c : Config) (id : String)
    → IsWellFormed c
    → IsWellFormed (delete_profile disk c id).0
unfolding delete_profile profile_by_id
delete_profile-IsWellFormed disk c id v =
    elim (Option-cases (find_idx? (λ p. str_eq p.id id) c.profiles)) [
      | inl absent ↦ record { apart_profiles = ground arith; active_known = ground arith }
      | inr (i, found) ↦ record {
        apart_profiles =
            ground
              (arith, found, v.apart_profiles, AllApart-erase_idx c.profiles i v.apart_profiles);
        active_known = elim (Bool-cases (str_eq c.active_profile_id id)) [
          | inl was_active ↦ elim (Bool-cases (length c.profiles == 1)) [
            | inl only ↦ ground (arith, found, only, v.active_known)
            | inr more ↦
                let left = length-erase_idx (λ p. str_eq p.id id) c.profiles found in
                let some_left : 0 < length (erase_idx c.profiles i) =
                  ground (arith, left, more, found) in
                ground (
                  arith,
                  found,
                  more,
                  was_active,
                  first_known (erase_idx c.profiles i) c.active_profile_id some_left,
                )
          ]
          | inr other ↦ ground (
            arith,
            found,
            other,
            v.active_known,
            find_idx?-erase_idx (λ p. str_eq p.id id) (λ p. str_eq p.id c.active_profile_id)
                c.profiles
                (λ p h. ground (
                  arith,
                  eq_iff p.id id,
                  eq_iff p.id c.active_profile_id,
                  eq_iff c.active_profile_id id,
                ))
                found v.active_known,
          )
        ];
      }
    ]

pub set_active_profile-IsWellFormed :
    (disk : Disk) (c : Config) (id : String)
    → IsWellFormed c
    → IsWellFormed (set_active_profile disk c id).0
unfolding set_active_profile profile_by_id
set_active_profile-IsWellFormed disk c id v = record {
  apart_profiles = ground arith;
  active_known = ground arith;
}
