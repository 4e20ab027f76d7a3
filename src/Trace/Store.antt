-- ===== src/Trace/Store.antt =====
-- trace/store.go: the ring of traced requests, and the window in which requests are traced.
--
-- The store does not look into its entries but for their ids, so their type is a parameter.
pub mod Ring
mod Tests
use llm_api_router.Prelude.{
  ℕ, suc, ◌+◌, ◌*◌, ◌%◌, ◌^◌, ℤ, String, Bool, true, false, not, ◌&&◌, ◌||◌, Option, none, some,
  List, [], ◌∷◌, ◌++◌, ltb, is_pos, pos_part, any, str_eq, set, take, drop, replicate, ◌==◌,
  if◌then◌else◌,
}
use llm_api_router.Domain.Settings.{TraceSettings}

-- A zero time is no expiry. Go's zero entry fills the ring.
pub record Store {ℓ} (E : Type ℓ) : Type ℓ where
  pub entries : List E
  pub ring_idx : ℕ
  pub count : ℕ
  pub max : ℕ
  pub enabled : Bool
  pub expires_at : Option ℕ
  pub models : List String
  pub servers : List String

abbrev second : ℕ
second = 10 ^ 9

abbrev until : ℕ → ℤ → Option ℕ
until now seconds = if is_pos seconds then some (now + pos_part seconds * second) else none

abbrev is_nil {ℓ} : {A : Type ℓ} → List A → Bool
is_nil [] = true
is_nil (_ ∷ _) = false

unfoldable pub matches : List String → String → Bool
matches filter v = is_nil filter || any (λ f. str_eq f v) filter

abbrev is_over : Option ℕ → ℕ → Bool
is_over none now = false
is_over (some at) now = not (ltb now at)

module _ {ℓ} {E : Type ℓ} where
  unfoldable pub new_store : E → ℕ → ℕ → TraceSettings → Store E
  new_store zero_entry now max st = record {
    entries = replicate max zero_entry;
    ring_idx = 0;
    count = 0;
    max = max;
    enabled = st.enabled;
    expires_at = if st.enabled then until now st.seconds else none;
    models = st.models;
    servers = st.servers;
  }

  unfoldable pub start : Store E → ℕ → ℤ → List String → List String → Store E
  start s now seconds models servers = record s {
    enabled = true;
    expires_at = until now seconds;
    models = models;
    servers = servers;
  }

  unfoldable pub stop : Store E → Store E
  stop s = record s { enabled = false; expires_at = none }

  -- Whether tracing is off.
  unfoldable pub expire : Store E → ℕ → Store E × Bool
  expire s now =
      if not s.enabled
      then (s, true)
      else if is_over s.expires_at now
      then (record s { enabled = false; expires_at = none }, true)
      else (s, false)

  unfoldable pub window : Store E → ℕ → Store E × (Bool × Option ℕ)
  unfolding expire
  window s now = let (s1, _) = expire s now in (s1, (s1.enabled, s1.expires_at))

  unfoldable pub armed : Store E → ℕ → String → String → Store E × Bool
  unfolding expire matches
  armed s now model server_id =
      let (s1, off) = expire s now in
      if off then (s1, false) else (s1, matches s1.models model && matches s1.servers server_id)

  -- The ring.
  unfoldable pub add : Store E → E → Store E
  add s e = record s {
    entries = set s.entries s.ring_idx e;
    ring_idx = (s.ring_idx + 1) % s.max;
    count = if ltb s.count s.max then s.count + 1 else s.count;
  }

  unfoldable pub list : Store E → List E
  list s =
      if ltb s.count s.max
      then take s.count s.entries
      else drop s.ring_idx s.entries ++ take s.ring_idx s.entries

  abbrev find_last : (E → Bool) → List E → Option E
  find_last p [] = none
  find_last p (x ∷ xs) = elim (find_last p xs) [
    | some y ↦ some y
    | none ↦ if p x then some x else none
  ]

  -- The slots from the last used one down to the first.
  unfoldable pub get : (E → String) → Store E → String → Option E
  get id_of s id = find_last (λ e. str_eq (id_of e) id) (take s.count s.entries)

  unfoldable pub reset : E → Store E → Store E
  reset zero_entry s = record s { entries = replicate s.max zero_entry; ring_idx = 0; count = 0 }
