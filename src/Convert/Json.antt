-- ===== src/Convert/Json.antt =====
-- encoding/json as convert/ uses it: a decoded value, and the reading of Go strings, numbers,
-- pointers and slices out of it. The bytes-to-value step is a parameter of what uses this file.
-- A null leaves a field at its zero value, a value of another type fails the whole decoding.
-- Keys are met by exact case, and an object holds each of its keys once.
use Prim.Native.String.{◌++◌ as append, slice}
use Prim.Native.Nat.{ℕ, zero, suc, ◌/◌, ◌%◌}
use llm_api_router.Prelude.{
  ℤ, String, Bool, Option, none, some, List, [], ◌∷◌, str_eq, if◌then◌else◌, ltb,
}

mutual
  pub data Json : Type 0 where
    null : Json
    bool : Bool → Json
    -- A number that a Go int holds.
    int : ℤ → Json
    -- Any other number, as its text.
    real : String → Json
    str : String → Json
    arr : Items → Json
    obj : Members → Json

  pub data Items : Type 0 where
    nil : Items
    cons : Json → Items → Items

  pub data Members : Type 0 where
    end : Members
    member : String → Json → Members → Members

-- `map[string]json.RawMessage` at a key.
unfoldable pub field : String → Members → Option Json
field k end = none
field k (member j v ms) = if str_eq j k then some v else field k ms

-- A decoding that uses another's result, and fails where that fails.
infixl 5 ◌>>=◌ ◌>>◌
abbrev pub ◌>>=◌ {ℓ κ} : {A : Type ℓ} {B : Type κ} → Option A → (A → Option B) → Option B
none >>= f = none
some a >>= f = f a

abbrev pub ◌>>◌ {ℓ κ} : {A : Type ℓ} {B : Type κ} → Option A → Option B → Option B
m >> k = m >>= λ _. k

-- Decoding into a `map[string]json.RawMessage`.
abbrev pub members_of : Json → Option Members
members_of null = some end
members_of (obj ms) = some ms
members_of _ = none

-- Decoding a field into a string, an int, a struct, a pointer and a slice.
abbrev pub as_string : Option Json → Option String
as_string none = some ""
as_string (some null) = some ""
as_string (some (str s)) = some s
as_string (some _) = none

abbrev pub as_int : Option Json → Option ℤ
as_int none = some (ℤ.pos 0)
as_int (some null) = some (ℤ.pos 0)
as_int (some (int n)) = some n
as_int (some _) = none

abbrev pub as_struct : Option Json → Option Members
as_struct none = some end
as_struct (some v) = members_of v

abbrev pub as_items : Option Json → Option Items
as_items none = some nil
as_items (some null) = some nil
as_items (some (arr vs)) = some vs
as_items (some _) = none

module _ {ℓ} {A : Type ℓ} (decode : Members → Option A) where
  abbrev pub as_pointer : Option Json → Option (Option A)
  as_pointer none = some none
  as_pointer (some null) = some none
  as_pointer (some (obj ms)) = decode ms >>= λ a. some (some a)
  as_pointer (some _) = none

  abbrev pub each_struct : Items → Option (List A)
  each_struct nil = some []
  each_struct (cons v vs) =
      let rest = each_struct vs in
      members_of v >>= λ ms. decode ms >>= λ a. rest >>= λ more. some (a ∷ more)

-- `strconv.Itoa` of a number that is not negative.
abbrev pub digit : ℕ → String
digit n = slice "0123456789" n (suc n)

unfoldable pub digits : ℕ → ℕ → String
digits zero n = ""
digits (suc fuel) n =
    let high = digits fuel (n / 10) in if ltb n 10 then digit n else append high (digit (n % 10))

unfoldable pub itoa : ℕ → String
unfolding digits
itoa n = digits (suc n) n
