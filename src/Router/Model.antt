-- ===== src/Router/Model.antt =====
-- router/router.go: the model that a JSON body names, found by a scan over its bytes.
mod Tests
use llm_api_router.Prelude.{
  ℕ, zero, suc, ◌+◌, ◌≤◌, ◌≡◌, refl, sym, ap, ◌∙◌, ℤ, pos, negsuc, ◌+ℤ◌, eqb_ℤ, Bool, true, false,
  not, ◌&&◌, ◌||◌, Option, none, some, List, [], ◌∷◌, ◌++◌, length, take, drop, ltb, leb, ◌==◌, All,
  if◌then◌else◌, arith, Bool-cases, inl, inr,
}
use llm_api_router.Convert.Stream.Frames.{Bytes, begins, index_of, trim_space}

abbrev quote : ℕ
quote = 34

abbrev backslash : ℕ
backslash = 92

-- `"model"`, with its quotes.
abbrev pub model_key : Bytes
model_key = 34 ∷ 109 ∷ 111 ∷ 100 ∷ 101 ∷ 108 ∷ 34 ∷ []

-- An error of an unterminated value is `invalid`.
pub data ModelField : Type 0 where
  named : Bytes → ModelField
  missing invalid : ModelField

-- The bytes after the quote that ends a string, begun before them; `escaped` is true after a
-- backslash, which takes the next byte with it.
unfoldable pub skip_string : Bool → Bytes → Bytes
skip_string escaped [] = []
skip_string escaped (x ∷ b) =
    let rest = skip_string (not escaped && x == backslash) b in
    if not escaped && x == quote then b else rest

-- Where the string ends.
unfoldable pub json_string_end : Bool → Bytes → Option ℕ
json_string_end escaped [] = none
json_string_end escaped (x ∷ b) =
    let rest = json_string_end (not escaped && x == backslash) b in
    if not escaped && x == quote then some 0 else elim rest [ none ↦ none | some i ↦ some (suc i) ]

abbrev pub is_json_space : ℕ → Bool
is_json_space x = x == 32 || x == 9 || x == 10 || x == 13

unfoldable pub skip_json_space : Bytes → Bytes
skip_json_space [] = []
skip_json_space (x ∷ b) = let rest = skip_json_space b in if is_json_space x then rest else x ∷ b

abbrev is_json_name_char : ℕ → Bool
is_json_name_char x =
    (leb 97 x && leb x 122)
    || (leb 65 x && leb x 90)
    || (leb 48 x && leb x 57)
    || x == 95
    || x == 45

abbrev starts_name : Bytes → Bool
starts_name [] = false
starts_name (x ∷ _) = is_json_name_char x

-- The value after the colon; `none` if it is no string.
unfoldable pub string_value : Bytes → Option ModelField
unfolding json_string_end
string_value [] = none
string_value (x ∷ b) =
    if x == quote
    then elim (json_string_end false b) [
      | none ↦ some invalid
      | some i ↦ some (named (trim_space (take i b)))
    ]
    else none

-- From just past the key. `none` has the caller scan on.
unfoldable pub parse_model_value : Bytes → Option ModelField
unfolding index_of string_value skip_json_space
parse_model_value b = elim (index_of (58 ∷ []) b) [
  | none ↦ none
  | some i ↦ string_value (skip_json_space (drop (suc i) b))
]

-- At the quote that begins a string.
unfoldable pub model_at : ℤ → Bytes → Option ModelField
unfolding parse_model_value begins
model_at depth b =
    if eqb_ℤ depth (pos 1) && begins model_key b && not (starts_name (drop 7 b))
    then parse_model_value (drop 7 b)
    else none

abbrev depth_after : ℕ → ℤ → ℤ
depth_after x depth =
    if x == 123 then depth +ℤ pos 1 else if x == 125 then depth +ℤ negsuc 0 else depth

unfoldable pub scan_model : ℕ → ℤ → Bytes → ModelField
unfolding model_at skip_string ◌+ℤ◌
scan_model zero depth b = missing
scan_model (suc fuel) depth [] = missing
scan_model (suc fuel) depth (x ∷ b) =
    let found = if x == quote then model_at depth (x ∷ b) else none in
    let next = if x == quote then skip_string false b else b in
    let rest = scan_model fuel (depth_after x depth) next in
    elim found [ none ↦ rest | some field ↦ field ]

-- A round of the scan takes a byte at least.
unfoldable pub extract_model : Bytes → ModelField
unfolding scan_model
extract_model body = scan_model (length body) (pos 0) body

skip_string-length : (escaped : Bool) (b : Bytes) → length (skip_string escaped b) ≤ length b
unfolding skip_string
skip_string-length escaped [] = omega arith
skip_string-length escaped (x ∷ b) =
    let later = skip_string-length (not escaped && x == backslash) b in
    elim (Bool-cases (not escaped && x == quote)) [
      | inl e ↦ rw e (omega arith)
      | inr e ↦ rw e (omega (arith, later))
    ]

-- With as much fuel as the body has bytes, more makes no difference.
pub scan_model-fuel :
    (n k : ℕ) (depth : ℤ) (b : Bytes)
    → length b ≤ n
    → length b ≤ k
    → scan_model n depth b ≡ scan_model k depth b
unfolding scan_model
scan_model-fuel zero zero depth b h j = refl
scan_model-fuel zero (suc k) depth [] h j = refl
scan_model-fuel zero (suc k) depth (x ∷ b) h j = ground (arith, h)
scan_model-fuel (suc n) zero depth [] h j = refl
scan_model-fuel (suc n) zero depth (x ∷ b) h j = ground (arith, j)
scan_model-fuel (suc n) (suc k) depth [] h j = refl
scan_model-fuel (suc n) (suc k) depth (x ∷ b) h j =
    let next : Bytes = if x == quote then skip_string false b else b in
    let short : length next ≤ length b = shorter x b in
    ap
      (λ (rest : ModelField). elim (if x == quote then model_at depth (x ∷ b) else none) [
        | none ↦ rest
        | some field ↦ field
      ])
      (scan_model-fuel n k (depth_after x depth) next (omega (arith, h, short))
        (omega (arith, j, short)))
  where
    shorter :
        (y : ℕ) (c : Bytes) → length (if y == quote then skip_string false c else c) ≤ length c
    shorter y c = elim (Bool-cases (y == quote)) [
      | inl e ↦ rw e (skip_string-length false c)
      | inr e ↦ rw e (omega arith)
    ]

-- Neither a quote nor a backslash.
abbrev pub IsPlain : ℕ → Type 0
IsPlain x = (x == quote || x == backslash) ≡ false

json_string_end-plain :
    (name rest : Bytes)
    → All IsPlain name
    → json_string_end false (name ++ quote ∷ rest) ≡ some (length name)
unfolding json_string_end
json_string_end-plain [] rest h = refl
json_string_end-plain (x ∷ name) rest (p, h) =
    let later = json_string_end-plain name rest h in
    let no_quote : (x == quote) ≡ false = ground (arith, p) in
    let no_escape : (x == backslash) ≡ false = ground (arith, p) in
    rw (no_quote, no_escape, later) refl

skip_json_space-lem :
    (space rest : Bytes)
    → All (λ x. is_json_space x ≡ true) space
    → skip_json_space (space ++ quote ∷ rest) ≡ quote ∷ rest
unfolding skip_json_space
skip_json_space-lem [] rest h = refl
skip_json_space-lem (x ∷ space) rest (p, h) = rw p (skip_json_space-lem space rest h)

take-length : (xs ys : Bytes) → take (length xs) (xs ++ ys) ≡ xs
take-length [] ys = refl
take-length (x ∷ xs) ys = ap (λ l. x ∷ l) (take-length xs ys)

parse_model_value-colon :
    (b : Bytes) → parse_model_value (58 ∷ b) ≡ string_value (skip_json_space b)
unfolding parse_model_value index_of begins
parse_model_value-colon b = refl

string_value-plain :
    (name rest : Bytes)
    → All IsPlain name
    → string_value (quote ∷ name ++ quote ∷ rest) ≡ some (named (trim_space name))
unfolding string_value
string_value-plain name rest h =
    rw (json_string_end-plain name rest h, take-length name (quote ∷ rest)) refl

-- A key at the start of an object whose value is a string settles the model.
scan_model-key :
    (b : Bytes) (field : ModelField)
    → parse_model_value (58 ∷ b) ≡ some field
    → extract_model (123 ∷ (model_key ++ 58 ∷ b)) ≡ field
unfolding extract_model scan_model model_at begins ◌+ℤ◌
scan_model-key b field h =
    let rest : ModelField =
      scan_model (length (drop 1 model_key ++ 58 ∷ b)) (pos 1)
        (skip_string false (drop 1 model_key ++ 58 ∷ b)) in
    ap (λ (o : Option ModelField). elim o [ none ↦ rest | some f ↦ f ]) h

-- A body that begins with the field `model` names that model, without the white space at its
-- ends, whatever follows: the name has no quote and no backslash, and there may be white space
-- after the colon.
pub extract_model-first :
    (space name rest : Bytes)
    → All (λ x. is_json_space x ≡ true) space
    → All IsPlain name
    → extract_model (123 ∷ (model_key ++ 58 ∷ (space ++ quote ∷ (name ++ quote ∷ rest))))
      ≡ named (trim_space name)
extract_model-first space name rest blank plain =
    scan_model-key (space ++ quote ∷ (name ++ quote ∷ rest)) (named (trim_space name)) (
      parse_model_value-colon (space ++ quote ∷ (name ++ quote ∷ rest))
      ∙ ap string_value (skip_json_space-lem space (name ++ quote ∷ rest) blank)
      ∙ string_value-plain name rest plain)
