-- ===== src/Convert/Stream/Frames.antt =====
-- convert/stream.go: the bytes of a stream, cut at the blank lines that end its frames, and the
-- functions of package bytes that it uses. A byte is a number; a text here is ASCII.
use Prim.Native.Char.{code}
use Prim.Native.String.{String}
use llm_api_router.Prelude.{
  ℕ, suc, Bool, true, false, ◌&&◌, ◌||◌, Option, none, some, List, [], ◌∷◌, length, drop, ltb, ◌==◌,
  if◌then◌else◌,
}

abbrev pub Bytes : Type 0
Bytes = List ℕ

abbrev pub cr : ℕ
cr = 13

abbrev pub lf : ℕ
lf = 10

-- `[]byte(s)`.
unfoldable pub bytes_of : String → Bytes
bytes_of String.[] = []
bytes_of (String.◌∷◌ c s) = code c ∷ bytes_of s

-- `bytes.HasPrefix(b, term)`.
unfoldable pub begins : Bytes → Bytes → Bool
begins [] b = true
begins (t ∷ ts) [] = false
begins (t ∷ ts) (x ∷ b) = x == t && begins ts b

-- `bytes.Equal`.
unfoldable pub bytes_eq : Bytes → Bytes → Bool
bytes_eq [] [] = true
bytes_eq [] (y ∷ ys) = false
bytes_eq (x ∷ xs) [] = false
bytes_eq (x ∷ xs) (y ∷ ys) = x == y && bytes_eq xs ys

-- `bytes.Index(b, term)`.
unfoldable pub index_of : Bytes → Bytes → Option ℕ
unfolding begins
index_of term [] = if begins term [] then some 0 else none
index_of term (x ∷ b) =
    let later = index_of term b in
    if begins term (x ∷ b) then some 0 else elim later [ none ↦ none | some i ↦ some (suc i) ]

-- The better of the best terminator so far and the next one: the leftmost, else the first.
unfoldable pub leftmost : Option (ℕ × ℕ) → Option ℕ → ℕ → Option (ℕ × ℕ)
leftmost none none size = none
leftmost none (some i) size = some (i, size)
leftmost (some (best, n)) none size = some (best, n)
leftmost (some (best, n)) (some i) size = if ltb i best then some (i, size) else some (best, n)

abbrev pub crlf_crlf : Bytes
crlf_crlf = cr ∷ lf ∷ cr ∷ lf ∷ []

abbrev pub lf_lf : Bytes
lf_lf = lf ∷ lf ∷ []

abbrev pub cr_cr : Bytes
cr_cr = cr ∷ cr ∷ []

-- Where the first frame ends, and the length of its terminator.
unfoldable pub frame_end : Bytes → Option (ℕ × ℕ)
unfolding index_of leftmost
frame_end b =
    leftmost (leftmost (leftmost none (index_of crlf_crlf b) 4) (index_of lf_lf b) 2)
      (index_of cr_cr b) 2

-- ASCII white space.
abbrev pub is_space : ℕ → Bool
is_space x = x == 32 || x == 9 || x == 10 || x == 11 || x == 12 || x == 13

abbrev pub is_line_end : ℕ → Bool
is_line_end x = x == cr || x == lf

module _ (p : ℕ → Bool) where
  unfoldable pub trim_left : Bytes → Bytes
  trim_left [] = []
  trim_left (x ∷ b) = let rest = trim_left b in if p x then rest else x ∷ b

  unfoldable pub trim_right : Bytes → Bytes
  trim_right [] = []
  trim_right (x ∷ b) =
      let rest = trim_right b in elim rest [ [] ↦ if p x then [] else x ∷ [] | y ∷ ys ↦ x ∷ y ∷ ys ]

  -- What stands before the first byte of a set.
  unfoldable pub before_any : Bytes → Bytes
  before_any [] = []
  before_any (x ∷ b) = let rest = before_any b in if p x then [] else x ∷ rest

unfoldable pub trim_space : Bytes → Bytes
unfolding trim_left trim_right
trim_space b = trim_right is_space (trim_left is_space b)

-- `bytes.TrimPrefix`.
unfoldable pub trim_prefix : Bytes → Bytes → Bytes
unfolding begins
trim_prefix p b = if begins p b then drop (length p) b else b
