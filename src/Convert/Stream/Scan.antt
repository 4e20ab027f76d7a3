-- ===== src/Convert/Stream/Scan.antt =====
-- The three searches of `frameEnd` find what one scan from the left finds.
use llm_api_router.Prelude.{
  ℕ, suc, ◌+◌, ◌≤◌, ◌≡◌, refl, sym, ap, ◌∙◌, subst, true, false, Option, none, some, [], ◌∷◌, ◌++◌,
  arith, length, if◌then◌else◌, Bool-cases, inl, inr,
}
use llm_api_router.Convert.Stream.Frames.{
  Bytes, cr, lf, begins, index_of, leftmost, crlf_crlf, lf_lf, cr_cr, frame_end,
}

-- One byte further.
abbrev pub shift : Option (ℕ × ℕ) → Option (ℕ × ℕ)
shift none = none
shift (some (i, n)) = some (suc i, n)

-- The first place where a terminator stands.
unfoldable pub scan : Bytes → Option (ℕ × ℕ)
unfolding begins
scan [] = none
scan (x ∷ b) =
    let later = scan b in
    if begins crlf_crlf (x ∷ b)
    then some (0, 4)
    else if begins lf_lf (x ∷ b)
    then some (0, 2)
    else if begins cr_cr (x ∷ b)
    then some (0, 2)
    else shift later

abbrev next_index : Option ℕ → Option ℕ
next_index none = none
next_index (some i) = some (suc i)

-- `frameEnd` on the answers of its searches.
abbrev best : Option ℕ → Option ℕ → Option ℕ → Option (ℕ × ℕ)
best o1 o2 o3 = leftmost (leftmost (leftmost none o1 4) o2 2) o3 2

best-shift :
    (o1 o2 o3 : Option ℕ)
    → best (next_index o1) (next_index o2) (next_index o3) ≡ shift (best o1 o2 o3)
unfolding leftmost
best-shift none none none = refl
best-shift none none (some k) = refl
best-shift none (some j) none = refl
best-shift none (some j) (some k) = ground arith
best-shift (some i) none none = refl
best-shift (some i) none (some k) = ground arith
best-shift (some i) (some j) none = ground arith
best-shift (some i) (some j) (some k) = ground arith

leftmost-zero : (n : ℕ) (o : Option ℕ) (m : ℕ) → leftmost (some (0, n)) o m ≡ some (0, n)
unfolding leftmost
leftmost-zero n none m = refl
leftmost-zero n (some i) m = ground arith

best-first : (o2 o3 : Option ℕ) → best (some 0) o2 o3 ≡ some (0, 4)
unfolding leftmost
best-first o2 o3 = rw (leftmost-zero 4 o2 2, leftmost-zero 4 o3 2)

best-second : (o1 o3 : Option ℕ) → best (next_index o1) (some 0) o3 ≡ some (0, 2)
unfolding leftmost
best-second none o3 = leftmost-zero 2 o3 2
best-second (some i) o3 =
    let e : leftmost (some (suc i, 4)) (some 0) 2 ≡ some (0, 2) = ground arith in
    rw (e, leftmost-zero 2 o3 2)

best-third : (o1 o2 : Option ℕ) → best (next_index o1) (next_index o2) (some 0) ≡ some (0, 2)
unfolding leftmost
best-third none none = refl
best-third none (some j) = ground arith
best-third (some i) none = ground arith
best-third (some i) (some j) = ground arith

index_of-hit : (t b : Bytes) (x : ℕ) → begins t (x ∷ b) ≡ true → index_of t (x ∷ b) ≡ some 0
unfolding index_of
index_of-hit t b x h = rw (index_of, h)

index_of-miss :
    (t b : Bytes) (x : ℕ)
    → begins t (x ∷ b) ≡ false
    → index_of t (x ∷ b) ≡ next_index (index_of t b)
unfolding index_of
index_of-miss t b x h = ground (arith, h)

-- The leftmost of the three terminators that `frameEnd` searches for is what one scan finds,
-- on every text.
pub frame_end-scan : (b : Bytes) → frame_end b ≡ scan b
unfolding frame_end scan
frame_end-scan [] = refl
frame_end-scan (x ∷ b) =
    let o1 = index_of crlf_crlf b in
    let o2 = index_of lf_lf b in
    let o3 = index_of cr_cr b in
    elim (Bool-cases (begins crlf_crlf (x ∷ b))) [
      | inl h1 ↦
          rw (index_of-hit crlf_crlf b x h1, h1)
            (best-first (index_of lf_lf (x ∷ b)) (index_of cr_cr (x ∷ b)))
      | inr h1 ↦ elim (Bool-cases (begins lf_lf (x ∷ b))) [
        | inl h2 ↦
            rw (index_of-miss crlf_crlf b x h1, index_of-hit lf_lf b x h2, h1, h2)
              (best-second o1 (index_of cr_cr (x ∷ b)))
        | inr h2 ↦ elim (Bool-cases (begins cr_cr (x ∷ b))) [
          | inl h3 ↦
              rw
                (
                  index_of-miss crlf_crlf b x h1,
                  index_of-miss lf_lf b x h2,
                  index_of-hit cr_cr b x h3,
                  h1,
                  h2,
                  h3,
                )
                (best-third o1 o2)
          | inr h3 ↦
              rw
                (
                  index_of-miss crlf_crlf b x h1,
                  index_of-miss lf_lf b x h2,
                  index_of-miss cr_cr b x h3,
                  h1,
                  h2,
                  h3,
                )
                (best-shift o1 o2 o3 ∙ ap shift (frame_end-scan b))
        ]
      ]
    ]

begins-append : (t a b : Bytes) → begins t a ≡ true → begins t (a ++ b) ≡ true
unfolding begins
begins-append [] a b h = refl
begins-append (t ∷ ts) [] b h = ground (arith, h)
begins-append (t ∷ ts) (x ∷ a) b h = ground (arith, h, begins-append ts a b)

-- Bytes that arrive later make no terminator before one that is there.
no_new_crlf :
    (x : ℕ) (a b : Bytes) (r : ℕ × ℕ)
    → scan a ≡ some r
    → begins crlf_crlf (x ∷ a) ≡ false
    → begins crlf_crlf (x ∷ a ++ b) ≡ false
unfolding scan begins
no_new_crlf x [] b r h m = ground (arith, h)
no_new_crlf x (y ∷ []) b r h m = ground (arith, h)
no_new_crlf x (y ∷ z ∷ []) b r h m = ground (arith, h)
no_new_crlf x (y ∷ z ∷ w ∷ a) b r h m = m

no_new_pair :
    (x c d : ℕ) (a b : Bytes) (r : ℕ × ℕ)
    → scan a ≡ some r
    → begins (c ∷ d ∷ []) (x ∷ a) ≡ false
    → begins (c ∷ d ∷ []) (x ∷ a ++ b) ≡ false
unfolding scan begins
no_new_pair x c d [] b r h m = ground (arith, h)
no_new_pair x c d (y ∷ a) b r h m = m

-- The four answers of a scan at a byte.
module _ (x : ℕ) (a : Bytes) where
  scan-crlf : begins crlf_crlf (x ∷ a) ≡ true → scan (x ∷ a) ≡ some (0, 4)
  unfolding scan
  scan-crlf h = rw (scan, h)

  scan-lf :
      begins crlf_crlf (x ∷ a) ≡ false → begins lf_lf (x ∷ a) ≡ true → scan (x ∷ a) ≡ some (0, 2)
  unfolding scan
  scan-lf h k = rw (scan, h, k)

  scan-cr :
      begins crlf_crlf (x ∷ a) ≡ false
      → begins lf_lf (x ∷ a) ≡ false
      → begins cr_cr (x ∷ a) ≡ true
      → scan (x ∷ a) ≡ some (0, 2)
  unfolding scan
  scan-cr h k m = rw (scan, h, k, m)

  scan-later :
      begins crlf_crlf (x ∷ a) ≡ false
      → begins lf_lf (x ∷ a) ≡ false
      → begins cr_cr (x ∷ a) ≡ false
      → scan (x ∷ a) ≡ shift (scan a)
  unfolding scan
  scan-later h k m = rw (scan, h, k, m)

shift-some : (o : Option (ℕ × ℕ)) {r : ℕ × ℕ} → shift o ≡ some r → (q : ℕ × ℕ) × (o ≡ some q)
shift-some none h = ground (arith, h)
shift-some (some q) h = (q, refl)

-- No two terminators begin at one place.
lf-crlf : (b : Bytes) → begins lf_lf b ≡ true → begins crlf_crlf b ≡ false
unfolding begins
lf-crlf [] h = refl
lf-crlf (x ∷ b) h = ground (arith, h)

cr-lf : (b : Bytes) → begins cr_cr b ≡ true → begins lf_lf b ≡ false
unfolding begins
cr-lf [] h = refl
cr-lf (x ∷ b) h = ground (arith, h)

cr-crlf : (b : Bytes) → begins cr_cr b ≡ true → begins crlf_crlf b ≡ false
unfolding begins
cr-crlf [] h = refl
cr-crlf (x ∷ []) h = ground (arith, h)
cr-crlf (x ∷ y ∷ b) h = ground (arith, h)

-- A terminator that a text holds whole is found in the same place when more bytes follow.
pub scan-append : (a b : Bytes) (r : ℕ × ℕ) → scan a ≡ some r → scan (a ++ b) ≡ some r
unfolding scan
scan-append [] b r h = ground (arith, h)
scan-append (x ∷ a) b r h = elim (Bool-cases (begins crlf_crlf (x ∷ a))) [
  | inl h1 ↦
      scan-crlf x (a ++ b) (begins-append crlf_crlf (x ∷ a) b h1) ∙ sym (scan-crlf x a h1) ∙ h
  | inr h1 ↦ elim (Bool-cases (begins lf_lf (x ∷ a))) [
    | inl h2 ↦
        let k = begins-append lf_lf (x ∷ a) b h2 in
        scan-lf x (a ++ b) (lf-crlf (x ∷ a ++ b) k) k ∙ sym (scan-lf x a h1 h2) ∙ h
    | inr h2 ↦ elim (Bool-cases (begins cr_cr (x ∷ a))) [
      | inl h3 ↦
          let k = begins-append cr_cr (x ∷ a) b h3 in
          scan-cr x (a ++ b) (cr-crlf (x ∷ a ++ b) k) (cr-lf (x ∷ a ++ b) k) k
          ∙ sym (scan-cr x a h1 h2 h3)
          ∙ h
      | inr h3 ↦
          let (q, e) = shift-some (scan a) (sym (scan-later x a h1 h2 h3) ∙ h) in
          scan-later x (a ++ b) (no_new_crlf x a b q e h1) (no_new_pair x lf lf a b q e h2)
            (no_new_pair x cr cr a b q e h3)
          ∙ ap shift (scan-append a b q e ∙ sym e)
          ∙ sym (scan-later x a h1 h2 h3)
          ∙ h
    ]
  ]
]

begins-length : (t a : Bytes) → begins t a ≡ true → length t ≤ length a
unfolding begins
begins-length [] a h = omega arith
begins-length (t ∷ ts) [] h = ground (arith, h)
begins-length (t ∷ ts) (x ∷ a) h = ground (arith, h, begins-length ts a)

abbrev EndsWithin : Bytes → Option (ℕ × ℕ) → Type 0
EndsWithin a none = Unit
EndsWithin a (some (i, n)) = (2 ≤ n) × (i + n ≤ length a)

shift-EndsWithin :
    (x : ℕ) (a : Bytes) (o : Option (ℕ × ℕ)) → EndsWithin a o → EndsWithin (x ∷ a) (shift o)
shift-EndsWithin x a none h = tt
shift-EndsWithin x a (some (i, n)) h = ground (arith, h)

scan-EndsWithin : (a : Bytes) → EndsWithin a (scan a)
unfolding scan
scan-EndsWithin [] = tt
scan-EndsWithin (x ∷ a) =
    let within = EndsWithin (x ∷ a) in
    elim (Bool-cases (begins crlf_crlf (x ∷ a))) [
      | inl h1 ↦
          subst within (sym (scan-crlf x a h1))
            (omega (arith), omega (arith, begins-length crlf_crlf (x ∷ a) h1))
      | inr h1 ↦ elim (Bool-cases (begins lf_lf (x ∷ a))) [
        | inl h2 ↦
            subst within (sym (scan-lf x a h1 h2))
              (omega (arith), omega (arith, begins-length lf_lf (x ∷ a) h2))
        | inr h2 ↦ elim (Bool-cases (begins cr_cr (x ∷ a))) [
          | inl h3 ↦
              subst within (sym (scan-cr x a h1 h2 h3))
                (omega (arith), omega (arith, begins-length cr_cr (x ∷ a) h3))
          | inr h3 ↦
              subst within (sym (scan-later x a h1 h2 h3))
                (shift-EndsWithin x a (scan a) (scan-EndsWithin a))
        ]
      ]
    ]

-- The frame that is found ends within the text.
pub scan-bounds : (a : Bytes) (i n : ℕ) → scan a ≡ some (i, n) → (2 ≤ n) × (i + n ≤ length a)
scan-bounds a i n h = subst (EndsWithin a) h (scan-EndsWithin a)
