-- ===== src/Convert/Stream/Chunks.antt =====
-- How the reads split a stream does not matter: frames are cut by the bytes alone.
use mathlib.Core.List.{append-nil, append_assoc}
use llm_api_router.Prelude.{
  ℕ, zero, suc, ◌+◌, ◌≤◌, ◌<◌, String, ◌≡◌, refl, sym, ap, ◌∙◌, Option, none, some, List, [], ◌∷◌,
  ◌++◌, arith, length, take, drop, length-drop, Option-cases, inl, inr,
}
use llm_api_router.Convert.Json.{Json}
use llm_api_router.Convert.Stream.Event.{Event}
use llm_api_router.Convert.Stream.Emitter.{Emitter, Step}
use llm_api_router.Convert.Stream.Frames.{Bytes, frame_end}
use llm_api_router.Convert.Stream.Scan.{frame_end-scan, scan-append, scan-bounds}
use llm_api_router.Convert.Stream.Handler.{handle, drain, ChatToMessages, write_frame, write_frames}

frame_end-append : (a b : Bytes) (r : ℕ × ℕ) → frame_end a ≡ some r → frame_end (a ++ b) ≡ some r
frame_end-append a b r h = frame_end-scan (a ++ b) ∙ scan-append a b r (sym (frame_end-scan a) ∙ h)

frame_end-bounds : (a : Bytes) (i n : ℕ) → frame_end a ≡ some (i, n) → (2 ≤ n) × (i + n ≤ length a)
frame_end-bounds a i n h = scan-bounds a i n (sym (frame_end-scan a) ∙ h)

take-append_le : (i : ℕ) (a b : Bytes) → i ≤ length a → take i (a ++ b) ≡ take i a
take-append_le zero a b h = refl
take-append_le (suc i) [] b h = ground (arith, h)
take-append_le (suc i) (x ∷ a) b h = ap (λ l. x ∷ l) (take-append_le i a b (omega (arith, h)))

drop-append_le : (i : ℕ) (a b : Bytes) → i ≤ length a → drop i (a ++ b) ≡ drop i a ++ b
drop-append_le zero a b h = refl
drop-append_le (suc i) [] b h = ground (arith, h)
drop-append_le (suc i) (x ∷ a) b h = drop-append_le i a b (omega (arith, h))

abbrev pub Drained : Type 0
Drained = Step × Bytes

-- Events before those of a run.
abbrev pub prepend : List Event → Drained → Drained
prepend es ((s, more), rest) = ((s, es ++ more), rest)

prepend_append :
    (xs ys : List Event) (d : Drained) → prepend (xs ++ ys) d ≡ prepend xs (prepend ys d)
prepend_append xs ys ((s, more), rest) = ap (λ l. ((s, l), rest)) (append_assoc xs ys more)

module _ (parse : Bytes → Option Json) (invented : String) where
  drain_fuel :
      (n m : ℕ) (b : Bytes) (s : Emitter)
      → length b < n
      → length b < m
      → drain parse invented n b s ≡ drain parse invented m b s
  unfolding drain
  drain_fuel zero m b s h k = ground (arith, h)
  drain_fuel (suc n) zero b s h k = ground (arith, k)
  drain_fuel (suc n) (suc m) b s h k = elim (Option-cases (frame_end b)) [
    | inl e ↦ rw (drain, e)
    | inr ((i, size), e) ↦
        let (two, fits) = frame_end-bounds b i size e in
        let s1 = handle parse invented (take i b) s in
        rw (drain, e)
          (ap (prepend s1.1) (
            drain_fuel n m (drop (i + size) b) s1.0 (omega (arith, length-drop (i + size) b))
              (omega (arith, length-drop (i + size) b))))
  ]

  -- Everything whole in a buffer.
  abbrev drain_all : Bytes → Emitter → Drained
  drain_all b s = drain parse invented (suc (length b)) b s

  drain_all-none : (b : Bytes) (s : Emitter) → frame_end b ≡ none → drain_all b s ≡ ((s, []), b)
  unfolding drain
  drain_all-none b s e = rw (drain, e)

  drain_all-some :
      (b : Bytes) (s : Emitter) (i n : ℕ)
      → frame_end b ≡ some (i, n)
      → drain_all b s
        ≡ prepend
            (handle parse invented (take i b) s).1
            (drain_all (drop (i + n) b) (handle parse invented (take i b) s).0)
  unfolding drain
  drain_all-some b s i n e =
      let (two, fits) = frame_end-bounds b i n e in
      let s1 = handle parse invented (take i b) s in
      let shorter = length-drop (i + n) b in
      rw (drain, e)
        (ap (prepend s1.1) (
          drain_fuel (length b) (suc (length (drop (i + n) b))) (drop (i + n) b) s1.0
            (omega (arith, shorter)) (omega arith)))

  -- A run that goes on when more bytes are there.
  abbrev after : Drained → Bytes → Drained
  after ((s, es), rest) b = prepend es (drain_all (rest ++ b) s)

  after-prepend :
      (xs : List Event) (d : Drained) (b : Bytes) → after (prepend xs d) b ≡ prepend xs (after d b)
  after-prepend xs ((s, es), rest) b = prepend_append xs es (drain_all (rest ++ b) s)

  drain_all-append :
      (k : ℕ) (a b : Bytes) (s : Emitter)
      → length a < k
      → drain_all (a ++ b) s ≡ after (drain_all a s) b
  drain_all-append zero a b s h = ground (arith, h)
  drain_all-append (suc k) a b s h = elim (Option-cases (frame_end a)) [
    | inl e ↦ sym (ap (λ d. after d b) (drain_all-none a s e))
    | inr ((i, n), e) ↦
        let (two, fits) = frame_end-bounds a i n e in
        let s1 = handle parse invented (take i a) s in
        let rest = drop (i + n) a in
        let inner = drain_all-append k rest b s1.0 (omega (arith, length-drop (i + n) a)) in
        let first = take-append_le i a b (omega arith) in
        let later = drop-append_le (i + n) a b fits in
        drain_all-some (a ++ b) s i n (frame_end-append a b (i, n) e)
        ∙ ap
            (λ (p : Bytes × Bytes).
              prepend (handle parse invented p.0 s).1
                (drain_all p.1 (handle parse invented p.0 s).0))
            (ap (λ f. (f, drop (i + n) (a ++ b))) first ∙ ap (λ r. (take i a, r)) later)
        ∙ ap (prepend s1.1) inner
        ∙ sym (after-prepend s1.1 (drain_all rest s1.0) b)
        ∙ ap (λ d. after d b) (sym (drain_all-some a s i n e))
  ]

  -- The buffer holds no whole frame after a run.
  drain_all-rest :
      (k : ℕ) (a : Bytes) (s : Emitter) → length a < k → frame_end (drain_all a s).1 ≡ none
  drain_all-rest zero a s h = ground (arith, h)
  drain_all-rest (suc k) a s h = elim (Option-cases (frame_end a)) [
    | inl e ↦ ap (λ (d : Drained). frame_end d.1) (drain_all-none a s e) ∙ e
    | inr ((i, n), e) ↦
        let (two, fits) = frame_end-bounds a i n e in
        let s1 = handle parse invented (take i a) s in
        ap (λ (d : Drained). frame_end d.1) (drain_all-some a s i n e)
        ∙ drain_all-rest k (drop (i + n) a) s1.0 (omega (arith, length-drop (i + n) a))
  ]

abbrev pub flatten : List Bytes → Bytes
flatten [] = []
flatten (f ∷ fs) = f ++ flatten fs

-- Whether a stream waits for the end of a frame, as it does between reads.
abbrev pub IsSettled : ChatToMessages → Type 0
IsSettled c = frame_end c.buf ≡ none

module _ (parse : Bytes → Option Json) (invented : String) where
  -- The stream and the frames of a run.
  abbrev delivered : Drained → ChatToMessages × List Event
  delivered ((s, es), rest) = (record { emitter = s; buf = rest }, es)

  write_frame-IsSettled :
      (f : Bytes) (c : ChatToMessages) → IsSettled (write_frame parse invented f c).0
  unfolding write_frame
  write_frame-IsSettled f c =
      drain_all-rest parse invented (suc (length (c.buf ++ f))) (c.buf ++ f) c.emitter (omega arith)

  -- Between reads, a stream that is written in any number of pieces, cut at any places, is left
  -- in the state, and has written the events in the order, of the whole written at once.
  pub write_frames-flatten :
      (fs : List Bytes) (c : ChatToMessages)
      → IsSettled c
      → write_frames parse invented fs c ≡ write_frame parse invented (flatten fs) c
  unfolding write_frames write_frame
  write_frames-flatten [] c h = sym (
      ap delivered (
        ap (λ b. drain_all parse invented b c.emitter) (append-nil c.buf)
        ∙ drain_all-none parse invented c.buf c.emitter h))
  write_frames-flatten (f ∷ fs) c h =
      let d = drain_all parse invented (c.buf ++ f) c.emitter in
      ap (λ (r : ChatToMessages × List Event). (r.0, d.0.1 ++ r.1))
        (write_frames-flatten fs (delivered d).0 (write_frame-IsSettled f c))
      ∙ ap delivered (
          sym (
            drain_all-append parse invented (suc (length (c.buf ++ f))) (c.buf ++ f) (flatten fs)
              c.emitter (omega arith))
          ∙ ap (λ b. drain_all parse invented b c.emitter) (append_assoc c.buf f (flatten fs)))
