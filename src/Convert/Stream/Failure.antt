-- ===== src/Convert/Stream/Failure.antt =====
-- After an error nothing more is written.
use llm_api_router.Prelude.{
  ℕ, zero, suc, ◌+◌, String, ◌≡◌, refl, ap, ◌∙◌, sym, subst, arith, Bool, true, false, not, ◌||◌,
  Option, List, [], ◌∷◌, ◌++◌, length, take, drop, if◌then◌else◌, Option-cases, inl, inr,
}
use llm_api_router.Convert.Json.{Json}
use llm_api_router.Convert.Stream.Event.{Event, error_event, message_stop}
use llm_api_router.Convert.Stream.Emitter.{Emitter, Step, fail_open, note, then_do, close, restate}
use llm_api_router.Convert.Stream.Frames.{Bytes, frame_end, trim_space}
use llm_api_router.Convert.Stream.Handler.{
  Verdict, inert, native, foreign, backend_error, chunk, handle, act, classify, drain,
  ChatToMessages, write_frame, write_frames, take_trimmed, take_tail, finish_frames, close_message,
}

-- A frame that the emitter answers with an error.
abbrev pub is_error : Verdict → Bool
is_error (backend_error ty msg) = true
is_error foreign = true
is_error _ = false

close_message-failed : (s : Emitter) → s.failed ≡ true → (close_message s).1 ≡ []
unfolding close_message
close_message-failed s e =
    let at = λ (b : Bool).
      (if not s.started || b
        then (s, [])
        else then_do (close s) λ c. (c, restate c ∷ message_stop ∷ [])).1 in
    ap at e ∙ ground arith

module _ (parse : Bytes → Option Json) (invented : String) where
  act-error :
      (frame : Bytes) (v : Verdict) (s : Emitter)
      → is_error v ≡ true
      → ((act parse invented frame v s).0.failed ≡ true)
        × ((ty : String) × (msg : String) × ((act parse invented frame v s).1
              ≡ error_event ty msg ∷ []))
  unfolding act fail_open note
  act-error frame (backend_error ty msg) s h = (refl, (ty, msg, refl))
  act-error frame foreign s h = (
    ground arith,
    ("api_error", "upstream sent a stream frame this proxy cannot translate", refl),
  )
  act-error frame inert s h = ground (arith, h)
  act-error frame native s h = ground (arith, h)
  act-error frame (chunk c) s h = ground (arith, h)

module _ (parse : Bytes → Option Json) (invented : String) where
  handle-failed :
      (frame : Bytes) (s : Emitter) → s.failed ≡ true → handle parse invented frame s ≡ (s, [])
  unfolding handle
  handle-failed frame s e =
      ap (λ b. if b then (s, []) else act parse invented frame (classify parse invented frame) s) e

  drain-failed :
      (n : ℕ) (b : Bytes) (s : Emitter) → s.failed ≡ true → (drain parse invented n b s).0 ≡ (s, [])
  unfolding drain
  drain-failed zero b s e = refl
  drain-failed (suc n) b s e = elim (Option-cases (frame_end b)) [
    | inl f ↦ rw (drain, f) refl
    | inr ((i, size), f) ↦
        rw (drain, f, handle-failed (take i b) s e) (drain-failed n (drop (i + size) b) s e)
  ]

  -- Nothing is written, and the state stays.
  abbrev pub Silent : ChatToMessages → ChatToMessages × List Event → Type 0
  Silent c r = (r.0.emitter ≡ c.emitter) × (r.1 ≡ [])

  take_trimmed-failed :
      (b : Bytes) (c : ChatToMessages)
      → c.emitter.failed ≡ true
      → Silent c (take_trimmed parse invented b c)
  unfolding take_trimmed
  take_trimmed-failed [] c e = (refl, refl)
  take_trimmed-failed (x ∷ b) c e =
      let h = handle-failed c.buf c.emitter e in
      (ap (λ (r : Step). r.0) h, ap (λ (r : Step). r.1) h)

  write_frame-failed :
      (f : Bytes) (c : ChatToMessages)
      → c.emitter.failed ≡ true
      → Silent c (write_frame parse invented f c)
  unfolding write_frame
  write_frame-failed f c e =
      let h = drain-failed (suc (length (c.buf ++ f))) (c.buf ++ f) c.emitter e in
      (ap (λ (r : Emitter × List Event). r.0) h, ap (λ (r : Emitter × List Event). r.1) h)

  write_frames-Silent :
      (fs : List Bytes) (c : ChatToMessages)
      → c.emitter.failed ≡ true
      → Silent c (write_frames parse invented fs c)
  unfolding write_frames
  write_frames-Silent [] c e = (refl, refl)
  write_frames-Silent (f ∷ fs) c e =
      let (same, none_written) = write_frame-failed f c e in
      let c1 = (write_frame parse invented f c).0 in
      let (same1, none_later) =
        write_frames-Silent fs c1 (ap (λ (s : Emitter). s.failed) same ∙ e) in
      (same1 ∙ same, ap (λ l. l ++ (write_frames parse invented fs c1).1) none_written ∙ none_later)

  finish_frames-silent :
      (c : ChatToMessages) → c.emitter.failed ≡ true → (finish_frames parse invented c).1 ≡ []
  unfolding finish_frames take_tail
  finish_frames-silent c e =
      let tail = take_trimmed-failed (trim_space c.buf) c e in
      let c1 = (take_tail parse invented c).0 in
      let still : c1.emitter.failed ≡ true = ap (λ (s : Emitter). s.failed) tail.0 ∙ e in
      ap (λ l. l ++ (close_message c1.emitter).1) tail.1 ∙ close_message-failed c1.emitter still

  handle-error :
      (frame : Bytes) (s : Emitter)
      → s.failed ≡ false
      → is_error (classify parse invented frame) ≡ true
      → ((handle parse invented frame s).0.failed ≡ true)
        × ((ty : String) × (msg : String) × ((handle parse invented frame s).1
              ≡ error_event ty msg ∷ []))
  unfolding handle
  handle-error frame s open_ h =
      let at = λ (b : Bool).
        if b then (s, []) else act parse invented frame (classify parse invented frame) s in
      subst
        (λ (r : Step).
          (r.0.failed ≡ true) × ((ty : String) × (msg : String) × (r.1 ≡ error_event ty msg ∷ [])))
        (sym (ap at open_)) (act-error parse invented frame (classify parse invented frame) s h)

  -- A frame that reports an error of the backend, or that is of no known dialect, writes one event,
  -- an error; and after it, whatever the backend sends to the end of the stream leaves the emitter
  -- as it is and writes no event, and neither does the end. (A frame of the Anthropic dialect that
  -- names an error is passed through, and is not one of these.)
  pub write_frames-failed :
      (frame buf : Bytes) (s : Emitter) (fs : List Bytes)
      → s.failed ≡ false
      → is_error (classify parse invented frame) ≡ true
      → let s1 = (handle parse invented frame s).0 in
        let rest = write_frames parse invented fs (record { emitter = s1; buf = buf }) in
        ((ty : String) × (msg : String) × ((handle parse invented frame s).1
            ≡ error_event ty msg ∷ []))
        × (rest.0.emitter ≡ s1)
        × (rest.1 ≡ [])
        × ((finish_frames parse invented rest.0).1 ≡ [])
  write_frames-failed frame buf s fs open_ h =
      let (fails, one) = handle-error frame s open_ h in
      let s1 = (handle parse invented frame s).0 in
      let c : ChatToMessages = record { emitter = s1; buf = buf } in
      let (same, none_written) = write_frames-Silent fs c fails in
      (
        one,
        same,
        none_written,
        finish_frames-silent (write_frames parse invented fs c).0
            (ap (λ (x : Emitter). x.failed) same ∙ fails),
      )
