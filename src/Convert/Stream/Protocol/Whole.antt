-- ===== src/Convert/Stream/Protocol/Whole.antt =====
-- The frames of a stream against the protocol, where none is passed through.

use llm_api_router.Prelude.{
  ℕ, suc, ◌+◌, String, ◌≡◌, refl, sym, ap, ◌∙◌, Bool, true, false, Option, some, List, [], ◌∷◌,
  ◌++◌, is_empty, if◌then◌else◌, Bool-cases, Option-cases, inl, inr, subst,
}
use llm_api_router.Convert.Stream.Event.{Event, error_event}
use llm_api_router.Convert.Stream.Emitter.{Emitter, Step, fail_open, count, choices}
use llm_api_router.Convert.Stream.Client.{IsOwn, accept, follow, view, follow-one, follow-append}
use llm_api_router.Convert.Stream.Protocol.{IsWellFormed}
use llm_api_router.Convert.Stream.Protocol.Closing.{note-cases}
use llm_api_router.Convert.Json.{Json}
use llm_api_router.Convert.Stream.Frames.{Bytes}
use llm_api_router.Convert.Stream.Handler.{
  Verdict, inert, native, foreign, backend_error, chunk, act, handle, classify,
}
use llm_api_router.Convert.Stream.Frames.{frame_end}
use llm_api_router.Convert.Stream.Handler.{drain, ChatToMessages, write_frame, write_frames}
use llm_api_router.Prelude.{zero, take, drop, length, All, All-of_append}
use llm_api_router.Convert.Stream.Protocol.Message.{IsReady, choices-Keeps, count-Unseen, Keeps}

-- What the client follows, whether or not an error ends the stream.
abbrev Served : Emitter → Step → Type 0
Served s r = (All IsOwn r.1 → follow r.1 (view s) ≡ some (view r.0)) × IsWellFormed r.0

Keeps-Served : (s : Emitter) (r : Step) → Keeps s r → Served s r
Keeps-Served s r (h, l) = (λ _. h, l.well_formed)

named-IsReady : (i m : String) (s : Emitter) → IsReady s → IsReady (record s { id = i; model = m })
named-IsReady i m s r = record {
  well_formed = record {
    distinct = r.well_formed.distinct;
    below = r.well_formed.below;
    prose_ok = r.well_formed.prose_ok;
  };
  not_failed = r.not_failed;
}

failed-WellFormed :
    (ns : List String) (s : Emitter)
    → IsWellFormed s
    → IsWellFormed (record s { failed = true; notes = ns })
failed-WellFormed ns s w = record { distinct = w.distinct; below = w.below; prose_ok = w.prose_ok }

-- An error event ends the message.
error-follows :
    (ty msg : String) (s : Emitter)
    → s.failed ≡ false
    → follow (error_event ty msg ∷ []) (view s) ≡ some (view (record s { failed = true }))
unfolding view accept
error-follows ty msg s e =
    ap (λ b. follow (error_event ty msg ∷ []) (record (view s) { ended = b })) e
    ∙ follow-one (error_event ty msg) (record (view s) { ended = false })
        (record (view s) { ended = true }) refl

fail_open-Served : (s : Emitter) → IsReady s → Served s (fail_open s)
unfolding fail_open view
fail_open-Served s r =
    let failing = record s { failed = true } in
    let (ns, e) = note-cases "frame=untranslated" failing in
    (
      λ _.
          error-follows "api_error" "upstream sent a stream frame this proxy cannot translate" s
            r.not_failed
          ∙ ap (λ c. some (view c)) (sym e),
      subst IsWellFormed (sym e) (failed-WellFormed ns s r.well_formed),
    )

-- The frames of a stream.
abbrev pub ServedStream : ChatToMessages → ChatToMessages × List Event → Type 0
ServedStream c r =
    (All IsOwn r.1 → follow r.1 (view c.emitter) ≡ some (view r.0.emitter))
    × IsWellFormed r.0.emitter

module _ (parse : Bytes → Option Json) (invented : String) where
  act-Served :
      (frame : Bytes) (v : Verdict) (s : Emitter)
      → IsReady s
      → Served s (act parse invented frame v s)
  unfolding act view follow accept
  act-Served frame inert s r = (λ _. refl, r.well_formed)
  act-Served frame native s r = (λ own. absurd own.0, r.well_formed)
  act-Served frame foreign s r = fail_open-Served s r
  act-Served frame (backend_error ty msg) s r =
      (λ _. error-follows ty msg s r.not_failed, failed-WellFormed s.notes s r.well_formed)
  act-Served frame (chunk c) s r =
      let named = record s {
        id = if is_empty c.id then s.id else c.id;
        model = if is_empty c.model then s.model else c.model;
      } in
      let (r1, same) = count-Unseen c.usage named (named-IsReady named.id named.model s r) in
      let counted = count c.usage named in
      let (h, k) = choices-Keeps invented c.choices counted r1 in
      (λ _. ap (follow (choices invented c.choices counted).1) (sym same) ∙ h, k.well_formed)

  pub handle-Served :
      (frame : Bytes) (s : Emitter) → IsWellFormed s → Served s (handle parse invented frame s)
  unfolding handle follow
  handle-Served frame s w =
      let at = λ (b : Bool).
        if b then (s, []) else act parse invented frame (classify parse invented frame) s in
      elim (Bool-cases s.failed) [
        | inl e ↦ subst (Served s) (sym (ap at e)) (λ _. refl, w)
        | inr e ↦ subst (Served s) (sym (ap at e)) (
            act-Served frame (classify parse invented frame) s
              (record { well_formed = w; not_failed = e }))
      ]

  drain-Served :
      (n : ℕ) (b : Bytes) (s : Emitter) → IsWellFormed s → Served s (drain parse invented n b s).0
  unfolding drain follow
  drain-Served zero b s w = (λ _. refl, w)
  drain-Served (suc n) b s w = elim (Option-cases (frame_end b)) [
    | inl e ↦ rw (drain, e) (λ _. refl, w)
    | inr ((i, size), e) ↦
        let first = handle-Served (take i b) s w in
        let c = (handle parse invented (take i b) s).0 in
        let later = drain-Served n (drop (i + size) b) c first.1 in
        rw (drain, e)
          (
            λ own.
                let es = (handle parse invented (take i b) s).1 in
                let more = (drain parse invented n (drop (i + size) b) c).0.1 in
                let (a, o) = All-of_append IsOwn es more own in
                follow-append es more (view s) (first.0 a) ∙ later.0 o,
            later.1,
          )
  ]

  pub write_frames-Served :
      (fs : List Bytes) (c : ChatToMessages)
      → IsWellFormed c.emitter
      → ServedStream c (write_frames parse invented fs c)
  unfolding write_frames write_frame follow
  write_frames-Served [] c w = (λ _. refl, w)
  write_frames-Served (f ∷ fs) c w =
      let buf = c.buf ++ f in
      let first = drain-Served (suc (length buf)) buf c.emitter w in
      let c1 = (write_frame parse invented f c).0 in
      let later = write_frames-Served fs c1 first.1 in
      (
        λ own.
            let es = (write_frame parse invented f c).1 in
            let more = (write_frames parse invented fs c1).1 in
            let (a, o) = All-of_append IsOwn es more own in
            follow-append es more (view c.emitter) (first.0 a) ∙ later.0 o,
        later.1,
      )

  -- From a well-formed state, if the reads deliver no frame that is passed through (one in the
  -- Anthropic dialect already), the client takes every event in the order in which it is written,
  -- and knows at the end what the emitter's state says. The state is well formed again.
  pub write_frames-IsWellFormed :
      (fs : List Bytes) (c : ChatToMessages)
      → IsWellFormed c.emitter
      → All IsOwn (write_frames parse invented fs c).1
      → let r = write_frames parse invented fs c in
        (follow r.1 (view c.emitter) ≡ some (view r.0.emitter)) × IsWellFormed r.0.emitter
  write_frames-IsWellFormed fs c w own = let (h, w1) = write_frames-Served fs c w in (h own, w1)
