-- ===== src/Convert/Stream/Protocol/Ending.antt =====
-- The end of a stream ends the message that was begun.

use llm_api_router.Prelude.{
  String, ◌≡◌, refl, sym, ap, ◌∙◌, Bool, true, false, not, ◌||◌, Option, none, some, List, [], ◌∷◌,
  ◌++◌, if◌then◌else◌, Bool-cases, ◌⊎◌, inl, inr, subst, All, All-of_append,
}
use llm_api_router.Convert.Stream.Event.{Event}
use llm_api_router.Convert.Stream.Emitter.{Emitter, new_emitter, then_do, close, restate}
use llm_api_router.Convert.Stream.Client.{
  Client, IsOwn, accept, follow, view, follow-one, follow-append, follow-cons, new_client,
}
use llm_api_router.Convert.Stream.Protocol.{IsLive, IsWellFormed, live_client}
use llm_api_router.Convert.Stream.Protocol.Closing.{close-Follows, shut_view, accept-restate}
use llm_api_router.Convert.Json.{Json}
use llm_api_router.Convert.Stream.Frames.{Bytes}
use llm_api_router.Convert.Stream.Frames.{trim_space}
use llm_api_router.Convert.Stream.Handler.{
  ChatToMessages, write_frames, close_message, finish_frames, new_chat_to_messages, take_tail,
  take_trimmed,
}
use llm_api_router.Convert.Stream.Event.{message_stop}
use llm_api_router.Convert.Stream.Protocol.{view-IsLive}
use llm_api_router.Convert.Stream.Protocol.Whole.{ServedStream, handle-Served, write_frames-Served}

-- A message that was begun is ended.
abbrev pub Ended : List Event → Client → Type 0
Ended es c = (d : Client) × (follow es c ≡ some d) × ((d.started ≡ false) ⊎ (d.ended ≡ true))

-- The closing events of a message that no error ended.
last_events-Ended :
    (s : Emitter)
    → IsLive s
    → Ended (then_do (close s) λ c. (c, restate c ∷ message_stop ∷ [])).1 (view s)
unfolding accept
last_events-Ended s l =
    let ((h, m), shut) = close-Follows s l in
    let c = (close s).0 in
    let clear = live_client c.next none [] in
    (
      record clear { ended = true },
      follow-append (close s).1 (restate c ∷ message_stop ∷ []) (view s) h
          ∙ ap (follow (restate c ∷ message_stop ∷ [])) (view-IsLive c m ∙ shut_view c shut)
          ∙ follow-cons (restate c) (message_stop ∷ []) clear clear (accept-restate c c.next)
          ∙ follow-one message_stop clear (record clear { ended = true }) refl,
      inr refl,
    )

close_message-Ended : (s : Emitter) → IsWellFormed s → Ended (close_message s).1 (view s)
unfolding close_message follow view
close_message-Ended s w =
    let at = λ (b : Bool).
      if b then (s, []) else then_do (close s) λ c. (c, restate c ∷ message_stop ∷ []) in
    elim (Bool-cases s.started) [
      | inr e ↦
          subst (λ r. Ended r.1 (view s)) (sym (ap (λ b. at (not b || s.failed)) e))
            (view s, refl, inl e)
      | inl e ↦ elim (Bool-cases s.failed) [
        | inl f ↦
            subst (λ r. Ended r.1 (view s))
              (sym (ap (λ b. at (not b || s.failed)) e ∙ ap (λ b. at b) f)) (view s, refl, inr f)
        | inr f ↦
            subst (λ r. Ended r.1 (view s))
              (sym (ap (λ b. at (not b || s.failed)) e ∙ ap (λ b. at b) f))
              (last_events-Ended s (record { well_formed = w; has_started = e; not_failed = f }))
      ]
    ]

Ended-append :
    (xs ys : List Event) (c d : Client) → follow xs c ≡ some d → Ended ys d → Ended (xs ++ ys) c
Ended-append xs ys c d h (e, k, done) = (e, follow-append xs ys c h ∙ k, done)

module _ (parse : Bytes → Option Json) (invented : String) where
  take_trimmed-Served :
      (b : Bytes) (c : ChatToMessages)
      → IsWellFormed c.emitter
      → ServedStream c (take_trimmed parse invented b c)
  unfolding take_trimmed follow
  take_trimmed-Served [] c w = (λ _. refl, w)
  take_trimmed-Served (x ∷ b) c w = handle-Served parse invented c.buf c.emitter w

  take_tail-Served :
      (c : ChatToMessages) → IsWellFormed c.emitter → ServedStream c (take_tail parse invented c)
  unfolding take_tail
  take_tail-Served c w = take_trimmed-Served (trim_space c.buf) c w

  finish_frames-Ended :
      (c : ChatToMessages)
      → IsWellFormed c.emitter
      → All IsOwn (finish_frames parse invented c).1
      → Ended (finish_frames parse invented c).1 (view c.emitter)
  unfolding finish_frames
  finish_frames-Ended c w own =
      let (h, w1) = take_tail-Served c w in
      let c1 = (take_tail parse invented c).0 in
      let closing = (close_message c1.emitter).1 in
      let (own_tail, _) = All-of_append IsOwn (take_tail parse invented c).1 closing own in
      Ended-append (take_tail parse invented c).1 closing (view c.emitter) (view c1.emitter)
        (h own_tail) (close_message-Ended c1.emitter w1)

  -- The events of a whole stream.
  abbrev pub whole_stream : List Bytes → List Event
  whole_stream fs =
      let (c, es) = write_frames parse invented fs new_chat_to_messages in
      es ++ (finish_frames parse invented c).1

  -- If no frame of the backend is passed through (one in the Anthropic dialect already), then
  -- whatever it sends, and however the reads split it, the events written from the opening of the
  -- stream to its end are ones that an Anthropic client takes in that order, and a message that was
  -- begun is ended: by a message_stop, with no block left open, or by an error.
  pub whole_stream-Ended :
      (fs : List Bytes) → All IsOwn (whole_stream fs) → Ended (whole_stream fs) new_client
  unfolding new_chat_to_messages new_emitter view
  whole_stream-Ended fs own =
      let c = new_chat_to_messages in
      let c1 = (write_frames parse invented fs c).0 in
      let (h, w) =
        write_frames-Served parse invented fs c
          (record { distinct = tt; below = tt; prose_ok = tt }) in
      let both =
        All-of_append IsOwn (write_frames parse invented fs c).1 (finish_frames parse invented c1).1
          own in
      Ended-append (write_frames parse invented fs c).1 (finish_frames parse invented c1).1
        (view c.emitter) (view c1.emitter) (h both.0) (finish_frames-Ended c1 w both.1)
