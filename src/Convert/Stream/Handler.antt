-- ===== src/Convert/Stream/Handler.antt =====
-- convert/stream.go: what a frame is, and what the emitter does with it and with the stream.
use llm_api_router.Prelude.{
  ℕ, zero, suc, ◌+◌, String, Bool, true, false, not, ◌||◌, Option, none, some, List, [], ◌∷◌, ◌++◌,
  any, is_some, is_empty, str_eq, length, take, drop, if◌then◌else◌,
}
use llm_api_router.Convert.Json.{Json, str, Members, end, field, members_of}
use llm_api_router.Convert.Stream.Event.{
  Event, message_stop, error_event, forwarded, Chunk, decode_chunk, chat_error_to_messages,
}
use llm_api_router.Convert.Stream.Emitter.{
  Emitter, new_emitter, Step, then_do, fail_open, count, choices, close, restate,
}
use llm_api_router.Convert.Stream.Frames.{
  Bytes, lf, bytes_of, bytes_eq, begins, frame_end, trim_space, trim_prefix, trim_right,
  is_line_end, before_any,
}

abbrev pub anthropic_events : List String
anthropic_events =
    "message_start" ∷ "content_block_start" ∷ "content_block_delta" ∷ "content_block_stop"
    ∷ "message_delta" ∷ "message_stop" ∷ "ping" ∷ "error" ∷ []

abbrev pub is_event_name : Bytes → Bool
is_event_name name = any (λ e. bytes_eq (bytes_of e) name) anthropic_events

unfoldable pub is_anthropic_event : Option Json → Bool
is_anthropic_event (some (str t)) = any (str_eq t) anthropic_events
is_anthropic_event _ = false

unfoldable pub reframe : Bytes → Bytes
unfolding trim_right
reframe frame = trim_right is_line_end frame ++ lf ∷ lf ∷ []

unfoldable pub is_chunk_shape : Members → Bool
unfolding field
is_chunk_shape ms = any (λ k. is_some (field k ms)) ("choices" ∷ "id" ∷ "model" ∷ "usage" ∷ [])

-- What a frame is: nothing to say, an Anthropic event, a frame of no known dialect, a backend's
-- error, a chat chunk.
pub data Verdict : Type 0 where
  inert native foreign : Verdict
  backend_error : String → String → Verdict
  chunk : Chunk → Verdict

abbrev pub is_end : Members → Bool
is_end end = true
is_end _ = false

unfoldable pub classify_error : Option (String × String) → Verdict
classify_error none = foreign
classify_error (some (ty, msg)) = backend_error ty msg

unfoldable pub classify_chunk : Option Chunk → Verdict
classify_chunk none = foreign
classify_chunk (some c) = chunk c

-- The test of the keys of the object that a frame's data is.
unfoldable pub classify_keys : Members → Verdict
unfolding field is_anthropic_event chat_error_to_messages classify_error is_chunk_shape
    classify_chunk decode_chunk
classify_keys ms =
    if is_anthropic_event (field "type" ms)
    then native
    else if is_some (field "error" ms)
    then classify_error (chat_error_to_messages ms)
    else if is_end ms
    then inert
    else if not (is_chunk_shape ms)
    then foreign
    else classify_chunk (decode_chunk ms)

unfoldable pub classify_json : Option Members → Verdict
unfolding classify_keys
classify_json none = foreign
classify_json (some ms) = classify_keys ms

-- A frame that names its event.
unfoldable pub classify_name : Bytes → Verdict
unfolding bytes_eq bytes_of trim_space before_any
classify_name name =
    if is_event_name (trim_space (before_any is_line_end name)) then native else foreign

-- The JSON values of bytes, and the id that a message gets when the backend sent none.
module _ (parse : Bytes → Option Json) (invented : String) where
  abbrev pub parse_members : Bytes → Option Members
  parse_members b = elim (parse b) [ none ↦ none | some v ↦ members_of v ]

  unfoldable pub classify_data : Bytes → Verdict
  unfolding bytes_eq bytes_of classify_json
  classify_data data_bytes = elim data_bytes [
    | [] ↦ inert
    | x ∷ b ↦
        if bytes_eq (x ∷ b) (bytes_of "[DONE]")
        then inert
        else classify_json (parse_members (x ∷ b))
  ]

  unfoldable pub classify : Bytes → Verdict
  unfolding trim_space begins bytes_of classify_name trim_prefix classify_data
  classify frame = elim (trim_space frame) [
    | [] ↦ inert
    | x ∷ b ↦
        if begins (bytes_of "event:") (x ∷ b)
        then classify_name (drop 6 (x ∷ b))
        else if begins (bytes_of ":") (x ∷ b)
        then inert
        else classify_data (trim_space (trim_prefix (bytes_of "data:") (x ∷ b)))
  ]

  -- The id, the model and the usage of a chunk, and then its choices.
  unfoldable pub act : Bytes → Verdict → Emitter → Step
  unfolding fail_open reframe count choices
  act frame inert s = (s, [])
  act frame native s = (s, forwarded (reframe frame) ∷ [])
  act frame foreign s = fail_open s
  act frame (backend_error ty msg) s = (record s { failed = true }, error_event ty msg ∷ [])
  act frame (chunk c) s =
      let named = record s {
        id = if is_empty c.id then s.id else c.id;
        model = if is_empty c.model then s.model else c.model;
      } in
      choices invented c.choices (count c.usage named)

  unfoldable pub handle : Bytes → Emitter → Step
  unfolding act classify
  handle frame s = if s.failed then (s, []) else act frame (classify frame) s

  -- The frames that a buffer holds whole, one after another, and what is left of it. The fuel is
  -- one more than its length.
  unfoldable pub drain : ℕ → Bytes → Emitter → Step × Bytes
  drain zero buf s = ((s, []), buf)
  drain (suc fuel) buf s = elim (frame_end buf) [
    | none ↦ ((s, []), buf)
    | some (i, n) ↦
        let (s1, es) = handle (take i buf) s in
        let ((s2, more), rest) = drain fuel (drop (i + n) buf) s1 in ((s2, es ++ more), rest)
  ]

pub record ChatToMessages : Type 0 where
  pub emitter : Emitter
  -- The held tail of a frame that was split across reads.
  pub buf : Bytes

unfoldable pub new_chat_to_messages : ChatToMessages
unfolding new_emitter
new_chat_to_messages = record { emitter = new_emitter; buf = [] }

-- The closing events, unless the message never began or an error ended it.
unfoldable pub close_message : Emitter → Step
close_message s =
    if not s.started || s.failed
    then (s, [])
    else then_do (close s) λ c. (c, restate c ∷ message_stop ∷ [])

module _ (parse : Bytes → Option Json) (invented : String) where
  unfoldable pub write_frame : Bytes → ChatToMessages → ChatToMessages × List Event
  unfolding drain
  write_frame frame c =
      let buf = c.buf ++ frame in
      let ((s, es), rest) = drain parse invented (suc (length buf)) buf c.emitter in
      (record { emitter = s; buf = rest }, es)

  -- A tail that is more than white space is a frame: the first argument is the tail trimmed.
  unfoldable pub take_trimmed : Bytes → ChatToMessages → ChatToMessages × List Event
  take_trimmed [] c = (c, [])
  take_trimmed (x ∷ b) c =
      let (s, es) = handle parse invented c.buf c.emitter in (record { emitter = s; buf = [] }, es)

  unfoldable pub take_tail : ChatToMessages → ChatToMessages × List Event
  unfolding take_trimmed
  take_tail c = take_trimmed (trim_space c.buf) c

  unfoldable pub finish_frames : ChatToMessages → ChatToMessages × List Event
  finish_frames c =
      let (c1, es) = take_tail c in
      let (s, closing) = close_message c1.emitter in (record c1 { emitter = s }, es ++ closing)

  -- The frames of a stream as the reads deliver it.
  unfoldable pub write_frames : List Bytes → ChatToMessages → ChatToMessages × List Event
  write_frames [] c = (c, [])
  write_frames (f ∷ fs) c =
      let (c1, es) = write_frame f c in let (c2, more) = write_frames fs c1 in (c2, es ++ more)
