-- ===== src/Convert/Stream/Tests.antt =====
-- A chat stream in two reads, on its way to an Anthropic client.
use llm_api_router.Prelude.{
  pos, String, ◌≡◌, refl, sym, subst, All, All-of_append, Option, none, some, List, [], ◌∷◌, ◌++◌,
  if◌then◌else◌,
}
use llm_api_router.Convert.Json.{
  Json, str, arr, obj, int, nil, cons, end, member, field, itoa, digits,
}
use llm_api_router.Convert.Stream.Event.{
  text_kind, text_block, tool_use, text_delta, input_json_delta, message_start, block_start,
  block_delta, block_stop, message_delta, message_stop, decode_usage, decode_tool_call,
  decode_delta, decode_choice, decode_chunk, decode_part, part_texts, content_texts, join, prose,
  stop_reason, finish_note, error_text, chat_error_to_messages, error_event, StreamChoice,
}
use llm_api_router.Convert.Stream.Emitter.{
  new_emitter, note, note_all, fail_open, start, close_text, block_of, delta_of, open_prose, text,
  tool_args, tool_at, drop_tool, make_way, open_tool, tool_on, tool, close, delta_usage, restate,
  finish, count, tool_calls, start_once, finish_if, choice, choices,
}
use llm_api_router.Convert.Stream.Frames.{
  Bytes, bytes_of, begins, bytes_eq, index_of, leftmost, frame_end, trim_left, trim_right,
  before_any, trim_space, trim_prefix,
}
use llm_api_router.Convert.Stream.Handler.{
  is_anthropic_event, reframe, is_chunk_shape, classify_error, classify_chunk, classify_keys,
  classify_json, classify_name, classify_data, classify, act, handle, drain, new_chat_to_messages,
  close_message, write_frame, write_frames, take_trimmed, take_tail, finish_frames,
}
use llm_api_router.Convert.Stream.Client.{IsOwn, follow, view, new_client}
use llm_api_router.Convert.Stream.Scan.{scan, frame_end-scan}
use llm_api_router.Convert.Stream.Chunks.{flatten, write_frames-flatten}
use llm_api_router.Convert.Stream.Protocol.Whole.{write_frames-IsWellFormed}
use llm_api_router.Convert.Stream.Protocol.{IsWellFormed}
use llm_api_router.Convert.Stream.Protocol.Ending.{Ended, whole_stream, whole_stream-Ended}
use llm_api_router.Convert.Stream.Failure.{write_frames-failed}
use llm_api_router.Convert.Stream.Words.{words_of, prose_of}
use llm_api_router.Convert.Stream.Prose.{choices-prose_of}

-- A chunk with one choice.
abbrev chunk_of : Json → String → Json
chunk_of delta fr = obj (
    member "choices"
      (arr (cons (obj (member "delta" delta (member "finish_reason" (str fr) end))) nil)) end)

abbrev call : Json
call = obj (
    member "tool_calls"
      (arr (
        cons
          (obj (
            member "index" (int (pos 0)) (
              member "function" (obj (member "name" (str "f") (member "arguments" (str "{}") end)))
                end)))
          nil))
      end)

-- Two payloads, and anything else is no JSON.
abbrev parse : Bytes → Option Json
parse b =
    if bytes_eq b (bytes_of "1")
    then some (chunk_of (obj (member "content" (str "Hi") end)) "")
    else if bytes_eq b (bytes_of "2")
    then some (chunk_of call "tool_calls")
    else none

-- The reads split a frame, and its terminator.
abbrev reads : List Bytes
reads =
    (bytes_of "data: 1" ++ 10 ∷ [])
    ∷ (10 ∷ bytes_of "data: 2" ++ 13 ∷ 10 ∷ 13 ∷ [])
    ∷ (10 ∷ bytes_of "data: [DONE]" ++ 10 ∷ 10 ∷ [])
    ∷ []

-- The answer in full.
answer :
    whole_stream parse "msg_1" reads
    ≡ message_start "msg_1" "" (pos 0)
      ∷ block_start (pos 0) text_block
      ∷ block_delta (pos 0) (text_delta "Hi")
      ∷ block_stop (pos 0)
      ∷ block_start (pos 1) (tool_use "toolu_1" "f")
      ∷ block_delta (pos 1) (input_json_delta "{}")
      ∷ block_stop (pos 1)
      ∷ message_delta "tool_use" (pos 0) none
      ∷ message_delta "tool_use" (pos 0) none
      ∷ message_stop
      ∷ []
unfolding field digits itoa decode_usage decode_tool_call decode_delta decode_choice decode_chunk
    decode_part part_texts content_texts join prose stop_reason finish_note error_text
    chat_error_to_messages new_emitter note note_all fail_open start close_text block_of delta_of
    open_prose text tool_args tool_at drop_tool make_way open_tool tool_on tool close delta_usage
    restate finish count tool_calls start_once finish_if choice choices bytes_of begins bytes_eq
    index_of leftmost frame_end trim_left trim_right before_any trim_space trim_prefix
    is_anthropic_event reframe is_chunk_shape classify_error classify_chunk classify_keys
    classify_json classify_name classify_data classify act handle drain new_chat_to_messages
    close_message write_frame write_frames take_trimmed take_tail finish_frames
answer = refl

frame_end-scan_example :
    frame_end (97 ∷ 13 ∷ 10 ∷ 13 ∷ 10 ∷ 10 ∷ 10 ∷ []) ≡ scan (97 ∷ 13 ∷ 10 ∷ 13 ∷ 10 ∷ 10 ∷ 10 ∷ [])
frame_end-scan_example = frame_end-scan (97 ∷ 13 ∷ 10 ∷ 13 ∷ 10 ∷ 10 ∷ 10 ∷ [])

write_frames-flatten_example :
    write_frames parse "msg_1" reads new_chat_to_messages
    ≡ write_frame parse "msg_1" (flatten reads) new_chat_to_messages
unfolding new_chat_to_messages frame_end index_of begins leftmost
write_frames-flatten_example = write_frames-flatten parse "msg_1" reads new_chat_to_messages refl

whole_stream-IsOwn : All IsOwn (whole_stream parse "msg_1" reads)
whole_stream-IsOwn =
    subst (All IsOwn) (sym answer) (tt, (tt, (tt, (tt, (tt, (tt, (tt, (tt, (tt, (tt, tt))))))))))

write_frames-IsOwn : All IsOwn (write_frames parse "msg_1" reads new_chat_to_messages).1
write_frames-IsOwn =
    let (c, es) = write_frames parse "msg_1" reads new_chat_to_messages in
    (All-of_append IsOwn es (finish_frames parse "msg_1" c).1 whole_stream-IsOwn).0

whole_stream-Ended_example : Ended (whole_stream parse "msg_1" reads) new_client
whole_stream-Ended_example = whole_stream-Ended parse "msg_1" reads whole_stream-IsOwn

-- A frame that is no JSON.
abbrev broken_frame : Bytes
broken_frame = bytes_of "data: 3"

write_frames-failed_example :
    let s1 = (handle parse "msg_1" broken_frame new_emitter).0 in
    let rest = write_frames parse "msg_1" reads (record { emitter = s1; buf = [] }) in
    ((ty : String) × (msg : String) × ((handle parse "msg_1" broken_frame new_emitter).1
        ≡ error_event ty msg ∷ []))
    × (rest.0.emitter ≡ s1)
    × (rest.1 ≡ [])
    × ((finish_frames parse "msg_1" rest.0).1 ≡ [])
unfolding answer
write_frames-failed_example =
    write_frames-failed parse "msg_1" broken_frame [] new_emitter reads refl refl

abbrev said_twice : List StreamChoice
said_twice =
    record {
      delta = record { content = some (str "Hi"); reasoning = none; tool_calls = [] };
      finish_reason = "";
      usage = none;
    }
    ∷ record {
      delta = record { content = some (str "there"); reasoning = none; tool_calls = [] };
      finish_reason = "stop";
      usage = none;
    }
    ∷ []

choices-prose_of_example :
    words_of text_kind (choices "msg_1" said_twice new_emitter).1 ≡ prose_of text_kind said_twice
choices-prose_of_example = choices-prose_of text_kind "msg_1" said_twice new_emitter

write_frames-IsWellFormed_example :
    let r = write_frames parse "msg_1" reads new_chat_to_messages in
    (follow r.1 (view new_chat_to_messages.emitter) ≡ some (view r.0.emitter))
    × IsWellFormed r.0.emitter
unfolding new_chat_to_messages new_emitter
write_frames-IsWellFormed_example =
    write_frames-IsWellFormed parse "msg_1" reads new_chat_to_messages
      (record { distinct = tt; below = tt; prose_ok = tt }) write_frames-IsOwn
