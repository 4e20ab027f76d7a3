-- ===== src/Convert/Stream/Event.antt =====
-- convert/stream.go, convert/response.go: what a chat chunk carries, and the events that are
-- written to an Anthropic client.
use Prim.Native.String.{◌++◌ as append}
use llm_api_router.Prelude.{
  ℕ, ℤ, String, Option, none, some, List, [], ◌∷◌, ◌++◌, is_empty, str_eq, if◌then◌else◌, ◌||◌,
}
use llm_api_router.Convert.Json.{
  Json, null, str, obj, Members, field, ◌>>=◌, as_string, as_int, as_struct, as_items, as_pointer,
  each_struct,
}

-- The kind of the open prose block; `no_kind` is "".
pub data Kind : Type 0 where
  no_kind text_kind thinking_kind : Kind

-- The `content_block` of a `content_block_start`.
pub data Block : Type 0 where
  text_block thinking_block : Block
  tool_use : String → String → Block

-- The `delta` of a `content_block_delta`.
pub data Delta : Type 0 where
  text_delta thinking_delta input_json_delta : String → Delta

-- A frame to the client. `forwarded` holds the bytes of a frame that is passed on.
pub data Event : Type 0 where
  -- The id, the model and the input tokens.
  message_start : String → String → ℤ → Event
  block_start : ℤ → Block → Event
  block_delta : ℤ → Delta → Event
  block_stop : ℤ → Event
  -- The stop reason, the output tokens, and the input tokens where they are known.
  message_delta : String → ℤ → Option ℤ → Event
  message_stop : Event
  -- The type and the message.
  error_event : String → String → Event
  forwarded : List ℕ → Event

pub record Usage : Type 0 where
  pub prompt_tokens : ℤ
  pub completion_tokens : ℤ
  pub cached_tokens : ℤ

pub record DeltaToolCall : Type 0 where
  pub index : ℤ
  pub id : String
  pub name : String
  pub arguments : String

pub record StreamDelta : Type 0 where
  pub content : Option Json
  pub reasoning : Option Json
  pub tool_calls : List DeltaToolCall

pub record StreamChoice : Type 0 where
  pub delta : StreamDelta
  pub finish_reason : String
  pub usage : Option Usage

pub record Chunk : Type 0 where
  pub id : String
  pub model : String
  pub choices : List StreamChoice
  pub usage : Option Usage

-- The typed decoding of a chunk.
unfoldable pub decode_usage : Members → Option Usage
decode_usage ms = do
  p ← as_int (field "prompt_tokens" ms)
  c ← as_int (field "completion_tokens" ms)
  details ← as_struct (field "prompt_tokens_details" ms)
  k ← as_int (field "cached_tokens" details)
  some (record { prompt_tokens = p; completion_tokens = c; cached_tokens = k })

unfoldable pub decode_tool_call : Members → Option DeltaToolCall
decode_tool_call ms = do
  i ← as_int (field "index" ms)
  d ← as_string (field "id" ms)
  f ← as_struct (field "function" ms)
  n ← as_string (field "name" f)
  a ← as_string (field "arguments" f)
  some (record { index = i; id = d; name = n; arguments = a })

unfoldable pub decode_delta : Members → Option StreamDelta
unfolding decode_tool_call
decode_delta ms = do
  vs ← as_items (field "tool_calls" ms)
  calls ← each_struct decode_tool_call vs
  some (record {
    content = field "content" ms;
    reasoning = field "reasoning_content" ms;
    tool_calls = calls;
  })

unfoldable pub decode_choice : Members → Option StreamChoice
unfolding decode_delta decode_usage
decode_choice ms = do
  dm ← as_struct (field "delta" ms)
  d ← decode_delta dm
  fr ← as_string (field "finish_reason" ms)
  u ← as_pointer decode_usage (field "usage" ms)
  some (record { delta = d; finish_reason = fr; usage = u })

unfoldable pub decode_chunk : Members → Option Chunk
unfolding decode_choice decode_usage
decode_chunk ms = do
  i ← as_string (field "id" ms)
  m ← as_string (field "model" ms)
  vs ← as_items (field "choices" ms)
  cs ← each_struct decode_choice vs
  u ← as_pointer decode_usage (field "usage" ms)
  some (record { id = i; model = m; choices = cs; usage = u })

-- A content part, and the texts of a `content` value with a note for each part that is no text.
pub record ContentPart : Type 0 where
  pub type : String
  pub text : String
  pub refusal : String

unfoldable pub decode_part : Members → Option ContentPart
decode_part ms = do
  ty ← as_string (field "type" ms)
  t ← as_string (field "text" ms)
  r ← as_string (field "refusal" ms)
  some (record { type = ty; text = t; refusal = r })

abbrev pub Texts : Type 0
Texts = List String × List String

unfoldable pub part_texts : List ContentPart → Texts
part_texts [] = ([], [])
part_texts (p ∷ ps) =
    let (texts, dropped) = part_texts ps in
    if is_empty p.text
    then if is_empty p.refusal
      then if is_empty p.type || str_eq p.type "text"
        then (texts, dropped)
        else (texts, append "content_part=dropped:" p.type ∷ dropped)
      else (p.refusal ∷ texts, dropped)
    else (p.text ∷ texts, dropped)

unfoldable pub content_texts : Option Json → Texts
unfolding decode_part part_texts
content_texts none = ([], [])
content_texts (some null) = ([], [])
content_texts (some (str s)) = if is_empty s then ([], []) else (s ∷ [], [])
content_texts (some v) = elim (as_items (some v) >>= each_struct decode_part) [
  | none ↦ ([], "content_part=dropped:content" ∷ [])
  | some ps ↦ part_texts ps
]

-- `strings.Join(ts, "")`.
unfoldable pub join : List String → String
join [] = ""
join (t ∷ ts) = append t (join ts)

-- The text, the reasoning and the notes of a delta.
unfoldable pub prose : StreamDelta → String × String × List String
unfolding content_texts join
prose d =
    let (ts, dropped) = content_texts d.content in
    let (rs, more) = content_texts d.reasoning in (join ts, join rs, dropped ++ more)

unfoldable pub stop_reason : String → String
stop_reason fr =
    if str_eq fr "length"
    then "max_tokens"
    else if str_eq fr "tool_calls" || str_eq fr "function_call"
    then "tool_use"
    else if str_eq fr "content_filter"
    then "refusal"
    else "end_turn"

unfoldable pub finish_note : String → String
finish_note fr =
    if is_empty fr
      || str_eq fr "stop"
      || str_eq fr "length"
      || str_eq fr "tool_calls"
      || str_eq fr "function_call"
    then ""
    else append "finish_reason=" fr

-- The type and the message of a backend's `error`: an object with either, or a text.
unfoldable pub error_text : Json → Option (String × String)
error_text (str s) = if is_empty s then none else some ("api_error", s)
error_text (obj ms) = do
  ty ← as_string (field "type" ms)
  msg ← as_string (field "message" ms)
  if is_empty ty then if is_empty msg then none else some ("api_error", msg) else some (ty, msg)
error_text _ = none

unfoldable pub chat_error_to_messages : Members → Option (String × String)
unfolding error_text
chat_error_to_messages ms = elim (field "error" ms) [ none ↦ none | some v ↦ error_text v ]
