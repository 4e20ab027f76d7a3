-- ===== src/Convert/Stream/Emitter.antt =====
-- convert/stream.go: the state of the emitter, and the steps that write events.
use Prim.Native.String.{◌++◌ as append}
use llm_api_router.Prelude.{
  ℕ, suc, ℤ, pos, negsuc, String, Bool, true, false, Option, none, some, List, [], ◌∷◌, ◌++◌, map,
  is_empty, str_eq, if◌then◌else◌, ◌||◌, not, any, select, sub64, eqb_ℤ, leb_ℤ,
}
use llm_api_router.Convert.Json.{itoa}
use llm_api_router.Convert.Stream.Event.{
  Kind, no_kind, text_kind, thinking_kind, Block, text_block, thinking_block, tool_use, Delta,
  text_delta, thinking_delta, input_json_delta, Event, message_start, block_start, block_delta,
  block_stop, message_delta, error_event, Usage, DeltaToolCall, StreamChoice, stop_reason,
  finish_note, prose,
}

pub record ToolBlock : Type 0 where
  pub idx : ℤ
  pub blk : ℕ
  pub id : String

-- The fields of `chatToMessages` but `buf`, which stands beside them in `ChatToMessages`, and
-- `out`, the buffer that the frames are returned in, which is a result here.
pub record Emitter : Type 0 where
  pub id : String
  pub model : String
  pub open_block : ℤ
  pub kind : Kind
  pub tools : List ToolBlock
  pub next : ℕ
  pub stop : String
  pub input_tok : ℤ
  pub output_toks : ℤ
  pub started : Bool
  pub failed : Bool
  pub notes : List String

unfoldable pub new_emitter : Emitter
new_emitter = record {
  id = "";
  model = "";
  open_block = negsuc 0;
  kind = no_kind;
  tools = [];
  next = 0;
  stop = "end_turn";
  input_tok = negsuc 0;
  output_toks = pos 0;
  started = false;
  failed = false;
  notes = [];
}

-- A step: the state after it, and the events it writes.
abbrev pub Step : Type 0
Step = Emitter × List Event

-- One step, and then another.
abbrev pub then_do : Step → (Emitter → Step) → Step
then_do (s, es) f = let (s1, es1) = f s in (s1, es ++ es1)

unfoldable pub note : String → Emitter → Emitter
note n s = if any (str_eq n) s.notes then s else record s { notes = s.notes ++ n ∷ [] }

unfoldable pub note_all : List String → Emitter → Emitter
unfolding note
note_all [] s = s
note_all (n ∷ ns) s = note_all ns (note n s)

unfoldable pub fail_open : Emitter → Step
unfolding note
fail_open s = (
  note "frame=untranslated" (record s { failed = true }),
  error_event "api_error" "upstream sent a stream frame this proxy cannot translate" ∷ [],
)

-- The id that is made up, from random bytes, is a parameter.
unfoldable pub start : String → Emitter → Step
start invented s = (
  record s { started = true },
  message_start (if is_empty s.id then invented else s.id) s.model
        (if leb_ℤ (pos 0) s.input_tok then s.input_tok else pos 0)
      ∷ [],
)

unfoldable pub close_text : Emitter → Step
close_text s = elim s.kind [
  | no_kind ↦ (s, [])
  | text_kind ↦ (record s { kind = no_kind }, block_stop s.open_block ∷ [])
  | thinking_kind ↦ (record s { kind = no_kind }, block_stop s.open_block ∷ [])
]

abbrev pub kind_eq : Kind → Kind → Bool
kind_eq no_kind no_kind = true
kind_eq text_kind text_kind = true
kind_eq thinking_kind thinking_kind = true
kind_eq _ _ = false

unfoldable pub block_of : Kind → Block
block_of thinking_kind = thinking_block
block_of _ = text_block

unfoldable pub delta_of : Kind → String → Delta
delta_of thinking_kind t = thinking_delta t
delta_of _ t = text_delta t

-- The block of a kind is opened where another kind, or none, is open.
unfoldable pub open_prose : Kind → Emitter → Step
unfolding close_text block_of
open_prose k s =
    if kind_eq s.kind k
    then (s, [])
    else then_do (close_text s) λ c. (
      record c { kind = k; open_block = pos c.next; next = suc c.next },
      block_start (pos c.next) (block_of k) ∷ [],
    )

unfoldable pub text : String → Kind → Emitter → Step
unfolding open_prose delta_of
text t k s =
    if is_empty t
    then (s, [])
    else then_do (open_prose k s) λ c. (c, block_delta c.open_block (delta_of k t) ∷ [])

unfoldable pub tool_args : ℕ → String → List Event
tool_args blk args =
    if is_empty args then [] else block_delta (pos blk) (input_json_delta args) ∷ []

-- The last block of a `tool_calls` index, and the dropping of all of them.
unfoldable pub tool_at : ℤ → List ToolBlock → Option ToolBlock
tool_at i [] = none
tool_at i (t ∷ ts) =
    let later = tool_at i ts in
    elim later [ none ↦ if eqb_ℤ t.idx i then some t else none | some u ↦ some u ]

unfoldable pub drop_tool : ℤ → List ToolBlock → List ToolBlock
drop_tool i ts = select (λ t. not (eqb_ℤ t.idx i)) ts

-- The end of a block whose index another call takes over; else, of the prose.
unfoldable pub make_way : ℤ → Option ToolBlock → Emitter → Step
unfolding close_text drop_tool
make_way i none s = close_text s
make_way i (some t) s = (record s { tools = drop_tool i s.tools }, block_stop (pos t.blk) ∷ [])

unfoldable pub open_tool : ℤ → DeltaToolCall → Emitter → Step
unfolding tool_args
open_tool i tc s =
    let id = if is_empty tc.id then append "toolu_" (itoa s.next) else tc.id in
    (
      record s {
        next = suc s.next;
        tools = s.tools ++ (record { idx = i; blk = s.next; id = id }) ∷ [];
      },
      block_start (pos s.next) (tool_use id tc.name) ∷ tool_args s.next tc.arguments,
    )

-- Whether a delta goes on with the block of its index.
abbrev pub continues : DeltaToolCall → ToolBlock → Bool
continues tc t = is_empty tc.id || str_eq tc.id t.id

unfoldable pub tool_on : Option ToolBlock → ℤ → DeltaToolCall → Emitter → Step
unfolding tool_args make_way open_tool
tool_on none i tc s = then_do (make_way i none s) (open_tool i tc)
tool_on (some t) i tc s =
    if continues tc t
    then (s, tool_args t.blk tc.arguments)
    else then_do (make_way i (some t) s) (open_tool i tc)

unfoldable pub tool : ℤ → DeltaToolCall → Emitter → Step
unfolding tool_at tool_on
tool i tc s = tool_on (tool_at i s.tools) i tc s

unfoldable pub close : Emitter → Step
unfolding close_text
close s =
    then_do (close_text s) λ c. (record c { tools = [] }, map (λ t. block_stop (pos t.blk)) c.tools)

unfoldable pub delta_usage : Emitter → ℤ × Option ℤ
delta_usage s = (s.output_toks, if leb_ℤ (pos 0) s.input_tok then some s.input_tok else none)

-- The `message_delta` that restates the stop reason and the usage.
unfoldable pub restate : Emitter → Event
unfolding delta_usage
restate s = let (output, input) = delta_usage s in message_delta s.stop output input

unfoldable pub finish : String → Emitter → Step
unfolding stop_reason finish_note note close restate
finish fr s =
    let stopped = record s { stop = stop_reason fr } in
    let noted = if is_empty (finish_note fr) then stopped else note (finish_note fr) stopped in
    then_do (close noted) λ c. (c, restate c ∷ [])

-- `if u := …Usage; u != nil`.
unfoldable pub count : Option Usage → Emitter → Emitter
count none s = s
count (some u) s = record s {
  input_tok = sub64 u.prompt_tokens u.cached_tokens;
  output_toks = u.completion_tokens;
}

unfoldable pub tool_calls : List DeltaToolCall → Emitter → Step
tool_calls [] s = (s, [])
tool_calls (tc ∷ tcs) s = then_do (tool tc.index tc s) (tool_calls tcs)

unfoldable pub start_once : String → Emitter → Step
start_once invented s = if s.started then (s, []) else start invented s

unfoldable pub finish_if : String → Emitter → Step
finish_if fr s = if is_empty fr then (s, []) else finish fr s

unfoldable pub choice : String → StreamChoice → Emitter → Step
choice invented ch s =
    let (words, reasoning, dropped) = prose ch.delta in
    then_do (start_once invented (note_all dropped (count ch.usage s))) λ s1.
      then_do (text reasoning thinking_kind s1) λ s2.
        then_do (text words text_kind s2)
          λ s3. then_do (tool_calls ch.delta.tool_calls s3) (finish_if ch.finish_reason)

unfoldable pub choices : String → List StreamChoice → Emitter → Step
choices invented [] s = (s, [])
choices invented (ch ∷ chs) s = then_do (choice invented ch s) (choices invented chs)
