-- ===== src/Convert/Stream/Client.antt =====
-- The Anthropic stream protocol from the client's side: which event may come next. It is the
-- description that the emitter of convert/stream.go is checked against.
use llm_api_router.Prelude.{
  ℕ, suc, ℤ, pos, ◌≡◌, Bool, true, false, not, ◌&&◌, ◌||◌, Option, none, some, List, [], ◌∷◌, ◌++◌,
  map, any, select, eqb_ℤ, if◌then◌else◌, sym, ◌∙◌, arith, Option-cases, inl, inr,
}
use llm_api_router.Convert.Stream.Event.{
  Kind, no_kind, text_kind, thinking_kind, Block, text_block, thinking_block, tool_use, Delta,
  text_delta, thinking_delta, input_json_delta, Event, message_start, block_start, block_delta,
  block_stop, message_delta, message_stop, error_event, forwarded,
}
use llm_api_router.Convert.Stream.Emitter.{ToolBlock, Emitter, kind_eq}

-- What a client knows: whether the message began and ended, the index of the next block, the
-- open prose block with its kind (one at most), and the open tool_use blocks.
pub record Client : Type 0 where
  pub started : Bool
  pub ended : Bool
  pub next : ℕ
  pub prose : Option (ℤ × Kind)
  pub tools : List ℤ

abbrev pub new_client : Client
new_client = record { started = false; ended = false; next = 0; prose = none; tools = [] }

unfoldable pub start_block : ℤ → Block → Client → Option Client
start_block i (tool_use id name) c =
    some (record c { tools = c.tools ++ i ∷ []; next = suc c.next })
start_block i text_block c = elim c.prose [
  | some p ↦ none
  | none ↦ some (record c { prose = some (i, text_kind); next = suc c.next })
]
start_block i thinking_block c = elim c.prose [
  | some p ↦ none
  | none ↦ some (record c { prose = some (i, thinking_kind); next = suc c.next })
]

abbrev pub is_open_prose : ℤ → Kind → Option (ℤ × Kind) → Bool
is_open_prose i k none = false
is_open_prose i k (some (j, m)) = eqb_ℤ i j && kind_eq m k

unfoldable pub takes_delta : ℤ → Delta → Client → Bool
takes_delta i (text_delta t) c = is_open_prose i text_kind c.prose
takes_delta i (thinking_delta t) c = is_open_prose i thinking_kind c.prose
takes_delta i (input_json_delta t) c = any (eqb_ℤ i) c.tools

unfoldable pub stop_tool : ℤ → Client → Option Client
stop_tool i c =
    if any (eqb_ℤ i) c.tools
    then some (record c { tools = select (λ j. not (eqb_ℤ j i)) c.tools })
    else none

unfoldable pub stop_block : ℤ → Option (ℤ × Kind) → Client → Option Client
unfolding stop_tool
stop_block i none c = stop_tool i c
stop_block i (some (j, k)) c = if eqb_ℤ i j then some (record c { prose = none }) else stop_tool i c

abbrev pub has_open : Option (ℤ × Kind) → List ℤ → Bool
has_open none [] = false
has_open _ _ = true

abbrev pub running : Client → Bool
running c = c.started && not c.ended

-- An event where it may come, and none where the protocol forbids it. A frame of the backend that
-- is passed through is not of this message, so it may not come.
unfoldable pub accept : Event → Client → Option Client
unfolding start_block takes_delta stop_block
accept (message_start id model input) c =
    if c.started || c.ended then none else some (record c { started = true })
accept (block_start i b) c = if running c && eqb_ℤ i (pos c.next) then start_block i b c else none
accept (block_delta i d) c = if running c && takes_delta i d c then some c else none
accept (block_stop i) c = if running c then stop_block i c.prose c else none
accept (message_delta reason output input) c =
    if running c && not (has_open c.prose c.tools) then some c else none
accept message_stop c =
    if running c && not (has_open c.prose c.tools) then some (record c { ended = true }) else none
accept (error_event ty msg) c = if c.ended then none else some (record c { ended = true })
accept (forwarded b) c = none

-- An event that the emitter made, not a frame of the backend that it passed through.
abbrev pub IsOwn : Event → Type 0
IsOwn (forwarded b) = ⊥
IsOwn _ = Unit

unfoldable pub follow : List Event → Client → Option Client
unfolding accept
follow [] c = some c
follow (e ∷ es) c = elim (accept e c) [ none ↦ none | some d ↦ follow es d ]

-- What the emitter's state says that its client knows.
abbrev pub open_prose_of : Kind → ℤ → Option (ℤ × Kind)
open_prose_of no_kind i = none
open_prose_of text_kind i = some (i, text_kind)
open_prose_of thinking_kind i = some (i, thinking_kind)

abbrev pub index_of_tool : ToolBlock → ℤ
index_of_tool t = pos t.blk

unfoldable pub view : Emitter → Client
view s = record {
  started = s.started;
  ended = s.failed;
  next = s.next;
  prose = open_prose_of s.kind s.open_block;
  tools = map index_of_tool s.tools;
}

pub follow-cons :
    (e : Event) (es : List Event) (c d : Client)
    → accept e c ≡ some d
    → follow (e ∷ es) c ≡ follow es d
unfolding follow
follow-cons e es c d h = rw (follow, h)

pub follow-one : (e : Event) (c d : Client) → accept e c ≡ some d → follow (e ∷ []) c ≡ some d
unfolding follow
follow-one e c d h = rw (follow, h)

pub follow-append :
    (xs ys : List Event) (c : Client) {d : Client}
    → follow xs c ≡ some d
    → follow (xs ++ ys) c ≡ follow ys d
unfolding follow
follow-append [] ys c h = ground (arith, h)
follow-append (x ∷ xs) ys c h = elim (Option-cases (accept x c)) [
  | inl e ↦ ground (arith, h, e)
  | inr (d1, e) ↦
      follow-cons x (xs ++ ys) c d1 e ∙ follow-append xs ys d1 (sym (follow-cons x xs c d1 e) ∙ h)
]
