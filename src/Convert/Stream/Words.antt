-- ===== src/Convert/Stream/Words.antt =====
-- The prose that the events of a step carry.
use mathlib.Core.List.{append-nil, append_assoc}
use llm_api_router.Prelude.{
  ℕ, suc, ℤ, pos, String, ◌≡◌, refl, sym, ap, ◌∙◌, Bool, Option, none, some, List, [], ◌∷◌, ◌++◌,
  map, is_empty, if◌then◌else◌, Bool-cases, inl, inr,
}
use llm_api_router.Convert.Stream.Event.{
  Kind, no_kind, text_kind, thinking_kind, Delta, text_delta, thinking_delta, input_json_delta,
  Event, block_start, block_delta, block_stop, DeltaToolCall, StreamChoice, prose, stop_reason,
  finish_note,
}
use llm_api_router.Convert.Stream.Emitter.{
  ToolBlock, Emitter, Step, then_do, start, start_once, close_text, kind_eq, block_of, delta_of,
  open_prose, text, tool_args, make_way, open_tool, continues, tool_on, tool_at, tool, tool_calls,
  close, restate, finish, finish_if, note,
}

-- The prose of one kind that an event carries.
abbrev pub said_delta : Kind → Delta → List String
said_delta text_kind (text_delta t) = t ∷ []
said_delta thinking_kind (thinking_delta t) = t ∷ []
said_delta _ _ = []

abbrev pub said : Kind → Event → List String
said k (block_delta i d) = said_delta k d
said k _ = []

unfoldable pub words_of : Kind → List Event → List String
words_of k [] = []
words_of k (e ∷ es) = said k e ++ words_of k es

-- A text that is not empty.
abbrev pub spoken : String → List String
spoken t = if is_empty t then [] else t ∷ []

-- What the choices of a chunk say.
unfoldable pub prose_in : Kind → StreamChoice → List String
prose_in no_kind ch = []
prose_in text_kind ch = spoken (prose ch.delta).0
prose_in thinking_kind ch = spoken (prose ch.delta).1

unfoldable pub prose_of : Kind → List StreamChoice → List String
unfolding prose_in
prose_of k [] = []
prose_of k (ch ∷ chs) = prose_in k ch ++ prose_of k chs

arguments_unsaid : (k : Kind) (args : String) → said_delta k (input_json_delta args) ≡ []
arguments_unsaid no_kind args = refl
arguments_unsaid text_kind args = refl
arguments_unsaid thinking_kind args = refl

module _ (k : Kind) where
  pub words_of-append :
      (xs ys : List Event) → words_of k (xs ++ ys) ≡ words_of k xs ++ words_of k ys
  unfolding words_of
  words_of-append [] ys = refl
  words_of-append (x ∷ xs) ys =
      ap (λ l. said k x ++ l) (words_of-append xs ys)
      ∙ sym (append_assoc (said k x) (words_of k xs) (words_of k ys))

  pub then_do-words :
      (r : Step) (f : Emitter → Step)
      → words_of k (then_do r f).1 ≡ words_of k r.1 ++ words_of k (f r.0).1
  then_do-words (s, es) f = words_of-append es (f s).1

  -- After a step that says nothing.
  pub then_do-silent :
      (r : Step) (f : Emitter → Step)
      → words_of k r.1 ≡ []
      → words_of k (then_do r f).1 ≡ words_of k (f r.0).1
  then_do-silent r f h = then_do-words r f ∙ ap (λ l. l ++ words_of k (f r.0).1) h

  pub close_kind-words :
      (m : Kind) (s : Emitter) → words_of k (close_text (record s { kind = m })).1 ≡ []
  unfolding close_text words_of
  close_kind-words no_kind s = refl
  close_kind-words text_kind s = refl
  close_kind-words thinking_kind s = refl

  pub close_text-words : (s : Emitter) → words_of k (close_text s).1 ≡ []
  close_text-words s = close_kind-words s.kind s

  pub open_prose-words : (m : Kind) (s : Emitter) → words_of k (open_prose m s).1 ≡ []
  unfolding open_prose words_of
  open_prose-words m s = elim (Bool-cases (kind_eq s.kind m)) [
    | inl e ↦ rw (open_prose, e) refl
    | inr e ↦
        rw (open_prose, e)
          (then_do-silent (close_text s)
            (λ c. (
              record c { kind = m; open_block = pos c.next; next = suc c.next },
              block_start (pos c.next) (block_of m) ∷ [],
            ))
            (close_text-words s))
  ]

  pub text-words :
      (t : String) (m : Kind) (s : Emitter)
      → words_of k (text t m s).1 ≡ (if is_empty t then [] else said_delta k (delta_of m t))
  unfolding text words_of
  text-words t m s = elim (Bool-cases (is_empty t)) [
    | inl e ↦ rw (text, e) refl
    | inr e ↦
        rw (text, e)
          (then_do-silent (open_prose m s) (λ c. (c, block_delta c.open_block (delta_of m t) ∷ []))
              (open_prose-words m s)
            ∙ append-nil (said_delta k (delta_of m t)))
  ]

  pub tool_args-words : (blk : ℕ) (args : String) → words_of k (tool_args blk args) ≡ []
  unfolding tool_args words_of
  tool_args-words blk args = elim (Bool-cases (is_empty args)) [
    | inl e ↦ rw (tool_args, e) refl
    | inr e ↦ rw (tool_args, e) (ap (λ l. l ++ []) (arguments_unsaid k args))
  ]

  pub stops-words : (ts : List ToolBlock) → words_of k (map (λ t. block_stop (pos t.blk)) ts) ≡ []
  unfolding words_of
  stops-words [] = refl
  stops-words (t ∷ ts) = stops-words ts

  pub make_way-words :
      (i : ℤ) (o : Option ToolBlock) (s : Emitter) → words_of k (make_way i o s).1 ≡ []
  unfolding make_way words_of
  make_way-words i none s = close_text-words s
  make_way-words i (some t) s = refl

  pub open_tool-words :
      (i : ℤ) (tc : DeltaToolCall) (s : Emitter) → words_of k (open_tool i tc s).1 ≡ []
  unfolding open_tool words_of
  open_tool-words i tc s = tool_args-words s.next tc.arguments

  pub tool_on-words :
      (o : Option ToolBlock) (i : ℤ) (tc : DeltaToolCall) (s : Emitter)
      → words_of k (tool_on o i tc s).1 ≡ []
  unfolding tool_on
  tool_on-words none i tc s =
      then_do-silent (make_way i none s) (open_tool i tc) (make_way-words i none s)
      ∙ open_tool-words i tc (make_way i none s).0
  tool_on-words (some t) i tc s = elim (Bool-cases (continues tc t)) [
    | inl e ↦ rw (tool_on, e) (tool_args-words t.blk tc.arguments)
    | inr e ↦
        rw (tool_on, e)
          (then_do-silent (make_way i (some t) s) (open_tool i tc) (make_way-words i (some t) s)
            ∙ open_tool-words i tc (make_way i (some t) s).0)
  ]

  pub tool_calls-words :
      (tcs : List DeltaToolCall) (s : Emitter) → words_of k (tool_calls tcs s).1 ≡ []
  unfolding tool_calls words_of tool
  tool_calls-words [] s = refl
  tool_calls-words (tc ∷ tcs) s =
      then_do-silent (tool tc.index tc s) (tool_calls tcs)
        (tool_on-words (tool_at tc.index s.tools) tc.index tc s)
      ∙ tool_calls-words tcs (tool tc.index tc s).0

  pub close-words : (s : Emitter) → words_of k (close s).1 ≡ []
  unfolding close
  close-words s =
      then_do-silent (close_text s)
        (λ c. (record c { tools = [] }, map (λ t. block_stop (pos t.blk)) c.tools))
        (close_text-words s)
      ∙ stops-words (close_text s).0.tools

  pub finish-words : (fr : String) (s : Emitter) → words_of k (finish fr s).1 ≡ []
  unfolding finish words_of restate
  finish-words fr s =
      let stopped = record s { stop = stop_reason fr } in
      let noted = if is_empty (finish_note fr) then stopped else note (finish_note fr) stopped in
      then_do-silent (close noted) (λ c. (c, restate c ∷ [])) (close-words noted)

  pub finish_if-words : (fr : String) (s : Emitter) → words_of k (finish_if fr s).1 ≡ []
  unfolding finish_if words_of
  finish_if-words fr s = elim (Bool-cases (is_empty fr)) [
    | inl e ↦ rw (finish_if, e) refl
    | inr e ↦ rw (finish_if, e) (finish-words fr s)
  ]

  pub start_once-words :
      (invented : String) (s : Emitter) → words_of k (start_once invented s).1 ≡ []
  unfolding start_once start words_of
  start_once-words invented s =
      let at = λ (b : Bool). if b then (s, []) else start invented s in
      elim (Bool-cases s.started) [
        | inl e ↦ ap (λ b. words_of k (at b).1) e
        | inr e ↦ ap (λ b. words_of k (at b).1) e
      ]
