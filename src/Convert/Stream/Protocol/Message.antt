-- ===== src/Convert/Stream/Protocol/Message.antt =====
-- The choices of a chunk keep to the protocol.

use llm_api_router.Prelude.{
  pos, String, ◌≡◌, refl, sym, ap, ◌∙◌, Bool, true, false, Option, none, some, List, [], ◌∷◌, arith,
  is_empty, if◌then◌else◌, Bool-cases, inl, inr, subst, leb_ℤ,
}
use llm_api_router.Convert.Stream.Event.{
  text_kind, thinking_kind, Usage, StreamChoice, message_start, prose, DeltaToolCall,
}
use llm_api_router.Convert.Stream.Emitter.{
  Emitter, Step, then_do, tool, finish_if, note, note_all, count, start, start_once, tool_calls,
  text, choice, choices,
}
use llm_api_router.Convert.Stream.Client.{accept, follow, view, follow-one, follow-append}
use llm_api_router.Convert.Stream.Protocol.{
  Follows, IsLive, IsWellFormed, nothing-Follows, then_do-Follows,
}
use llm_api_router.Convert.Stream.Protocol.Prose.{text-Follows}
use llm_api_router.Convert.Stream.Protocol.Opening.{tool-Follows}
use llm_api_router.Convert.Stream.Protocol.Closing.{Follows-view, note-cases, finish-Follows}

-- A state that no error ended.
pub record IsReady (s : Emitter) : Type 0 where
  pub well_formed : IsWellFormed s
  pub not_failed : s.failed ≡ false

live-IsReady : (s : Emitter) → IsLive s → IsReady s
live-IsReady s l = record { well_formed = l.well_formed; not_failed = l.not_failed }

-- A step of such a state that the client follows.
abbrev pub Keeps : Emitter → Step → Type 0
Keeps s r = (follow r.1 (view s) ≡ some (view r.0)) × IsReady r.0

then_do-Keeps :
    (s : Emitter) (r : Step) (f : Emitter → Step)
    → Keeps s r
    → Keeps r.0 (f r.0)
    → Keeps s (then_do r f)
then_do-Keeps s (s1, es) f (h, l) (k, m) = (follow-append es (f s1).1 (view s) h ∙ k, m)

notes-IsReady : (ns : List String) (s : Emitter) → IsReady s → IsReady (record s { notes = ns })
notes-IsReady ns s r = record {
  well_formed = record {
    distinct = r.well_formed.distinct;
    below = r.well_formed.below;
    prose_ok = r.well_formed.prose_ok;
  };
  not_failed = r.not_failed;
}

-- What the client sees of no step.
abbrev pub Unseen : Emitter → Emitter → Type 0
Unseen s s1 = IsReady s1 × (view s1 ≡ view s)

note-Unseen : (n : String) (s : Emitter) → IsReady s → Unseen s (note n s)
unfolding view
note-Unseen n s r =
    let (ns, e) = note-cases n s in subst (Unseen s) (sym e) (notes-IsReady ns s r, refl)

note_all-Unseen : (ns : List String) (s : Emitter) → IsReady s → Unseen s (note_all ns s)
unfolding note_all
note_all-Unseen [] s r = (r, refl)
note_all-Unseen (n ∷ ns) s r =
    let (r1, e1) = note-Unseen n s r in
    let (r2, e2) = note_all-Unseen ns (note n s) r1 in (r2, e2 ∙ e1)

pub count-Unseen : (u : Option Usage) (s : Emitter) → IsReady s → Unseen s (count u s)
unfolding count view
count-Unseen none s r = (r, refl)
count-Unseen (some u) s r = (
  record {
    well_formed = record {
      distinct = r.well_formed.distinct;
      below = r.well_formed.below;
      prose_ok = r.well_formed.prose_ok;
    };
    not_failed = r.not_failed;
  },
  refl,
)

start-Follows :
    (invented : String) (s : Emitter) → s.started ≡ false → IsReady s → Follows s (start invented s)
unfolding start view accept
start-Follows invented s e r =
    let opening = (start invented s).1 in
    (
      ap (λ b. follow opening (record (view s) { started = b })) e
          ∙ ap (λ b. follow opening (record (view s) { started = false; ended = b })) r.not_failed
          ∙ follow-one
              (message_start (if is_empty s.id then invented else s.id) s.model
                (if leb_ℤ (pos 0) s.input_tok then s.input_tok else pos 0))
              (record (view s) { started = false; ended = false })
              (record (view s) { started = true; ended = false }) refl
          ∙ ap (λ b. some (record (view s) { started = true; ended = b })) (sym r.not_failed),
      record {
        well_formed = record {
          distinct = r.well_formed.distinct;
          below = r.well_formed.below;
          prose_ok = r.well_formed.prose_ok;
        };
        has_started = refl;
        not_failed = r.not_failed;
      },
    )

start_once-Follows :
    (invented : String) (s : Emitter) → IsReady s → Follows s (start_once invented s)
unfolding start_once
start_once-Follows invented s r =
    let at = λ (b : Bool). if b then (s, []) else start invented s in
    elim (Bool-cases s.started) [
      | inl e ↦ subst (Follows s) (sym (ap at e)) (
          nothing-Follows s
            (record { well_formed = r.well_formed; has_started = e; not_failed = r.not_failed }))
      | inr e ↦ subst (Follows s) (sym (ap at e)) (start-Follows invented s e r)
    ]

tool_calls-Follows :
    (tcs : List DeltaToolCall) (s : Emitter) → IsLive s → Follows s (tool_calls tcs s)
unfolding tool_calls
tool_calls-Follows [] s l = nothing-Follows s l
tool_calls-Follows (tc ∷ tcs) s l =
    let first = tool-Follows tc.index tc s l in
    then_do-Follows s (tool tc.index tc s) (tool_calls tcs) first
      (tool_calls-Follows tcs (tool tc.index tc s).0 first.1)

finish_if-Follows : (fr : String) (s : Emitter) → IsLive s → Follows s (finish_if fr s)
unfolding finish_if
finish_if-Follows fr s l = elim (Bool-cases (is_empty fr)) [
  | inl e ↦ rw (finish_if, e) (nothing-Follows s l)
  | inr e ↦ rw (finish_if, e) (finish-Follows fr s l)
]

-- The parts of a choice, in their order.
abbrev parts : String → String → String → List DeltaToolCall → Emitter → Step
parts reasoning words fr tcs s =
    then_do (text reasoning thinking_kind s)
      λ s2. then_do (text words text_kind s2) λ s3. then_do (tool_calls tcs s3) (finish_if fr)

parts-Follows :
    (reasoning words fr : String) (tcs : List DeltaToolCall) (s : Emitter)
    → IsLive s
    → Follows s (
        then_do
          (text reasoning thinking_kind s)
          λ s2. then_do (text words text_kind s2) λ s3. then_do (tool_calls tcs s3) (finish_if fr))
parts-Follows reasoning words fr tcs s l =
    let s2 = text reasoning thinking_kind s in
    let h2 = text-Follows reasoning thinking_kind s (λ e. ground (arith, e)) l in
    let s3 = text words text_kind s2.0 in
    let h3 = text-Follows words text_kind s2.0 (λ e. ground (arith, e)) h2.1 in
    let s4 = tool_calls tcs s3.0 in
    let h4 = tool_calls-Follows tcs s3.0 h3.1 in
    then_do-Follows s s2
      (λ s2. then_do (text words text_kind s2) λ s3. then_do (tool_calls tcs s3) (finish_if fr)) h2
      (then_do-Follows s2.0 s3 (λ s3. then_do (tool_calls tcs s3) (finish_if fr)) h3
        (then_do-Follows s3.0 s4 (finish_if fr) h4 (finish_if-Follows fr s4.0 h4.1)))

choice-Follows :
    (invented : String) (ch : StreamChoice) (s : Emitter)
    → IsReady s
    → Follows s (choice invented ch s)
unfolding choice
choice-Follows invented ch s r =
    let (words, reasoning, dropped) = prose ch.delta in
    let (r1, e1) = count-Unseen ch.usage s r in
    let (r2, e2) = note_all-Unseen dropped (count ch.usage s) r1 in
    let s0 = note_all dropped (count ch.usage s) in
    let first = start_once-Follows invented s0 r2 in
    Follows-view s s0 _ (e2 ∙ e1) (
      then_do-Follows s0 (start_once invented s0)
        (parts reasoning words ch.finish_reason ch.delta.tool_calls) first
        (parts-Follows reasoning words ch.finish_reason ch.delta.tool_calls
          (start_once invented s0).0 first.1))

pub choices-Keeps :
    (invented : String) (chs : List StreamChoice) (s : Emitter)
    → IsReady s
    → Keeps s (choices invented chs s)
unfolding choices follow
choices-Keeps invented [] s r = (refl, r)
choices-Keeps invented (ch ∷ chs) s r =
    let (h, l) = choice-Follows invented ch s r in
    let ready = live-IsReady (choice invented ch s).0 l in
    then_do-Keeps s (choice invented ch s) (choices invented chs) (h, ready)
      (choices-Keeps invented chs (choice invented ch s).0 ready)
