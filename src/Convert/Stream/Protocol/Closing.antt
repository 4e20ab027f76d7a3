-- ===== src/Convert/Stream/Protocol/Closing.antt =====
-- Closing the blocks, and the stop reason, keep to the protocol.

use llm_api_router.Prelude.{
  ℕ, pos, String, ◌≡◌, refl, sym, ap, ◌∙◌, false, not, none, some, List, [], ◌∷◌, ◌++◌, map, arith,
  any, select, eqb_ℤ, All, is_empty, Bool-cases, inl, inr, subst, str_eq,
}
use llm_api_router.Convert.Stream.Event.{Kind, no_kind, Event, stop_reason, finish_note, block_stop}
use llm_api_router.Convert.Stream.Emitter.{
  ToolBlock, Emitter, Step, then_do, close_text, close, finish, restate, note,
}
use llm_api_router.Convert.Stream.Client.{
  accept, follow, stop_tool, stop_block, view, open_prose_of, index_of_tool, follow-one,
  follow-cons,
}
use llm_api_router.Convert.Stream.Protocol.{
  Apart, Distinct, Follows, Follows-live, IsLive, ProseOk, close_text-Follows, close_text_lem,
  eqb_refl, live_client, live_view, then_do-Follows,
}

-- The stops of all the tool_use blocks, in order.
abbrev stops : List ToolBlock → List Event
stops ts = map (λ t. block_stop (pos t.blk)) ts

others_stay :
    (t : ToolBlock) (ts : List ToolBlock)
    → All (Apart t) ts
    → select (λ j. not (eqb_ℤ j (index_of_tool t))) (map index_of_tool ts) ≡ map index_of_tool ts
others_stay t [] h = refl
others_stay t (u ∷ us) ((ne, other), h) =
    let apart : eqb_ℤ (index_of_tool u) (index_of_tool t) ≡ false = ground (arith, other) in
    rw (apart) (ap (λ l. index_of_tool u ∷ l) (others_stay t us h))

first_stop :
    (n : ℕ) (t : ToolBlock) (ts : List ToolBlock)
    → All (Apart t) ts
    → accept (block_stop (pos t.blk)) (live_client n none (map index_of_tool (t ∷ ts)))
      ≡ some (live_client n none (map index_of_tool ts))
unfolding accept stop_block stop_tool
first_stop n t ts h =
    rw (accept, stop_tool, eqb_refl (pos t.blk))
      (ap (λ l. some (live_client n none l)) (others_stay t ts h))

stops-follow :
    (n : ℕ) (ts : List ToolBlock)
    → Distinct ts
    → follow (stops ts) (live_client n none (map index_of_tool ts)) ≡ some (live_client n none [])
unfolding follow
stops-follow n [] d = refl
stops-follow n (t ∷ ts) (apart, d) =
    follow-cons (block_stop (pos t.blk)) (stops ts)
      (live_client n none (map index_of_tool (t ∷ ts))) (live_client n none (map index_of_tool ts))
      (first_stop n t ts apart)
    ∙ stops-follow n ts d

-- No block is open.
abbrev pub IsShut : Emitter → Type 0
IsShut s = (s.kind ≡ no_kind) × (s.tools ≡ [])

pub shut_view : (s : Emitter) → IsShut s → live_view s ≡ live_client s.next none []
shut_view s (e, f) =
    ap (λ (k : Kind). live_client s.next (open_prose_of k s.open_block) (map index_of_tool s.tools))
      e
    ∙ ap (λ (ts : List ToolBlock). live_client s.next none (map index_of_tool ts)) f

without_tools-IsLive :
    (s : Emitter) → s.kind ≡ no_kind → IsLive s → IsLive (record s { tools = [] })
without_tools-IsLive s e l = record {
  well_formed = record {
    distinct = tt;
    below = tt;
    prose_ok = subst (λ k. ProseOk k s.open_block s.next []) (sym e) tt;
  };
  has_started = l.has_started;
  not_failed = l.not_failed;
}

close_tools-Follows :
    (s : Emitter) → s.kind ≡ no_kind → IsLive s → Follows s (record s { tools = [] }, stops s.tools)
close_tools-Follows s e l =
    let at =
      λ (k : Kind). live_client s.next (open_prose_of k s.open_block) (map index_of_tool s.tools) in
    Follows-live s (record s { tools = [] }, stops s.tools) l (without_tools-IsLive s e l)
      (ap (λ k. follow (stops s.tools) (at k)) e
        ∙ stops-follow s.next s.tools l.well_formed.distinct
        ∙ ap (λ (k : Kind). some (live_client s.next (open_prose_of k s.open_block) [])) (sym e))

pub close-Follows : (s : Emitter) → IsLive s → Follows s (close s) × IsShut (close s).0
unfolding close
close-Follows s l =
    let e = ap (λ (c : Emitter). c.kind) (close_text_lem s) in
    let closed = close_text-Follows s l in
    (
      then_do-Follows s (close_text s) (λ c. (record c { tools = [] }, stops c.tools)) closed
          (close_tools-Follows (close_text s).0 e closed.1),
      (e, refl),
    )

pub accept-restate :
    (s : Emitter) (n : ℕ)
    → accept (restate s) (live_client n none []) ≡ some (live_client n none [])
unfolding accept restate
accept-restate s n = refl

pub restate-Follows : (s : Emitter) → IsShut s → IsLive s → Follows s (s, restate s ∷ [])
restate-Follows s shut l =
    Follows-live s (s, restate s ∷ []) l l
      (ap (follow (restate s ∷ [])) (shut_view s shut)
        ∙ follow-one (restate s) (live_client s.next none []) (live_client s.next none [])
            (accept-restate s s.next)
        ∙ ap some (sym (shut_view s shut)))

-- A step that starts from another state of the same view.
pub Follows-view : (s s1 : Emitter) (r : Step) → view s1 ≡ view s → Follows s1 r → Follows s r
Follows-view s s1 r e (h, l) = (ap (follow r.1) (sym e) ∙ h, l)

-- What a note changes.
pub note-cases :
    (n : String) (s : Emitter) → (ns : List String) × (note n s ≡ record s { notes = ns })
unfolding note
note-cases n s = elim (Bool-cases (any (str_eq n) s.notes)) [
  | inl e ↦ (s.notes, rw (note, e) refl)
  | inr e ↦ (s.notes ++ n ∷ [], rw (note, e) refl)
]

noted-IsLive :
    (n : String) (s : Emitter) → IsLive s → IsLive (note n s) × (view (note n s) ≡ view s)
unfolding view
noted-IsLive n s l =
    let (ns, e) = note-cases n s in
    subst (λ c. IsLive c × (view c ≡ view s)) (sym e)
      (
        record {
          well_formed = record {
            distinct = l.well_formed.distinct;
            below = l.well_formed.below;
            prose_ok = l.well_formed.prose_ok;
          };
          has_started = l.has_started;
          not_failed = l.not_failed;
        },
        refl,
      )

stopped-IsLive : (r : String) (s : Emitter) → IsLive s → IsLive (record s { stop = r })
stopped-IsLive r s l = record {
  well_formed = record {
    distinct = l.well_formed.distinct;
    below = l.well_formed.below;
    prose_ok = l.well_formed.prose_ok;
  };
  has_started = l.has_started;
  not_failed = l.not_failed;
}

pub close-restate :
    (s : Emitter) → IsLive s → Follows s (then_do (close s) λ c. (c, restate c ∷ []))
close-restate s l =
    let (closed, shut) = close-Follows s l in
    then_do-Follows s (close s) (λ c. (c, restate c ∷ [])) closed
      (restate-Follows (close s).0 shut closed.1)

pub finish-Follows : (fr : String) (s : Emitter) → IsLive s → Follows s (finish fr s)
unfolding finish view
finish-Follows fr s l =
    let stopped = record s { stop = stop_reason fr } in
    let live = stopped-IsLive (stop_reason fr) s l in
    elim (Bool-cases (is_empty (finish_note fr))) [
      | inl e ↦ rw (finish, e) (Follows-view s stopped _ refl (close-restate stopped live))
      | inr e ↦
          let noted = note (finish_note fr) stopped in
          let (live1, same) = noted-IsLive (finish_note fr) stopped live in
          rw (finish, e) (Follows-view s noted _ same (close-restate noted live1))
    ]
