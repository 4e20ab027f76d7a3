-- ===== src/Convert/Stream/Protocol.antt =====
-- The emitter's steps keep to the protocol: the client takes each event, and then knows what the
-- state says.
pub mod Prose
pub mod Index
pub mod Calls
pub mod Opening
pub mod Closing
pub mod Message
pub mod Whole
pub mod Ending
use llm_api_router.Prelude.{
  ℕ, suc, ◌+◌, ◌≤◌, ◌<◌, ℤ, pos, String, ◌≡◌, ◌≢◌, refl, sym, ap, ◌∙◌, Bool, true, false, not, ◌&&◌,
  ◌||◌, Option, none, some, List, [], ◌∷◌, ◌++◌, map, arith, any, select, eqb_ℤ, eqb_ℤ_iff, All,
  All-imply, is_empty, if◌then◌else◌, Bool-cases, Option-cases, ◌⊎◌, inl, inr,
}
use llm_api_router.Convert.Stream.Event.{
  Kind, no_kind, text_kind, thinking_kind, Event, block_start, block_stop, block_delta,
  message_start, message_delta,
}
use llm_api_router.Convert.Stream.Emitter.{
  ToolBlock, Emitter, Step, then_do, start, close_text, kind_eq, block_of, delta_of, open_prose,
  text,
}
use llm_api_router.Convert.Stream.Client.{
  Client, accept, follow, start_block, takes_delta, stop_tool, stop_block, view, open_prose_of,
  index_of_tool, follow-one, follow-append,
}

-- The open tool_use blocks: no two with one index of either kind.
abbrev pub Apart : ToolBlock → ToolBlock → Type 0
Apart t u = (u.idx ≢ t.idx) × (u.blk ≢ t.blk)

abbrev pub Distinct : List ToolBlock → Type 0
Distinct [] = Unit
Distinct (t ∷ ts) = All (Apart t) ts × Distinct ts

-- The open prose block has an index that was given out, and that no tool block has.
abbrev pub ProseOpen : ℤ → ℕ → List ToolBlock → Type 0
ProseOpen i next ts = (k : ℕ) × (i ≡ pos k) × (k < next) × All (λ (t : ToolBlock). t.blk ≢ k) ts

abbrev pub ProseOk : Kind → ℤ → ℕ → List ToolBlock → Type 0
ProseOk no_kind i next ts = Unit
ProseOk text_kind i next ts = ProseOpen i next ts
ProseOk thinking_kind i next ts = ProseOpen i next ts

pub record IsWellFormed (s : Emitter) : Type 0 where
  pub distinct : Distinct s.tools
  pub below : All (λ (t : ToolBlock). t.blk < s.next) s.tools
  pub prose_ok : ProseOk s.kind s.open_block s.next s.tools

pub record IsLive (s : Emitter) : Type 0 where
  pub well_formed : IsWellFormed s
  pub has_started : s.started ≡ true
  pub not_failed : s.failed ≡ false

-- A step that the client follows.
abbrev pub Follows : Emitter → Step → Type 0
Follows s r = (follow r.1 (view s) ≡ some (view r.0)) × IsLive r.0

pub then_do-Follows :
    (s : Emitter) (r : Step) (f : Emitter → Step)
    → Follows s r
    → Follows r.0 (f r.0)
    → Follows s (then_do r f)
then_do-Follows s (s1, es) f (h, l) (k, m) = (follow-append es (f s1).1 (view s) h ∙ k, m)

pub nothing-Follows : (s : Emitter) → IsLive s → Follows s (s, [])
unfolding follow
nothing-Follows s l = (refl, l)

-- A client in the middle of a message.
abbrev pub live_client : ℕ → Option (ℤ × Kind) → List ℤ → Client
live_client n p ts = record { started = true; ended = false; next = n; prose = p; tools = ts }

abbrev pub live_view : Emitter → Client
live_view s = live_client s.next (open_prose_of s.kind s.open_block) (map index_of_tool s.tools)

pub view-IsLive : (s : Emitter) → IsLive s → view s ≡ live_view s
unfolding view
view-IsLive s l =
    ap (λ b. record (view s) { started = b }) l.has_started
    ∙ ap (λ b. record (live_view s) { ended = b }) l.not_failed

pub Follows-live :
    (s : Emitter) (r : Step)
    → IsLive s
    → IsLive r.0
    → follow r.1 (live_view s) ≡ some (live_view r.0)
    → Follows s r
Follows-live s r l m h =
    (ap (follow r.1) (view-IsLive s l) ∙ h ∙ ap some (sym (view-IsLive r.0 m)), m)

pub eqb_refl : (i : ℤ) → eqb_ℤ i i ≡ true
eqb_refl i = (eqb_ℤ_iff i i).1 refl

pub no_kind-IsLive :
    (k : Kind) (s : Emitter) → IsLive (record s { kind = k }) → IsLive (record s { kind = no_kind })
no_kind-IsLive k s l = record {
  well_formed = record {
    distinct = l.well_formed.distinct;
    below = l.well_formed.below;
    prose_ok = tt;
  };
  has_started = l.has_started;
  not_failed = l.not_failed;
}

pub accept-stop_prose :
    (n : ℕ) (i : ℤ) (k : Kind) (ts : List ℤ)
    → accept (block_stop i) (live_client n (some (i, k)) ts) ≡ some (live_client n none ts)
unfolding accept stop_block
accept-stop_prose n i k ts = rw (accept, eqb_refl i)

close_kind-Follows :
    (k : Kind) (s : Emitter)
    → IsLive (record s { kind = k })
    → Follows (record s { kind = k }) (close_text (record s { kind = k }))
unfolding close_text
close_kind-Follows no_kind s l = nothing-Follows (record s { kind = no_kind }) l
close_kind-Follows text_kind s l =
    Follows-live (record s { kind = text_kind }) (close_text (record s { kind = text_kind })) l
      (no_kind-IsLive text_kind s l)
      (follow-one (block_stop s.open_block) _ _
        (accept-stop_prose s.next s.open_block text_kind (map index_of_tool s.tools)))
close_kind-Follows thinking_kind s l =
    Follows-live (record s { kind = thinking_kind })
      (close_text (record s { kind = thinking_kind })) l (no_kind-IsLive thinking_kind s l)
      (follow-one (block_stop s.open_block) _ _
        (accept-stop_prose s.next s.open_block thinking_kind (map index_of_tool s.tools)))

pub close_text-Follows : (s : Emitter) → IsLive s → Follows s (close_text s)
close_text-Follows s l = close_kind-Follows s.kind s l

-- What closing the prose leaves.
close_kind_lem :
    (k : Kind) (s : Emitter) → (close_text (record s { kind = k })).0 ≡ record s { kind = no_kind }
unfolding close_text
close_kind_lem no_kind s = refl
close_kind_lem text_kind s = refl
close_kind_lem thinking_kind s = refl

pub close_text_lem : (s : Emitter) → (close_text s).0 ≡ record s { kind = no_kind }
close_text_lem s = close_kind_lem s.kind s

pub below_suc :
    (n : ℕ) (ts : List ToolBlock)
    → All (λ (t : ToolBlock). t.blk < n) ts
    → All (λ (t : ToolBlock). t.blk < suc n) ts
below_suc n ts h =
    All-imply (λ (t : ToolBlock). t.blk < n) (λ (t : ToolBlock). t.blk < suc n)
      (λ t h. omega (arith, h)) ts h
