-- ===== src/Convert/Stream/Protocol/Calls.antt =====
-- The steps of the tool_use blocks keep to the protocol.

use llm_api_router.Prelude.{
  ℕ, ◌<◌, ℤ, pos, String, ◌≡◌, ◌≢◌, refl, sym, ap, ◌∙◌, true, false, not, Option, none, some, List,
  [], ◌∷◌, map, arith, any, select, eqb_ℤ, All, All-imply, is_empty, Bool-cases, inl, inr, subst,
}
use llm_api_router.Convert.Stream.Event.{
  Kind, no_kind, text_kind, thinking_kind, input_json_delta, block_stop, block_delta,
}
use llm_api_router.Convert.Stream.Emitter.{
  ToolBlock, Emitter, tool_args, tool_at, drop_tool, make_way,
}
use llm_api_router.Convert.Stream.Client.{
  accept, follow, takes_delta, stop_tool, stop_block, open_prose_of, index_of_tool, follow-one,
}
use llm_api_router.Convert.Stream.Protocol.{
  Follows, Follows-live, IsLive, ProseOk, ProseOpen, close_text-Follows, close_text_lem, eqb_refl,
  live_client,
}
use llm_api_router.Convert.Stream.Protocol.Index.{
  Others, tool_at-All, tool_at-none, tool_at-Matches, drop_tool-view, drop_tool-Others,
  drop_tool-All, drop_tool-Distinct,
}

-- Whether the client has a tool_use block open.
abbrev pub Has : List ToolBlock → ℤ → Type 0
Has ts i = any (eqb_ℤ i) (map index_of_tool ts) ≡ true

pub tool_at-Has :
    (i : ℤ) (ts : List ToolBlock) (t : ToolBlock) → tool_at i ts ≡ some t → Has ts (index_of_tool t)
tool_at-Has i ts t e = tool_at-All (λ (u : ToolBlock). Has ts (index_of_tool u)) i ts t (every ts) e
  where
    every : (us : List ToolBlock) → All (λ (u : ToolBlock). Has us (index_of_tool u)) us
    every [] = tt
    every (u ∷ us) = (
      ground (arith, eqb_refl (index_of_tool u)),
      All-imply (λ (w : ToolBlock). Has us (index_of_tool w))
          (λ (w : ToolBlock). Has (u ∷ us) (index_of_tool w)) (λ w h. ground (arith, h)) us
          (every us),
    )

-- Arguments for an open block.
accept-args :
    (i : ℤ) (args : String) (n : ℕ) (p : Option (ℤ × Kind)) (ts : List ℤ)
    → any (eqb_ℤ i) ts ≡ true
    → accept (block_delta i (input_json_delta args)) (live_client n p ts)
      ≡ some (live_client n p ts)
unfolding accept takes_delta
accept-args i args n p ts h = rw (accept, h)

pub follow-tool_args :
    (blk : ℕ) (args : String) (n : ℕ) (p : Option (ℤ × Kind)) (ts : List ℤ)
    → any (eqb_ℤ (pos blk)) ts ≡ true
    → follow (tool_args blk args) (live_client n p ts) ≡ some (live_client n p ts)
unfolding tool_args follow
follow-tool_args blk args n p ts h = elim (Bool-cases (is_empty args)) [
  | inl e ↦ rw (tool_args, e) refl
  | inr e ↦
      rw (tool_args, e)
        (follow-one (block_delta (pos blk) (input_json_delta args)) (live_client n p ts)
          (live_client n p ts) (accept-args (pos blk) args n p ts h))
]

-- A tool_use block is not the prose block.
not_prose :
    (i : ℤ) (n : ℕ) (ts : List ToolBlock) (t : ToolBlock)
    → ProseOpen i n ts
    → ((P : ToolBlock → Type 0) → All P ts → P t)
    → eqb_ℤ (index_of_tool t) i ≡ false
not_prose i n ts t (k, e, below, others) at =
    let other : t.blk ≢ k = at (λ (u : ToolBlock). u.blk ≢ k) others in ground (arith, e, other)

-- A stop of an open tool_use block.
pub stop_block-tool :
    (k : Kind) (i : ℤ) (n : ℕ) (ts : List ToolBlock) (t : ToolBlock)
    → ProseOk k i n ts
    → ((P : ToolBlock → Type 0) → All P ts → P t)
    → Has ts (index_of_tool t)
    → accept
        (block_stop (index_of_tool t))
        (live_client n (open_prose_of k i) (map index_of_tool ts))
      ≡ some (
          live_client n
            (open_prose_of k i)
            (select (λ j. not (eqb_ℤ j (index_of_tool t))) (map index_of_tool ts)))
unfolding accept stop_block stop_tool
stop_block-tool no_kind i n ts t ok at has = rw (accept, has)
stop_block-tool text_kind i n ts t ok at has = rw (accept, not_prose i n ts t ok at, stop_tool, has)
stop_block-tool thinking_kind i n ts t ok at has =
    rw (accept, not_prose i n ts t ok at, stop_tool, has)

-- The state without the blocks of an index.
abbrev without : ℤ → Emitter → Emitter
without i s = record s { tools = drop_tool i s.tools }

without_prose :
    (k : Kind) (i j : ℤ) (n : ℕ) (ts : List ToolBlock)
    → ProseOk k i n ts
    → ProseOk k i n (drop_tool j ts)
without_prose no_kind i j n ts ok = tt
without_prose text_kind i j n ts (k, e, below, others) =
    (k, e, below, drop_tool-All (λ (t : ToolBlock). t.blk ≢ k) j ts others)
without_prose thinking_kind i j n ts (k, e, below, others) =
    (k, e, below, drop_tool-All (λ (t : ToolBlock). t.blk ≢ k) j ts others)

without-IsLive : (i : ℤ) (s : Emitter) → IsLive s → IsLive (without i s)
without-IsLive i s l = record {
  well_formed = record {
    distinct = drop_tool-Distinct i s.tools l.well_formed.distinct;
    below = drop_tool-All (λ (t : ToolBlock). t.blk < s.next) i s.tools l.well_formed.below;
    prose_ok = without_prose s.kind s.open_block i s.next s.tools l.well_formed.prose_ok;
  };
  has_started = l.has_started;
  not_failed = l.not_failed;
}

pub make_way-Follows :
    (i : ℤ) (o : Option ToolBlock) (s : Emitter)
    → tool_at i s.tools ≡ o
    → IsLive s
    → Follows s (make_way i o s) × All (Others i) (make_way i o s).0.tools
unfolding make_way
make_way-Follows i none s e l = (
  close_text-Follows s l,
  subst (λ (c : Emitter). All (Others i) c.tools) (sym (close_text_lem s))
      (tool_at-none i s.tools e),
)
make_way-Follows i (some t) s e l = (
  Follows-live s (make_way i (some t) s) l (without-IsLive i s l) (
      follow-one (block_stop (index_of_tool t)) _ _ (
        stop_block-tool s.kind s.open_block s.next s.tools t l.well_formed.prose_ok
          (λ P h. tool_at-All P i s.tools t h e) (tool_at-Has i s.tools t e))
      ∙ ap (λ ts. some (live_client s.next (open_prose_of s.kind s.open_block) ts))
          (drop_tool-view i t s.tools (tool_at-Matches i s.tools t l.well_formed.distinct e))),
  drop_tool-Others i s.tools,
)
