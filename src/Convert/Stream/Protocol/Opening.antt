-- ===== src/Convert/Stream/Protocol/Opening.antt =====
-- A tool call that opens a block keeps to the protocol.
use Prim.Native.String.{◌++◌ as append}
use mathlib.Core.List.{map-append}
use llm_api_router.Convert.Json.{itoa}
use llm_api_router.Prelude.{
  ℕ, suc, ◌<◌, ℤ, pos, String, ◌≡◌, ◌≢◌, refl, sym, ap, ◌∙◌, true, Option, none, some, List, [],
  ◌∷◌, ◌++◌, map, arith, any, eqb_ℤ, All, All-append, is_empty, if◌then◌else◌, Bool-cases, inl, inr,
}
use llm_api_router.Convert.Stream.Event.{
  Kind, no_kind, text_kind, thinking_kind, DeltaToolCall, tool_use, block_start,
}
use llm_api_router.Convert.Stream.Emitter.{
  ToolBlock, Emitter, tool_args, tool_at, make_way, open_tool, tool_on, tool, continues,
}
use llm_api_router.Convert.Stream.Client.{
  accept, start_block, open_prose_of, index_of_tool, follow-cons,
}
use llm_api_router.Convert.Stream.Protocol.{
  Apart, Distinct, Follows, Follows-live, IsLive, ProseOk, ProseOpen, below_suc, eqb_refl,
  live_client, then_do-Follows,
}
use llm_api_router.Convert.Stream.Protocol.Index.{Others}
use llm_api_router.Convert.Stream.Protocol.Calls.{tool_at-Has, follow-tool_args, make_way-Follows}

-- A new tool_use block.
abbrev with_tool : ToolBlock → Emitter → Emitter
with_tool t s = record s { next = suc s.next; tools = s.tools ++ t ∷ [] }

Distinct-snoc :
    (t : ToolBlock) (ts : List ToolBlock)
    → Distinct ts
    → All (λ u. Apart u t) ts
    → Distinct (ts ++ t ∷ [])
Distinct-snoc t [] d h = (tt, tt)
Distinct-snoc t (u ∷ us) (apart, d) (a, h) =
    (All-append (Apart u) us (t ∷ []) apart (a, tt), Distinct-snoc t us d h)

new_block-Apart :
    (t : ToolBlock) (n : ℕ) (ts : List ToolBlock)
    → t.blk ≡ n
    → All (Others t.idx) ts
    → All (λ (u : ToolBlock). u.blk < n) ts
    → All (λ u. Apart u t) ts
new_block-Apart t n [] e h k = tt
new_block-Apart t n (u ∷ us) e (ne, h) (lt, k) =
    ((λ x. ne (sym x), λ x. ground (arith, x, e, lt)), new_block-Apart t n us e h k)

grown_open :
    (i : ℤ) (n : ℕ) (ts : List ToolBlock) (t : ToolBlock)
    → t.blk ≡ n
    → ProseOpen i n ts
    → ProseOpen i (suc n) (ts ++ t ∷ [])
grown_open i n ts t e (k, at, below, others) = (
  k,
  at,
  omega (arith, below),
  All-append (λ (u : ToolBlock). u.blk ≢ k) ts (t ∷ []) others
      (λ x. ground (arith, x, e, below), tt),
)

grown_prose :
    (k : Kind) (i : ℤ) (n : ℕ) (ts : List ToolBlock) (t : ToolBlock)
    → t.blk ≡ n
    → ProseOk k i n ts
    → ProseOk k i (suc n) (ts ++ t ∷ [])
grown_prose no_kind i n ts t e ok = tt
grown_prose text_kind i n ts t e ok = grown_open i n ts t e ok
grown_prose thinking_kind i n ts t e ok = grown_open i n ts t e ok

with_tool-IsLive :
    (t : ToolBlock) (s : Emitter)
    → t.blk ≡ s.next
    → All (Others t.idx) s.tools
    → IsLive s
    → IsLive (with_tool t s)
with_tool-IsLive t s e h l = record {
  well_formed = record {
    distinct =
        Distinct-snoc t s.tools l.well_formed.distinct
          (new_block-Apart t s.next s.tools e h l.well_formed.below);
    below =
        All-append (λ (u : ToolBlock). u.blk < suc s.next) s.tools (t ∷ [])
          (below_suc s.next s.tools l.well_formed.below) (omega (arith, e), tt);
    prose_ok = grown_prose s.kind s.open_block s.next s.tools t e l.well_formed.prose_ok;
  };
  has_started = l.has_started;
  not_failed = l.not_failed;
}

any-snoc : (i : ℤ) (ts : List ℤ) → any (eqb_ℤ i) (ts ++ i ∷ []) ≡ true
any-snoc i [] = ground (arith, eqb_refl i)
any-snoc i (j ∷ ts) = ground (arith, any-snoc i ts)

accept-start_tool :
    (id name : String) (n : ℕ) (p : Option (ℤ × Kind)) (ts : List ℤ)
    → accept (block_start (pos n) (tool_use id name)) (live_client n p ts)
      ≡ some (live_client (suc n) p (ts ++ pos n ∷ []))
unfolding accept start_block
accept-start_tool id name n p ts = rw (accept, eqb_refl (pos n))

open_tool-Follows :
    (i : ℤ) (tc : DeltaToolCall) (s : Emitter)
    → IsLive s
    → All (Others i) s.tools
    → Follows s (open_tool i tc s)
unfolding open_tool
open_tool-Follows i tc s l h =
    let id = if is_empty tc.id then append "toolu_" (itoa s.next) else tc.id in
    let t : ToolBlock = record { idx = i; blk = s.next; id = id } in
    let p = open_prose_of s.kind s.open_block in
    let ts = map index_of_tool s.tools in
    Follows-live s (open_tool i tc s) l (with_tool-IsLive t s refl h l) (
      follow-cons (block_start (pos s.next) (tool_use id tc.name)) (tool_args s.next tc.arguments)
        (live_client s.next p ts) (live_client (suc s.next) p (ts ++ pos s.next ∷ []))
        (accept-start_tool id tc.name s.next p ts)
      ∙ follow-tool_args s.next tc.arguments (suc s.next) p (ts ++ pos s.next ∷ [])
          (any-snoc (pos s.next) ts)
      ∙ ap (λ l. some (live_client (suc s.next) p l))
          (sym (map-append index_of_tool s.tools (t ∷ []))))

tool_on-Follows :
    (o : Option ToolBlock) (i : ℤ) (tc : DeltaToolCall) (s : Emitter)
    → tool_at i s.tools ≡ o
    → IsLive s
    → Follows s (tool_on o i tc s)
unfolding tool_on
tool_on-Follows none i tc s e l =
    let (way, clear) = make_way-Follows i none s e l in
    then_do-Follows s (make_way i none s) (open_tool i tc) way
      (open_tool-Follows i tc (make_way i none s).0 way.1 clear)
tool_on-Follows (some t) i tc s e l = elim (Bool-cases (continues tc t)) [
  | inl c ↦
      rw (tool_on, c)
        (Follows-live s (s, tool_args t.blk tc.arguments) l l
          (follow-tool_args t.blk tc.arguments s.next (open_prose_of s.kind s.open_block)
            (map index_of_tool s.tools) (tool_at-Has i s.tools t e)))
  | inr c ↦
      let (way, clear) = make_way-Follows i (some t) s e l in
      rw (tool_on, c)
        (then_do-Follows s (make_way i (some t) s) (open_tool i tc) way
          (open_tool-Follows i tc (make_way i (some t) s).0 way.1 clear))
]

pub tool-Follows : (i : ℤ) (tc : DeltaToolCall) (s : Emitter) → IsLive s → Follows s (tool i tc s)
unfolding tool
tool-Follows i tc s l = tool_on-Follows (tool_at i s.tools) i tc s refl l
