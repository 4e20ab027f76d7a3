-- ===== src/Convert/Stream/Protocol/Prose.antt =====
-- The steps of the prose blocks keep to the protocol.
use llm_api_router.Prelude.{
  ℕ, suc, ◌<◌, ℤ, pos, String, ◌≡◌, ◌≢◌, refl, sym, ap, ◌∙◌, true, none, some, List, [], ◌∷◌, map,
  arith, All, All-imply, is_empty, Bool-cases, inl, inr,
}
use llm_api_router.Convert.Stream.Event.{
  Kind, no_kind, text_kind, thinking_kind, block_start, block_delta,
}
use llm_api_router.Convert.Stream.Emitter.{
  ToolBlock, Emitter, close_text, kind_eq, block_of, delta_of, open_prose, text,
}
use llm_api_router.Convert.Stream.Client.{
  accept, follow, start_block, takes_delta, open_prose_of, index_of_tool, follow-one,
}
use llm_api_router.Convert.Stream.Protocol.{
  Follows, Follows-live, IsLive, ProseOk, below_suc, close_text-Follows, close_text_lem, eqb_refl,
  live_client, nothing-Follows, then_do-Follows,
}

-- The state with a new prose block.
abbrev with_prose : Kind → Emitter → Emitter
with_prose k s = record s { kind = k; open_block = pos s.next; next = suc s.next }

with_prose-ProseOk :
    (k : Kind) (n : ℕ) (ts : List ToolBlock)
    → All (λ (t : ToolBlock). t.blk < n) ts
    → ProseOk k (pos n) (suc n) ts
with_prose-ProseOk no_kind n ts h = tt
with_prose-ProseOk text_kind n ts h = (
  n,
  refl,
  omega arith,
  All-imply (λ (t : ToolBlock). t.blk < n) (λ (t : ToolBlock). t.blk ≢ n)
      (λ t h e. ground (arith, h, e)) ts h,
)
with_prose-ProseOk thinking_kind n ts h = (
  n,
  refl,
  omega arith,
  All-imply (λ (t : ToolBlock). t.blk < n) (λ (t : ToolBlock). t.blk ≢ n)
      (λ t h e. ground (arith, h, e)) ts h,
)

with_prose-IsLive : (k : Kind) (s : Emitter) → IsLive s → IsLive (with_prose k s)
with_prose-IsLive k s l = record {
  well_formed = record {
    distinct = l.well_formed.distinct;
    below = below_suc s.next s.tools l.well_formed.below;
    prose_ok = with_prose-ProseOk k s.next s.tools l.well_formed.below;
  };
  has_started = l.has_started;
  not_failed = l.not_failed;
}

accept-start_prose :
    (k : Kind) (n : ℕ) (ts : List ℤ)
    → k ≢ no_kind
    → accept (block_start (pos n) (block_of k)) (live_client n none ts)
      ≡ some (live_client (suc n) (open_prose_of k (pos n)) ts)
unfolding accept start_block block_of
accept-start_prose no_kind n ts h = ground (arith, h refl)
accept-start_prose text_kind n ts h = rw (accept, eqb_refl (pos n))
accept-start_prose thinking_kind n ts h = rw (accept, eqb_refl (pos n))

start_prose-Follows :
    (k : Kind) (s : Emitter)
    → k ≢ no_kind
    → s.kind ≡ no_kind
    → IsLive s
    → Follows s (with_prose k s, block_start (pos s.next) (block_of k) ∷ [])
start_prose-Follows k s h e l =
    Follows-live s (with_prose k s, block_start (pos s.next) (block_of k) ∷ []) l
      (with_prose-IsLive k s l)
      (ap
          (λ m.
            follow (block_start (pos s.next) (block_of k) ∷ [])
              (live_client s.next (open_prose_of m s.open_block) (map index_of_tool s.tools)))
          e
        ∙ follow-one (block_start (pos s.next) (block_of k)) _ _
            (accept-start_prose k s.next (map index_of_tool s.tools) h))

kind_eq→eq : (k m : Kind) → kind_eq k m ≡ true → k ≡ m
kind_eq→eq no_kind no_kind h = refl
kind_eq→eq no_kind text_kind h = ground (arith, h)
kind_eq→eq no_kind thinking_kind h = ground (arith, h)
kind_eq→eq text_kind no_kind h = ground (arith, h)
kind_eq→eq text_kind text_kind h = refl
kind_eq→eq text_kind thinking_kind h = ground (arith, h)
kind_eq→eq thinking_kind no_kind h = ground (arith, h)
kind_eq→eq thinking_kind text_kind h = ground (arith, h)
kind_eq→eq thinking_kind thinking_kind h = refl

open_prose-Follows :
    (k : Kind) (s : Emitter)
    → k ≢ no_kind
    → IsLive s
    → Follows s (open_prose k s) × ((open_prose k s).0.kind ≡ k)
unfolding open_prose
open_prose-Follows k s h l = elim (Bool-cases (kind_eq s.kind k)) [
  | inl e ↦ rw (open_prose, e) (nothing-Follows s l, kind_eq→eq s.kind k e)
  | inr e ↦
      let closed = close_text-Follows s l in
      rw (open_prose, e)
        (
          then_do-Follows s (close_text s)
              (λ c. (with_prose k c, block_start (pos c.next) (block_of k) ∷ [])) closed
              (start_prose-Follows k (close_text s).0 h
                (ap (λ (c : Emitter). c.kind) (close_text_lem s)) closed.1),
          refl,
        )
]

accept-delta :
    (k : Kind) (t : String) (n : ℕ) (i : ℤ) (ts : List ℤ)
    → k ≢ no_kind
    → accept (block_delta i (delta_of k t)) (live_client n (open_prose_of k i) ts)
      ≡ some (live_client n (open_prose_of k i) ts)
unfolding accept takes_delta delta_of
accept-delta no_kind t n i ts h = ground (arith, h refl)
accept-delta text_kind t n i ts h = rw (accept, eqb_refl i)
accept-delta thinking_kind t n i ts h = rw (accept, eqb_refl i)

prose_delta-Follows :
    (k : Kind) (t : String) (s : Emitter)
    → k ≢ no_kind
    → s.kind ≡ k
    → IsLive s
    → Follows s (s, block_delta s.open_block (delta_of k t) ∷ [])
prose_delta-Follows k t s h e l =
    let at =
      λ (m : Kind). live_client s.next (open_prose_of m s.open_block) (map index_of_tool s.tools) in
    Follows-live s (s, block_delta s.open_block (delta_of k t) ∷ []) l l
      (ap (λ m. follow (block_delta s.open_block (delta_of k t) ∷ []) (at m)) e
        ∙ follow-one (block_delta s.open_block (delta_of k t)) (at k) (at k)
            (accept-delta k t s.next s.open_block (map index_of_tool s.tools) h)
        ∙ ap (λ m. some (at m)) (sym e))

pub text-Follows :
    (t : String) (k : Kind) (s : Emitter) → k ≢ no_kind → IsLive s → Follows s (text t k s)
unfolding text
text-Follows t k s h l = elim (Bool-cases (is_empty t)) [
  | inl e ↦ rw (text, e) (nothing-Follows s l)
  | inr e ↦
      let (opened, of_kind) = open_prose-Follows k s h l in
      rw (text, e)
        (then_do-Follows s (open_prose k s) (λ c. (c, block_delta c.open_block (delta_of k t) ∷ []))
          opened (prose_delta-Follows k t (open_prose k s).0 h of_kind opened.1))
]
