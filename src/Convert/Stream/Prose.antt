-- ===== src/Convert/Stream/Prose.antt =====
-- The prose of the choices reaches the client whole and in order.
use mathlib.Core.List.{append-nil}
use llm_api_router.Prelude.{
  String, ◌≡◌, refl, ap, ◌∙◌, Bool, true, false, List, [], ◌∷◌, ◌++◌, is_empty, if◌then◌else◌,
}
use llm_api_router.Convert.Stream.Event.{
  Kind, no_kind, text_kind, thinking_kind, text_delta, thinking_delta, StreamChoice, prose,
}
use llm_api_router.Convert.Stream.Emitter.{
  Emitter, then_do, start_once, delta_of, text, tool_calls, finish_if, note_all, count, choice,
  choices,
}
use llm_api_router.Convert.Stream.Words.{
  said_delta, words_of, spoken, prose_in, prose_of, then_do-words, then_do-silent, text-words,
  tool_calls-words, finish_if-words, start_once-words,
}

module _ (k : Kind) where
  choice-words :
      (invented : String) (ch : StreamChoice) (s : Emitter)
      → words_of k (choice invented ch s).1
        ≡ (if is_empty (prose ch.delta).1
            then []
            else said_delta k (thinking_delta (prose ch.delta).1))
          ++ (if is_empty (prose ch.delta).0
              then []
              else said_delta k (text_delta (prose ch.delta).0))
  unfolding choice delta_of
  choice-words invented ch s =
      let words = (prose ch.delta).0 in
      let reasoning = (prose ch.delta).1 in
      let s0 = start_once invented (note_all (prose ch.delta).2 (count ch.usage s)) in
      let s1 = text reasoning thinking_kind s0.0 in
      let s2 = text words text_kind s1.0 in
      let s3 = tool_calls ch.delta.tool_calls s2.0 in
      let ends = finish_if ch.finish_reason in
      let after_text = λ (c : Emitter). then_do (tool_calls ch.delta.tool_calls c) ends in
      let after_thinking = λ (c : Emitter). then_do (text words text_kind c) after_text in
      let after_start = λ (c : Emitter). then_do (text reasoning thinking_kind c) after_thinking in
      let thought = text-words k reasoning thinking_kind s0.0 in
      let told = text-words k words text_kind s1.0 in
      let quiet =
        then_do-silent k s3 ends (tool_calls-words k ch.delta.tool_calls s2.0)
        ∙ finish_if-words k ch.finish_reason s3.0 in
      then_do-silent k s0 after_start
        (start_once-words k invented (note_all (prose ch.delta).2 (count ch.usage s)))
      ∙ then_do-words k s1 after_thinking
      ∙ ap (λ l. l ++ words_of k (after_thinking s1.0).1) thought
      ∙ ap (λ l. (if is_empty reasoning then [] else said_delta k (thinking_delta reasoning)) ++ l)
          (then_do-words k s2 after_text
            ∙ ap (λ l. words_of k s2.1 ++ l) quiet
            ∙ append-nil (words_of k s2.1)
            ∙ told)

if_same {ℓ} : {A : Type ℓ} (b : Bool) (x : A) → (if b then x else x) ≡ x
if_same true x = refl
if_same false x = refl

choice-prose_in :
    (k : Kind) (invented : String) (ch : StreamChoice) (s : Emitter)
    → words_of k (choice invented ch s).1 ≡ prose_in k ch
unfolding prose_in
choice-prose_in no_kind invented ch s =
    choice-words no_kind invented ch s
    ∙ ap (λ l. l ++ (if is_empty (prose ch.delta).0 then [] else []))
        (if_same (is_empty (prose ch.delta).1) [])
    ∙ if_same (is_empty (prose ch.delta).0) []
choice-prose_in text_kind invented ch s =
    choice-words text_kind invented ch s
    ∙ ap (λ l. l ++ spoken (prose ch.delta).0) (if_same (is_empty (prose ch.delta).1) [])
choice-prose_in thinking_kind invented ch s =
    choice-words thinking_kind invented ch s
    ∙ ap (λ l. spoken (prose ch.delta).1 ++ l) (if_same (is_empty (prose ch.delta).0) [])
    ∙ append-nil (spoken (prose ch.delta).1)

-- The deltas of one kind that a chunk's choices write are the texts of that kind that the choices
-- hold, each whole, in their order, and no others.
pub choices-prose_of :
    (k : Kind) (invented : String) (chs : List StreamChoice) (s : Emitter)
    → words_of k (choices invented chs s).1 ≡ prose_of k chs
unfolding choices prose_of words_of
choices-prose_of k invented [] s = refl
choices-prose_of k invented (ch ∷ chs) s =
    then_do-words k (choice invented ch s) (choices invented chs)
    ∙ ap (λ l. l ++ words_of k (choices invented chs (choice invented ch s).0).1)
        (choice-prose_in k invented ch s)
    ∙ ap (λ l. prose_in k ch ++ l) (choices-prose_of k invented chs (choice invented ch s).0)
