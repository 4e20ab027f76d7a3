-- ===== src/Router/Jev/Decision.antt =====
-- router/jev.go, proxy/jev.go: the decision for a request, before the clamps on it.
use Prim.Native.String.{◌++◌ as append}
use llm_api_router.Prelude.{
  ℕ, suc, ◌*◌, ◌^◌, ℤ, pos, negsuc, String, Bool, true, false, ◌&&◌, ◌||◌, Option, none, some, List,
  [], ◌∷◌, Assoc, find_idx?, is_empty, str_eq, is_pos, lookup, contains, wrap64, if◌then◌else◌,
}
use llm_api_router.Domain.Server.{Server}
use llm_api_router.Domain.Rule.{JevRouter, Float64}
use llm_api_router.Domain.Float.{float_le}
use llm_api_router.Domain.Settings.{Config}
use llm_api_router.Config.Store.{get_server}
use llm_api_router.Convert.Json.{itoa}
use llm_api_router.Router.Jev.{JevOutcome, Pool}
use llm_api_router.Router.Jev.Memory.{
  JevMemory, seconds, joined, jev_cache_key, jev_cache_get, jev_cache_put, jev_sticky_get,
}

pub record JevAnswer : Type 0 where
  pub type : String
  pub choice : String
  pub noul : Float64
  pub has_noul : Bool
  pub score : ℤ
  pub confidence : Float64
  pub probabilities : Assoc Float64

pub record JevResponse : Type 0 where
  pub model : String
  pub answers : Assoc JevAnswer
  pub input_tokens : ℤ
  pub output_tokens : ℤ

unfoldable pub answer : JevResponse → String → Option JevAnswer
unfolding lookup
answer r name = lookup name r.answers

-- What the decision model is asked.
pub record JevQuery : Type 0 where
  pub model : String
  pub request : String
  pub current_model : String
  pub context_tokens : ℤ
  pub available_models : List String
  pub images : List String
  pub question : String
  -- The name of each candidate, with its description.
  pub criteria : List (String × String)
  pub asks_security : Bool
  -- Nanoseconds.
  pub timeout : ℤ

-- What the network answers, and after how many milliseconds.
abbrev pub Ask : Type 0
Ask = Server → JevQuery → Option JevResponse × ℤ

-- What `jevAttempts` reads off a request: its text (cut to the limit), its size in tokens, its
-- images and the key of its conversation; and the clock, before and after the decision.
pub record JevRequest : Type 0 where
  pub requested : String
  pub text : String
  pub context_tokens : ℤ
  pub images : List String
  pub session_key : String
  pub header_off : Bool
  pub path : String
  pub now : ℕ
  pub answered_at : ℕ

-- The images that the decision model gets.
abbrev pub sent_images : JevRouter → JevRequest → List String
sent_images j req = if j.images then req.images else []

-- The IEEE bits of 0.95 and 0.3.
abbrev pub jev_security_threshold : Float64
jev_security_threshold = record { bits = 4606732058837280358 }

abbrev pub jev_default_min_confidence : Float64
jev_default_min_confidence = record { bits = 4599075939470750515 }

abbrev pub zero_float : Float64
zero_float = record { bits = 0 }

abbrev pub jev_default_question : String
jev_default_question =
    append "Pick the cheapest model that can fully complete this request in one pass, " (
      append
        "without retrying on a stronger model. Judge the reasoning and blast radius the task requires, "
        "not the requested reply length.")

unfoldable pub min_confidence_of : JevRouter → Float64
unfolding float_le
min_confidence_of j =
    if float_le j.min_confidence zero_float then jev_default_min_confidence else j.min_confidence

unfoldable pub timeout_of : JevRouter → ℤ
unfolding wrap64
timeout_of j = elim j.timeout_ms [
  | negsuc n ↦ pos (1500 * 10 ^ 6)
  | pos n ↦ if is_pos (pos n) then wrap64 (pos (n * 10 ^ 6)) else pos (1500 * 10 ^ 6)
]

unfoldable pub criteria_of : Pool → List String → List (String × String)
criteria_of [] ids = []
criteria_of (c ∷ cs) [] = []
criteria_of (c ∷ cs) (id ∷ ids) =
    (id, if is_empty c.description then id else c.description) ∷ criteria_of cs ids

unfoldable pub query_of : JevRouter → JevRequest → Pool → List String → JevQuery
unfolding criteria_of timeout_of
query_of j req pool ids = record {
  model = j.model;
  request = req.text;
  current_model = req.requested;
  context_tokens = req.context_tokens;
  available_models = ids;
  images = sent_images j req;
  question = if is_empty j.question then jev_default_question else j.question;
  criteria = criteria_of pool ids;
  asks_security = j.security;
  timeout = timeout_of j;
}

-- `fmt.Sprintf("%s %d", …)`.
abbrev pub show_int : ℤ → String
show_int (pos n) = itoa n
show_int (negsuc n) = append "-" (itoa (suc n))

unfoldable pub score_parts : JevResponse → List (String × String) → List String
unfolding answer
score_parts resp [] = []
score_parts resp ((question, label) ∷ qs) =
    let rest = score_parts resp qs in
    elim (answer resp question) [
      | none ↦ rest
      | some a ↦ append label (append " " (show_int a.score)) ∷ rest
    ]

unfoldable pub jev_scores_summary : JevResponse → String
unfolding score_parts joined
jev_scores_summary resp = joined ", " (
    score_parts resp (
      ("task_complexity", "task")
      ∷ ("reasoning_required", "reasoning")
      ∷ ("tool_complexity", "tools")
      ∷ []))

-- How a decision ends: the request is blocked, or a candidate is chosen, or none is.
pub data Verdict : Type 0 where
  blocked : Verdict
  chosen : Option ℕ → Verdict

pub record Decision : Type 0 where
  pub memory : JevMemory
  pub verdict : Verdict
  pub outcome : JevOutcome

abbrev pub index_in : List String → String → Option ℕ
index_in ids id = find_idx? (str_eq id) ids

abbrev pub no_choice : JevMemory → JevOutcome → String → Decision
no_choice m out why = record {
  memory = m;
  verdict = chosen none;
  outcome = record out { reason = why };
}

abbrev pub harmful : Option JevAnswer → Bool
harmful none = false
harmful (some a) = a.has_noul && float_le jev_security_threshold a.noul

-- The answer to the question for a model, with those of the response around it.
unfoldable pub take_answer :
    JevMemory
    → JevRouter
    → JevRequest
    → List String
    → String
    → JevResponse
    → JevOutcome
    → Option JevAnswer
    → Decision
unfolding answer jev_scores_summary jev_cache_put seconds float_le
take_answer m j req ids key resp out none = no_choice m out "unavailable"
take_answer m j req ids key resp out (some ans) =
    let told = record out {
      choice = ans.choice;
      confidence = ans.confidence;
      input_tokens = resp.input_tokens;
      output_tokens = resp.output_tokens;
      scores = jev_scores_summary resp;
      model = if is_empty resp.model then out.model else resp.model;
    } in
    if j.security && harmful (answer resp "security")
    then (let stop = record told { reason = "blocked" } in
        record {
          memory = jev_cache_put m req.answered_at key stop (seconds j.cache_ttl);
          verdict = blocked;
          outcome = stop;
        })
    else let found = index_in ids ans.choice in
      let done = record told { reason = elim found [ none ↦ "unknown-choice" | some i ↦ "jev" ] } in
      record {
        memory = jev_cache_put m req.answered_at key done (seconds j.cache_ttl);
        verdict = chosen found;
        outcome = done;
      }

unfoldable pub take_reply :
    JevMemory
    → JevRouter
    → JevRequest
    → List String
    → String
    → JevOutcome
    → Option JevResponse × ℤ
    → Decision
take_reply m j req ids key out (none, ms) =
    no_choice m (record out { latency_ms = ms }) "unavailable"
take_reply m j req ids key out (some resp, ms) =
    take_answer m j req ids key resp (record out { latency_ms = ms }) (answer resp "model")

-- The question put to the decision model, on its server.
unfoldable pub decide_live :
    Ask
    → JevMemory
    → JevRouter
    → JevRequest
    → Pool
    → List String
    → String
    → JevOutcome
    → Option Server
    → Decision
decide_live ask m j req pool ids key out none = no_choice m out "unavailable"
decide_live ask m j req pool ids key out (some srv) =
    take_reply m j req ids key out (ask srv (query_of j req pool ids))

-- A decision from the cache, or a new one.
unfoldable pub decide_cached :
    Ask
    → Config
    → JevMemory
    → JevRouter
    → JevRequest
    → Pool
    → List String
    → String
    → JevOutcome
    → Option JevOutcome
    → Decision
decide_cached ask store m j req pool ids key out none =
    decide_live ask m j req pool ids key out (get_server store j.server_id)
decide_cached ask store m j req pool ids key out (some hit) =
    let cached = record hit { latency_ms = pos 0; input_tokens = pos 0; output_tokens = pos 0 } in
    if str_eq hit.reason "blocked"
    then record { memory = m; verdict = blocked; outcome = cached }
    else let found = index_in ids hit.choice in
      record {
        memory = m;
        verdict = chosen found;
        outcome = record cached {
          reason = elim found [ none ↦ "cache-unknown" | some i ↦ "cache" ];
        };
      }

unfoldable pub decide_new :
    (List String → String)
    → Ask
    → Config
    → JevMemory
    → JevRouter
    → JevRequest
    → Pool
    → List String
    → JevOutcome
    → Decision
decide_new digest ask store m j req pool ids out =
    if is_pos j.cache_ttl
    then (let question = if is_empty j.question then jev_default_question else j.question in
        let key = jev_cache_key digest j.model question ids req.text (sent_images j req) in
        let (m1, hit) = jev_cache_get m req.now key in
        decide_cached ask store m1 j req pool ids key out hit)
    else decide_cached ask store m j req pool ids "" out none

-- The candidate that the conversation is pinned to.
unfoldable pub decide_pinned : List String → JevOutcome → JevMemory × String → Decision
decide_pinned ids out (m, pin) =
    if is_empty pin
    then no_choice m out "off"
    else let found = index_in ids pin in
      elim found [
        | none ↦ no_choice m out "off"
        | some i ↦ record {
          memory = m;
          verdict = chosen (some i);
          outcome = record out { choice = pin; reason = "sticky" };
        }
      ]

abbrev pub is_nil : List String → Bool
is_nil [] = true
is_nil _ = false

unfoldable pub decide :
    (List String → String)
    → Ask
    → Config
    → JevMemory
    → JevRouter
    → JevRequest
    → Pool
    → List String
    → JevOutcome
    → Decision
decide digest ask store m j req pool ids out =
    if req.header_off || contains req.path "count_tokens"
    then no_choice m out "off"
    else if is_empty req.text && is_nil (sent_images j req)
    then decide_pinned ids out (jev_sticky_get m req.now req.session_key)
    else decide_new digest ask store m j req pool ids out
