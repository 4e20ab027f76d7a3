-- ===== src/Router/World.antt =====
-- router/router.go: what the attempt loop of `Handle` is given and gives: the request, what its body
-- becomes, what a backend answers, the variables of the loop and the answer to the client.
use llm_api_router.Prelude.{ℕ, ℤ, String, Bool, Option}
use llm_api_router.Convert.Dialect.{Dialect}
use llm_api_router.Convert.Plan.{Plan}
use llm_api_router.Router.State.{ServerAttempt}
use llm_api_router.Router.Budget.{TransportError}

-- What becomes of the body of an attempt: the rewriting of its model fails, its conversion is
-- refused, or it is ready, with the output budget that it declares.
pub data Prepared : Type 0 where
  rewrite_failed conversion_refused : Prepared
  ready : ℤ → Prepared

-- `num_retries` and `explicit_retries` are the `retry_budget` of the rule and the client.
pub record Request : Type 0 where
  pub path : String
  pub dialect : Dialect
  pub body_len : ℕ
  pub header_convert : String
  pub pin_key : String
  pub num_retries : ℤ
  pub explicit_retries : Bool
  pub prepare : ServerAttempt → Plan → Prepared

-- What `StreamProxy` returns, in the order in which `Handle` looks at it: no error, the client
-- gone, an error after the headers went out, a transport error before that, or an answer that was
-- buffered (429 or 5xx). A pause is milliseconds; `leaves` is whether the client is gone before
-- the pause before the next try is over.
pub data Outcome : Type 0 where
  served : ℕ → ℤ → ℤ → Outcome
  disconnected : ℤ → Outcome
  mid_stream : ℕ → ℤ → ℤ → Outcome
  transport : TransportError → ℤ → Bool → Outcome
  buffered : ℕ → ℤ → ℤ → Bool → Outcome

pub record World : Type 0 where
  pub clock : ℕ → ℕ → ℕ
  pub backend : ℕ → ℕ → Outcome

pub data SendError : Type 0 where
  transport_error : TransportError → SendError
  buffered_error : ℕ → SendError

-- What the client gets, and by which attempt.
pub data Answer : Type 0 where
  relayed : ℕ → ℕ → Answer
  broken_off : ℕ → ℕ → Answer
  client_left : ℕ → Answer
  rewrite_error : ℕ → Answer
  refused_400 : Answer
  last_answer : ℕ → ℕ → Answer
  bad_gateway : Option SendError → Answer
  no_backend : Answer

-- The variables of the loop.
pub record Loop : Type 0 where
  pub last_err : Option SendError
  pub refusal : Bool
  pub held_back : Option (ℕ × ℕ)
