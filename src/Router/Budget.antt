-- ===== src/Router/Budget.antt =====
-- router/router.go: how often the same server is tried, and how long the pauses are.
use llm_api_router.Prelude.{
  ℕ, ℤ, pos, Bool, true, not, Option, none, some, String, is_empty, is_zero, ltb_ℤ, leb_ℤ,
  if◌then◌else◌, ◌==◌,
}

abbrev pub default_num_retries : ℤ
default_num_retries = pos 10

abbrev pub max_client_retries : ℤ
max_client_retries = pos 100

abbrev min_ℤ : ℤ → ℤ → ℤ
min_ℤ a b = if leb_ℤ a b then a else b

-- What the transport reported: nothing listens there, or anything else.
pub data TransportError : Type 0 where
  unreachable_error other_error : TransportError

unfoldable pub same_server_retries : TransportError → ℤ → ℤ
same_server_retries unreachable_error configured = min_ℤ configured (pos 0)
same_server_retries other_error configured = configured

unfoldable pub buffered_answer_retries : ℕ → ℤ → Bool → ℤ
buffered_answer_retries status configured explicit =
    if status == 429 then pos 0 else if explicit then configured else pos 0

-- `atoi` is `strconv.Atoi`, with `none` for its error.
unfoldable pub client_retries : (String → Option ℤ) → String → Option ℤ
client_retries atoi h = if is_empty h then none else elim (atoi h) [
  | none ↦ none
  | some n ↦ if ltb_ℤ n (pos 0) then none else some (min_ℤ n max_client_retries)
]

-- The budget of a request, and whether anybody asked for it.
unfoldable pub retry_budget : ℤ → Option ℤ → ℤ × Bool
retry_budget rule_retries client = elim client [
  | some n ↦ (n, true)
  | none ↦ (
    if is_zero rule_retries then default_num_retries else rule_retries,
    not (is_zero rule_retries),
  )
]

-- Milliseconds.
unfoldable pub retry_backoff : ℕ → ℕ
retry_backoff n = if n == 0 then 100 else if n == 1 then 250 else if n == 2 then 500 else 1000
