-- ===== src/Convert/Dialect.antt =====
-- convert/dialect.go: the API dialect that a request path belongs to.
use llm_api_router.Prelude.{String, contains, if◌then◌else◌, str_eq}

-- A Go string type; "" is no dialect.
abbrev pub Dialect : Type 0
Dialect = String

abbrev pub chat : Dialect
chat = "chat"

abbrev pub messages : Dialect
messages = "messages"

abbrev pub responses : Dialect
responses = "responses"

abbrev pub legacy : Dialect
legacy = "completions"

unfoldable pub dialect_for_path : String → Dialect
dialect_for_path path =
    if contains path "/count_tokens"
    then ""
    else if contains path "/messages"
    then messages
    else if contains path "/chat/completions"
    then chat
    else if contains path "/responses"
    then responses
    else if contains path "/completions"
    then legacy
    else ""

unfoldable pub path_for : Dialect → String
path_for d =
    if str_eq d chat
    then "/v1/chat/completions"
    else if str_eq d messages
    then "/v1/messages"
    else if str_eq d responses
    then "/v1/responses"
    else ""
