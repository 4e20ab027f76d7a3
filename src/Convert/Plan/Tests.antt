-- ===== src/Convert/Plan/Tests.antt =====
-- Plans on concrete requests.
use Prim.Native.String.{◌++◌ as append}
use llm_api_router.Prelude.{
  ◌≡◌, refl, true, false, some, [], ◌∷◌, ◌⊎◌, has_prefix, contains, cut, pos,
}
use llm_api_router.Domain.Server.{ServerProtocol}
use llm_api_router.Convert.Dialect.{chat, messages, dialect_for_path, path_for}
use llm_api_router.Convert.Plan.{
  Plan, Transform, Options, decide, decide_declared, decide_forced, endpoint_of, declared_paths,
  request, edge,
}
use llm_api_router.Convert.Plan.Soundness.{
  declares, is_planned, is_planned-decide, decide-speaks, request-decide,
}

-- A llama.cpp backend that serves chat at its root.
endpoint : ServerProtocol
unfolding dialect_for_path path_for has_prefix contains cut decide decide_declared decide_forced
    endpoint_of declared_paths request edge declares
endpoint = record { path = "/chat/completions"; state = true }

abbrev converted : Plan
unfolding endpoint
converted = record {
  from = "messages";
  dialect = "chat";
  path = "/chat/completions";
  forced = false;
}

abbrev options : Options
options = record { max_tokens = pos 4096; drop_params = false }

abbrev to_chat : Transform
to_chat body o = some (append "chat:" body, [])

is_planned-decide_example :
    is_planned (decide (dialect_for_path "/v1/messages") "/v1/messages" (endpoint ∷ []) "auto")
    ≡ true
unfolding endpoint
is_planned-decide_example = is_planned-decide "/v1/messages" endpoint [] "auto" refl refl

decide-speaks_example :
    (dialect_for_path converted.path ≡ converted.dialect)
    × (declares converted.dialect (endpoint ∷ []) ≡ true)
    × ((converted.dialect ≡ dialect_for_path "/v1/messages") × (converted.path ≡ "/v1/messages")
        ⊎ (converted.dialect ≡ chat))
unfolding endpoint
decide-speaks_example = decide-speaks "/v1/messages" endpoint [] "" converted refl refl refl

request-decide_example : request to_chat to_chat converted "{}" options ≡ some ("chat:{}", [])
unfolding endpoint
request-decide_example =
    request-decide to_chat to_chat messages "/v1/messages" (endpoint ∷ []) "" converted "{}" options
      refl
