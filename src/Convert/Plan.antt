-- ===== src/Convert/Plan.antt =====
-- convert/plan.go: the dialect and the path that one attempt speaks.
pub mod Soundness
mod Tests
use llm_api_router.Prelude.{
  String, Bool, true, false, not, ◌&&◌, ◌||◌, Option, none, some, List, [], ◌∷◌, ◌++◌, map, str_eq,
  is_empty, cut, if◌then◌else◌, ℤ,
}
use Prim.Native.String.{◌++◌ as append}
use llm_api_router.Domain.Server.{ServerProtocol}
use llm_api_router.Domain.Settings.{ConvertSettings, max_tokens}
use llm_api_router.Convert.Dialect.{
  Dialect, chat, messages, responses, legacy, dialect_for_path, path_for,
}

pub record Plan : Type 0 where
  pub from : Dialect
  pub dialect : Dialect
  pub path : String
  pub forced : Bool

pub record Options : Type 0 where
  pub max_tokens : ℤ
  pub drop_params : Bool

unfoldable pub options_from : ConvertSettings → Options
options_from s = record { max_tokens = max_tokens s; drop_params = s.drop_params }

-- A translation of a body: the new body and the notes, or an error; the bodies are JSON text.
abbrev pub Transform : Type 0
Transform = String → Options → Option (String × List String)

-- Every refusal of `Decide` has the code `no_dialect`; these are its sentences.
pub data Refusal : Type 0 where
  does_not_apply not_supported no_legacy : Refusal
  backend_serves : List String → Refusal

pub data Decision : Type 0 where
  planned : Plan → Decision
  refused : Refusal → Decision

-- The text "from>to", and "" for a plan that changes nothing.
unfoldable pub edge : Plan → String
edge p =
    if str_eq p.dialect p.from || is_empty p.from then "" else append p.from (append ">" p.dialect)

abbrev ident : Dialect → String → Plan
ident client path = record { from = client; dialect = client; path = path; forced = false }

-- `forced` names the edge: `x>y`.
unfoldable pub decide_forced : Dialect → String → Decision
decide_forced client forced = elim (cut b'>' forced) [
  | none ↦ refused does_not_apply
  | some (from, to) ↦
      if not (str_eq from client)
      then refused does_not_apply
      else if (str_eq from messages || str_eq from responses) && str_eq to chat
      then planned (record { from = client; dialect = chat; path = path_for chat; forced = true })
      else refused not_supported
]

-- The first declared endpoint of a dialect.
unfoldable pub endpoint_of : Dialect → List ServerProtocol → Option String
endpoint_of d [] = none
endpoint_of d (p ∷ ps) =
    if str_eq (dialect_for_path p.path) d then some p.path else endpoint_of d ps

unfoldable pub declared_paths : List ServerProtocol → List String
declared_paths = map λ p. p.path

unfoldable pub decide_declared : Dialect → String → List ServerProtocol → Decision
unfolding endpoint_of declared_paths
decide_declared client path protocols =
    if str_eq client legacy then refused no_legacy else elim (endpoint_of client protocols) [
      | some _ ↦ planned (ident client path)
      | none ↦
          if str_eq client messages || str_eq client responses
          then elim (endpoint_of chat protocols) [
            | some p ↦ planned (record { from = client; dialect = chat; path = p; forced = false })
            | none ↦ refused (backend_serves (declared_paths protocols))
          ]
          else refused (backend_serves (declared_paths protocols))
    ]

abbrev is_nil {ℓ} : {A : Type ℓ} → List A → Bool
is_nil [] = true
is_nil (_ ∷ _) = false

unfoldable pub decide : Dialect → String → List ServerProtocol → String → Decision
unfolding decide_forced decide_declared
decide client path protocols forced =
    if str_eq forced "off" || is_empty (dialect_for_path path)
    then planned (ident client path)
    else if not (is_empty forced) && not (str_eq forced "auto")
    then decide_forced client forced
    else if is_nil protocols
    then planned (ident client path)
    else decide_declared client path protocols

-- `to_chat` are the translations `MessagesToChat` and `ResponsesToChat`; `none` is an error.
unfoldable pub request :
    Transform → Transform → Plan → String → Options → Option (String × List String)
request messages_to_chat responses_to_chat p body o =
    if str_eq p.dialect p.from || is_empty p.from
    then some (body, [])
    else if str_eq p.from messages && str_eq p.dialect chat
    then messages_to_chat body o
    else if str_eq p.from responses && str_eq p.dialect chat
    then responses_to_chat body o
    else none
