-- ===== src/Router/Model/Tests.antt =====
-- Bodies of requests.
use llm_api_router.Prelude.{◌≡◌, refl, [], ◌∷◌, ◌++◌}
use llm_api_router.Convert.Stream.Frames.{Bytes, bytes_of, trim_space}
use llm_api_router.Router.Model.{ModelField, model_key, extract_model, extract_model-first}

abbrev name : Bytes
name = 113 ∷ 51 ∷ 32 ∷ []

-- `{"model": "q3 ","n":1}`: a space before the value, and one at the end of the name.
extract_model-first_example :
    extract_model (123 ∷ (model_key ++ 58 ∷ (32 ∷ 34 ∷ (name ++ 34 ∷ bytes_of ",\"n\":1}"))))
    ≡ ModelField.named (113 ∷ 51 ∷ [])
unfolding trim_space
extract_model-first_example =
    extract_model-first (32 ∷ []) name (bytes_of ",\"n\":1}") (refl, _) (refl, (refl, (refl, _)))

-- A value that reads "model" is taken for the key.
value_as_key :
    extract_model (bytes_of "{\"user\":\"model\",\"id\":\"abc\",\"model\":\"gpt\"}")
    ≡ ModelField.named (bytes_of "abc")
unfolding extract_model bytes_of trim_space
value_as_key = refl

-- So is one in a list, which is at the depth of its object.
list_as_key :
    extract_model (bytes_of "{\"stop\":[\"model\"],\"id\":\"abc\",\"model\":\"gpt\"}")
    ≡ ModelField.named (bytes_of "abc")
unfolding extract_model bytes_of trim_space
list_as_key = refl
