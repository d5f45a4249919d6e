-- ===== src/Tests/Observability.antt =====
-- What is logged: infrastructure/observability/logging.py.
use edge_copilot_backend.Prelude.{true, [], ◌∷◌, All, ◌≡◌, ◌↔◌, ◌⊎◌, some, refl}
use edge_copilot_backend.Values.{text, items, dict, nil, cons, Fields, end, field}
use edge_copilot_backend.Observability.{redacted, begins, is_secret, redact_dict, redact_value}
use edge_copilot_backend.Observability.Search.{HoldsSecretWord, is_secret_iff}
use edge_copilot_backend.Observability.Paths.{at, IsOpen, EndsAtSecret}
use edge_copilot_backend.Observability.Redaction.{redact_dict_iff}

abbrev payload : Fields
payload =
    field "user" (dict (field "Api-Key" (text "k") (field "name" (text "n") end)))
      (field "attempts" (items (cons (dict (field "password" (text "p") end)) nil)) end)

redacts :
    redact_dict payload
    ≡ field "user"
        (dict (field "Api-Key" redacted (field "name" (text "n") end)))
        (field "attempts" (items (cons (dict (field "password" (text "p") end)) nil)) end)
unfolding redact_dict redact_value is_secret begins
redacts = refl

is_secret_iff_example : (is_secret "X-Api-Key" ≡ true) ↔ HoldsSecretWord "X-Api-Key"
is_secret_iff_example = is_secret_iff "X-Api-Key"

redact_dict_iff_example :
    (at ("user" ∷ "name" ∷ []) (dict (redact_dict payload)) ≡ some (text "n")) ↔ (
      (All IsOpen ("user" ∷ "name" ∷ [])
        × (at ("user" ∷ "name" ∷ []) (dict payload) ≡ some (text "n")))
      ⊎ ((text "n" ≡ redacted) × EndsAtSecret ("user" ∷ "name" ∷ []) (dict payload)))
redact_dict_iff_example = redact_dict_iff ("user" ∷ "name" ∷ []) payload (text "n") tt
