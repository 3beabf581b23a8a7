-- ===== src/Service/Failure.antt =====
-- internal/util/http.go: the answer to a request that has failed. JSON is the argument `marshal`.
use oes_birger.Prelude.{ℕ, String, [], ◌∷◌, Option, none, some}
use oes_birger.Text.{concat}

-- What is written: the status and the body.
pub record Failure : Type 0 where
  pub status : ℕ
  pub body : String

-- The message of `httpErrorMessage`.
unfoldable pub http_error : (String → Option String) → String → String
unfolding concat
http_error marshal message =
    elim (marshal (concat ("Unable to process request: " ∷ message ∷ []))) [
      | none ↦ "{\"error\":{\"message\":\"Unknown Error\"}}"
      | some json ↦ json
    ]

unfoldable pub fail_request : (String → Option String) → String → ℕ → Failure
unfolding http_error
fail_request marshal message code = record { status = code; body = http_error marshal message }
