-- ===== src/Http.antt =====
-- The exceptions of NestJS that the API's services throw. `internal` is any other error, which the
-- framework answers with status 500.
use real_estate_webapp.Prelude.{ℕ, String}

pub data HttpError : Type 0 where
  bad_request unauthorized forbidden not_found conflict payload_too_large unavailable :
      String → HttpError
  internal : HttpError

unfoldable pub status_code : HttpError → ℕ
status_code (bad_request s) = 400
status_code (unauthorized s) = 401
status_code (forbidden s) = 403
status_code (not_found s) = 404
status_code (conflict s) = 409
status_code (payload_too_large s) = 413
status_code (unavailable s) = 503
status_code internal = 500
