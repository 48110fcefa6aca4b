-- ===== src/Api/Errors/Classified.antt =====
-- errors.go: which of the predicates an error satisfies.
use korai_sdk_go.Prelude.{ℕ, ◌≡◌, refl, Bool, ◌||◌, arith, List, [], ◌∷◌, ◌+◌, ◌≤◌, if◌then◌else◌}
use korai_sdk_go.Api.Errors.{
  SdkError, api, connection, err_unauthorized, err_not_found, err_rate_limited, api_is, error_is,
  status_equals, is_bad_request, is_unauthorized, is_permission_denied, is_not_found_status,
  is_unprocessable, is_rate_limited, is_server_error, is_connection_error,
}

abbrev pub count_true : List Bool → ℕ
count_true [] = 0
count_true (b ∷ bs) = if b then 1 + count_true bs else count_true bs

module _ {Raw : Type 0} where
  -- The sentinels say of an error what the predicates say: `ErrUnauthorized` is 401 or 403,
  -- `ErrNotFound` 404 and `ErrRateLimited` 429.
  pub error_is_lem :
      (e : SdkError Raw)
      → (error_is e err_unauthorized ≡ (is_unauthorized e || is_permission_denied e))
        × (error_is e err_not_found ≡ is_not_found_status e)
        × (error_is e err_rate_limited ≡ is_rate_limited e)
  unfolding error_is api_is is_unauthorized is_permission_denied is_not_found_status is_rate_limited
      status_equals
  error_is_lem (api e) = (refl, refl, refl)
  error_is_lem _ = (refl, refl, refl)

  abbrev pub classes : SdkError Raw → List Bool
  classes e =
      is_bad_request e
      ∷ is_unauthorized e
      ∷ is_permission_denied e
      ∷ is_not_found_status e
      ∷ is_unprocessable e
      ∷ is_rate_limited e
      ∷ is_server_error e
      ∷ is_connection_error e
      ∷ []

  -- No error satisfies two of the predicates on errors.
  pub count_true-classes : (e : SdkError Raw) → count_true (classes e) ≤ 1
  unfolding error_is api_is is_bad_request is_unauthorized is_permission_denied is_not_found_status
      is_unprocessable is_rate_limited is_server_error is_connection_error status_equals
  count_true-classes (api e) = ground arith
  count_true-classes connection = omega arith
  count_true-classes _ = omega arith
