-- ===== src/Api/Errors.antt =====
-- errors.go and the end of client.go: the errors of the SDK, and the one made from a response.
-- A text is the list of its code points. A decoded JSON object is a value of an abstract type.
pub mod Classified
pub mod Parsed
use korai_sdk_go.Prelude.{
  ℕ, String, Bool, true, false, Option, none, some, List, [], ◌∷◌, not, ◌&&◌, ◌||◌, leb, nat_eq,
  ◌==◌, if◌then◌else◌,
}
use korai_sdk_go.Prelude.Int.{ℤ, pos}
use korai_sdk_go.Stream.{Text, is_blank, trim_space}

pub record ApiError (Raw : Type 0) : Type 0 where
  pub status_code : ℕ
  pub code : Text
  pub message : Text
  pub details : Option Raw
  pub retry_after : ℤ
  pub request_id : String

-- The errors that the modelled calls return, less their texts. `api` is an `*APIError`,
-- `connection` wraps `ErrConnection`, `cancelled` the error of the context.
pub data SdkError (Raw : Type 0) : Type 0 where
  api : ApiError Raw → SdkError Raw
  connection cancelled marshal_failed build_failed no_response read_failed : SdkError Raw
  decode_failed missing_token missing_user invalid_config not_implemented : SdkError Raw

pub data Sentinel : Type 0 where
  err_unauthorized err_not_found err_rate_limited : Sentinel
  err_not_implemented err_invalid_config err_connection : Sentinel

-- The body has been read; `header` is `Header.Get`, "" for an absent one.
pub record ApiResponse : Type 0 where
  pub status_code : ℕ
  pub header : String → String

-- `encoding/json` into the envelope, whose `error` may be nil, and into a map, `none` for an
-- error; a field of a map that is a string; `http.StatusText` and `strconv.Atoi`.
pub record ErrorLibrary (Raw : Type 0) : Type 0 where
  pub unmarshal_envelope : Text → Option (Option Raw)
  pub unmarshal_generic : Text → Option Raw
  pub string_field : Raw → String → Option Text
  pub status_text : ℕ → Text
  pub atoi : String → Option ℤ

-- `APIError.Is`
unfoldable pub api_is : {Raw : Type 0} → ApiError Raw → Sentinel → Bool
api_is e err_unauthorized = nat_eq e.status_code 401 || nat_eq e.status_code 403
api_is e err_not_found = nat_eq e.status_code 404
api_is e err_rate_limited = nat_eq e.status_code 429
api_is e err_not_implemented = false
api_is e err_invalid_config = false
api_is e err_connection = false

-- `errors.Is(err, sentinel)`
unfoldable pub error_is : {Raw : Type 0} → SdkError Raw → Sentinel → Bool
unfolding api_is
error_is (api e) s = api_is e s
error_is connection err_connection = true
error_is invalid_config err_invalid_config = true
error_is not_implemented err_not_implemented = true
error_is _ _ = false

-- `errors.As(err, &apiErr) && apiErr.StatusCode == want`
unfoldable pub status_equals : {Raw : Type 0} → SdkError Raw → ℕ → Bool
status_equals (api e) want = nat_eq e.status_code want
status_equals _ want = false

unfoldable pub is_bad_request : {Raw : Type 0} → SdkError Raw → Bool
unfolding status_equals
is_bad_request e = status_equals e 400

unfoldable pub is_unauthorized : {Raw : Type 0} → SdkError Raw → Bool
unfolding status_equals
is_unauthorized e = status_equals e 401

unfoldable pub is_permission_denied : {Raw : Type 0} → SdkError Raw → Bool
unfolding status_equals
is_permission_denied e = status_equals e 403

unfoldable pub is_not_found_status : {Raw : Type 0} → SdkError Raw → Bool
unfolding status_equals
is_not_found_status e = status_equals e 404

unfoldable pub is_unprocessable : {Raw : Type 0} → SdkError Raw → Bool
unfolding status_equals
is_unprocessable e = status_equals e 422

unfoldable pub is_rate_limited : {Raw : Type 0} → SdkError Raw → Bool
unfolding status_equals
is_rate_limited e = status_equals e 429

unfoldable pub is_server_error : {Raw : Type 0} → SdkError Raw → Bool
is_server_error (api e) = leb 500 e.status_code
is_server_error _ = false

unfoldable pub is_connection_error : {Raw : Type 0} → SdkError Raw → Bool
unfolding error_is
is_connection_error e = error_is e err_connection

unfoldable pub is_not_implemented : {Raw : Type 0} → SdkError Raw → Bool
unfolding error_is
is_not_implemented e = error_is e err_not_implemented

abbrev first_header : (String → String) → List String → String
first_header header [] = ""
first_header header (k ∷ ks) =
    let rest = first_header header ks in if not (header k == "") then header k else rest

unfoldable pub request_id_from_header : (String → String) → String
request_id_from_header header =
    first_header header ("X-Request-Id" ∷ "Request-Id" ∷ "X-Korai-Request-Id" ∷ [])

module _ {Raw : Type 0} (L : ErrorLibrary Raw) where
  unfoldable pub parsed_retry_after : String → ℤ
  parsed_retry_after ra = if ra == "" then pos 0 else elim (L.atoi ra) [ none ↦ pos 0 | some n ↦ n ]

  -- A string field that is not empty, else the other text.
  abbrev pub message_or : Option Text → Text → Text
  message_or none other = other
  message_or (some []) other = other
  message_or (some (c ∷ cs)) other = c ∷ cs

  abbrev pub text_or : Option Text → Text → Text
  text_or none other = other
  text_or (some t) other = t

  -- The error before the body is looked at.
  unfoldable pub bare_error : ApiResponse → ApiError Raw
  unfolding parsed_retry_after request_id_from_header
  bare_error resp = record {
    status_code = resp.status_code;
    code = [];
    message = L.status_text resp.status_code;
    details = none;
    retry_after = parsed_retry_after (resp.header "Retry-After");
    request_id = request_id_from_header resp.header;
  }

  -- The body is no envelope.
  unfoldable pub fallback_error : ApiError Raw → Text → Option Raw → ApiError Raw
  fallback_error e raw (some generic) = record e {
    details = some generic;
    message = message_or (L.string_field generic "error") e.message;
  }
  fallback_error e raw none = record e {
    message = if is_blank (trim_space raw) then L.status_text e.status_code else trim_space raw;
  }

  unfoldable pub envelope_error : ApiError Raw → Text → Option (Option Raw) → ApiError Raw
  unfolding fallback_error
  envelope_error e raw none = fallback_error e raw (L.unmarshal_generic raw)
  envelope_error e raw (some none) = fallback_error e raw (L.unmarshal_generic raw)
  envelope_error e raw (some (some m)) = record e {
    details = some m;
    message = message_or (L.string_field m "message") e.message;
    code = text_or (L.string_field m "type") e.code;
  }

  unfoldable pub parse_api_error : ApiResponse → Text → ApiError Raw
  unfolding bare_error envelope_error
  parse_api_error resp [] = bare_error resp
  parse_api_error resp (c ∷ cs) =
      envelope_error (bare_error resp) (c ∷ cs) (L.unmarshal_envelope (c ∷ cs))
