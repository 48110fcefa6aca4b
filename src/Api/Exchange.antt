-- ===== src/Api/Exchange.antt =====
-- client.go: requests and responses. Sending is an operation over a state of the transport.
pub mod Answered
pub mod Stamped
use korai_sdk_go.Prelude.{
  ℕ, String, Bool, true, false, Option, none, some, [], ◌∷◌, not, leb, ◌==◌, ◌<>◌, if◌then◌else◌,
}
use korai_sdk_go.Prelude.Dict.{Dict, insert}
use korai_sdk_go.Stream.{Text}
use korai_sdk_go.Api.Errors.{
  ApiResponse, ErrorLibrary, SdkError, api, connection, cancelled, marshal_failed, build_failed,
  no_response, read_failed, decode_failed, parse_api_error,
}
use korai_sdk_go.Api.Options.{Client}

pub record ApiRequest : Type 0 where
  pub method : String
  pub url : String
  pub headers : Dict String
  pub body : Option Text

-- A response, what can be read of its body, and whether reading on fails.
pub record Reply : Type 0 where
  pub response : ApiResponse
  pub content : Text
  pub broken : Bool

-- What comes of a call: `cancelled_send` is an error of the context, `no_reply` the nil response.
pub data Sent : Type 0 where
  replied : Reply → Sent
  cancelled_send failed_send no_reply : Sent

pub record ApiTransport : Type 1 where
  pub State : Type 0
  pub send : State → ApiRequest → Sent × State

-- The body of a call: none, or one that is marshalled, `none` for an error.
pub data Payload : Type 0 where
  no_payload : Payload
  payload : Option Text → Payload

pub data ApiResult (Raw A : Type 0) : Type 0 where
  answered : A → ApiResult Raw A
  failed : SdkError Raw → ApiResult Raw A

unfoldable pub default_headers : {Store : Type 0} → Client Store → Dict String
default_headers c =
    let h = insert "Accept" "application/json" (insert "User-Agent" c.user_agent []) in
    let h' =
      if not (c.api_key == "") then insert "Authorization" ("Bearer " <> c.api_key) h else h in
    if not (c.organization_id == "") then insert "X-Korai-Organization" c.organization_id h' else h'

unfoldable pub wrap_transport_error : {Raw : Type 0} → Bool → SdkError Raw
wrap_transport_error by_context = if by_context then cancelled else connection

-- `http.NewRequestWithContext` accepts a method and a URL, or fails.
module _ {Store : Type 0} (is_valid : String → String → Bool) (c : Client Store) where
  unfoldable pub checked :
      {Raw : Type 0} → String → String → Option Text → Dict String → ApiResult Raw ApiRequest
  checked method url body headers =
      if not (is_valid method url)
      then failed build_failed
      else answered (record { method = method; url = url; headers = headers; body = body })

  unfoldable pub build_request :
      {Raw : Type 0} → String → String → Payload → ApiResult Raw ApiRequest
  unfolding default_headers checked
  build_request method path no_payload =
      checked method (c.base_url <> path) none (default_headers c)
  build_request method path (payload none) = failed marshal_failed
  build_request method path (payload (some raw)) =
      checked method (c.base_url <> path) (some raw)
        (insert "Content-Type" "application/json" (default_headers c))

module _ {Raw : Type 0} (L : ErrorLibrary Raw) where
  -- A 2xx or 3xx body into the result, which stays as it is if the body is empty.
  unfoldable pub decoded : {A : Type 0} → A → Option A → Text → ApiResult Raw A
  decoded zero_value result [] = answered zero_value
  decoded zero_value none (x ∷ xs) = failed decode_failed
  decoded zero_value (some a) (x ∷ xs) = answered a

  unfoldable pub read_reply : {A : Type 0} → A → (Text → Option A) → Reply → ApiResult Raw A
  unfolding decoded
  read_reply zero_value decode r =
      if r.broken
      then failed read_failed
      else if leb 400 r.response.status_code
      then failed (api (parse_api_error L r.response r.content))
      else decoded zero_value (decode r.content) r.content

  unfoldable pub gen_decode : {A : Type 0} → A → (Text → Option A) → Sent → ApiResult Raw A
  unfolding read_reply wrap_transport_error
  gen_decode zero_value decode (replied r) = read_reply zero_value decode r
  gen_decode zero_value decode cancelled_send = failed (wrap_transport_error true)
  gen_decode zero_value decode failed_send = failed (wrap_transport_error false)
  gen_decode zero_value decode no_reply = failed no_response

  -- `httpClient.Do` gives a response or an error.
  unfoldable pub raw_reply : Sent → ApiResult Raw Reply
  raw_reply (replied r) = answered r
  raw_reply cancelled_send = failed (wrap_transport_error true)
  raw_reply failed_send = failed (wrap_transport_error false)
  raw_reply no_reply = failed no_response

  checked_reply : ApiResult Raw Reply → ApiResult Raw Reply
  checked_reply (failed e) = failed e
  checked_reply (answered r) =
      if leb 400 r.response.status_code
      then failed (api (parse_api_error L r.response r.content))
      else answered r

  module _ {Store : Type 0} (is_valid : String → String → Bool) (T : ApiTransport)
      (c : Client Store) where
    -- The request that is built is sent, and what comes of it is read.
    unfoldable pub exchanged :
        {A : Type 0}
        → (Sent → ApiResult Raw A)
        → ApiResult Raw ApiRequest
        → T.State
        → ApiResult Raw A × T.State
    exchanged read (failed e) st = (failed e, st)
    exchanged read (answered req) st = let (sent, st') = T.send st req in (read sent, st')

    unfoldable pub do_request :
        {A : Type 0}
        → String
        → String
        → Payload
        → A
        → (Text → Option A)
        → T.State
        → ApiResult Raw A × T.State
    unfolding build_request gen_decode exchanged
    do_request method path body zero_value decode st =
        exchanged (gen_decode zero_value decode) (build_request is_valid c method path body) st

    unfoldable pub do_raw_request :
        String → String → Payload → T.State → ApiResult Raw Reply × T.State
    unfolding build_request raw_reply checked_reply exchanged wrap_transport_error
    do_raw_request method path body st =
        exchanged (λ sent. checked_reply (raw_reply sent))
          (build_request is_valid c method path body) st

    unfoldable pub do_raw : String → String → Payload → T.State → ApiResult Raw Reply × T.State
    unfolding build_request raw_reply exchanged wrap_transport_error
    do_raw method path body st = exchanged raw_reply (build_request is_valid c method path body) st
