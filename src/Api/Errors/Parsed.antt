-- ===== src/Api/Errors/Parsed.antt =====
-- client.go: what `parseAPIError` keeps of a response.
use korai_sdk_go.Prelude.{
  ◌≡◌, ◌≢◌, refl, ap, sym, ◌∙◌, false, Option, none, some, [], ◌∷◌, arith, Bool-cases, inl, inr,
}
use korai_sdk_go.Stream.{Text, is_blank, trim_space}
use korai_sdk_go.Api.Errors.{
  ApiError, ApiResponse, ErrorLibrary, bare_error, message_or, fallback_error, envelope_error,
  parsed_retry_after, request_id_from_header, parse_api_error,
}

module _ {Raw : Type 0} (L : ErrorLibrary Raw) where
  -- What the body cannot change, and the message that is there if the status has a text.
  pub record Keeps (resp : ApiResponse) (e : ApiError Raw) : Type 0 where
    pub status_code : e.status_code ≡ resp.status_code
    pub retry_after : e.retry_after ≡ parsed_retry_after L (resp.header "Retry-After")
    pub request_id : e.request_id ≡ request_id_from_header resp.header
    pub message : e.message ≢ []

  message_or-nonempty : (o : Option Text) (t : Text) → t ≢ [] → message_or L o t ≢ []
  message_or-nonempty none t h = h
  message_or-nonempty (some []) t h = h
  message_or-nonempty (some (c ∷ cs)) t h = λ q. ground (arith, q)

  fallback_error-Keeps :
      (resp : ApiResponse) (e : ApiError Raw) (raw : Text) (g : Option Raw)
      → L.status_text resp.status_code ≢ []
      → Keeps resp e
      → Keeps resp (fallback_error L e raw g)
  unfolding fallback_error
  fallback_error-Keeps resp e raw (some generic) h k = record {
    status_code = k.status_code;
    retry_after = k.retry_after;
    request_id = k.request_id;
    message = message_or-nonempty (L.string_field generic "error") e.message k.message;
  }
  fallback_error-Keeps resp e raw none h k = elim (Bool-cases (is_blank (trim_space raw))) [
    | inl b ↦
        rw (b, fallback_error)
          (record {
            status_code = k.status_code;
            retry_after = k.retry_after;
            request_id = k.request_id;
            message = λ q. h (ap L.status_text (sym k.status_code) ∙ q);
          })
    | inr b ↦
        rw (b, fallback_error)
          (record {
            status_code = k.status_code;
            retry_after = k.retry_after;
            request_id = k.request_id;
            message = nonblank (trim_space raw) b;
          })
  ]
    where
      nonblank : (t : Text) → is_blank t ≡ false → t ≢ []
      nonblank t b q = ground (arith, b, q)

  envelope_error-Keeps :
      (resp : ApiResponse) (e : ApiError Raw) (raw : Text) (g : Option (Option Raw))
      → L.status_text resp.status_code ≢ []
      → Keeps resp e
      → Keeps resp (envelope_error L e raw g)
  unfolding envelope_error
  envelope_error-Keeps resp e raw none h k =
      fallback_error-Keeps resp e raw (L.unmarshal_generic raw) h k
  envelope_error-Keeps resp e raw (some none) h k =
      fallback_error-Keeps resp e raw (L.unmarshal_generic raw) h k
  envelope_error-Keeps resp e raw (some (some m)) h k = record {
    status_code = k.status_code;
    retry_after = k.retry_after;
    request_id = k.request_id;
    message = message_or-nonempty (L.string_field m "message") e.message k.message;
  }

  -- The error made from a response whose status has a text keeps the status, the Retry-After
  -- header and the request id, whatever the body is, and its message is not empty.
  pub parse_api_error-Keeps :
      (resp : ApiResponse) (raw : Text)
      → L.status_text resp.status_code ≢ []
      → Keeps resp (parse_api_error L resp raw)
  unfolding parse_api_error bare_error
  parse_api_error-Keeps resp [] h = bare h
    where
      bare : L.status_text resp.status_code ≢ [] → Keeps resp (bare_error L resp)
      bare h = record { status_code = refl; retry_after = refl; request_id = refl; message = h }
  parse_api_error-Keeps resp (c ∷ cs) h =
      envelope_error-Keeps resp (bare_error L resp) (c ∷ cs) (L.unmarshal_envelope (c ∷ cs)) h
        (record { status_code = refl; retry_after = refl; request_id = refl; message = h })
