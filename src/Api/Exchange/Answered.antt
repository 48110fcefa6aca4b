-- ===== src/Api/Exchange/Answered.antt =====
-- client.go: the requests that are sent, and what `doRequest` makes of the response that `DoRaw`
-- returns.
use mathlib.Core.Path.{subst}
use korai_sdk_go.Prelude.{
  ◌≤◌, ◌<◌, String, ◌≡◌, refl, ap, sym, ◌∙◌, ◌↔◌, ◌⊎◌, inl, inr, Bool, true, false, Option, none,
  some, [], ◌∷◌, leb, arith, Bool-cases,
}
use korai_sdk_go.Stream.{Text, is_blank}
use korai_sdk_go.Api.Errors.{ErrorLibrary, api, parse_api_error}
use korai_sdk_go.Api.Options.{Client}
use korai_sdk_go.Api.Exchange.{
  ApiRequest, Reply, Sent, replied, cancelled_send, failed_send, no_reply, ApiTransport, Payload,
  ApiResult, answered, failed, build_request, decoded, read_reply, gen_decode, raw_reply, exchanged,
  do_request, do_raw,
}

module _ {Raw : Type 0} (L : ErrorLibrary Raw) where
  -- The response is read into the result: its status is under 400, and its body is empty, which
  -- leaves the result as it was, or decodes.
  pub record Accepted {A : Type 0} (zero_value : A) (decode : Text → Option A) (r : Reply) (a : A)
      : Type 0 where
    pub whole : r.broken ≡ false
    pub status : r.response.status_code < 400
    pub result :
        ((is_blank r.content ≡ true) × (a ≡ zero_value))
        ⊎ ((is_blank r.content ≡ false) × (decode r.content ≡ some a))

  decoded_iff :
      {A : Type 0} (zero_value a : A) (o : Option A) (t : Text)
      → (decoded L zero_value o t ≡ answered a)
        ↔ (((is_blank t ≡ true) × (a ≡ zero_value)) ⊎ ((is_blank t ≡ false) × (o ≡ some a)))
  unfolding decoded
  decoded_iff zero_value a o [] = (λ h. inl (refl, cc h), λ x. ground (arith, x))
  decoded_iff zero_value a none (x ∷ xs) = (λ h. absurd (ground (arith, h)), λ x. ground (arith, x))
  decoded_iff zero_value a (some b) (x ∷ xs) = (λ h. inr (refl, cc h), λ x. ground (arith, x))

  read_reply_iff :
      {A : Type 0} (zero_value a : A) (decode : Text → Option A) (r : Reply)
      → (read_reply L zero_value decode r ≡ answered a) ↔ Accepted zero_value decode r a
  unfolding read_reply
  read_reply_iff {A = A} zero_value a decode r = (λ h. accepted h, λ x. back x)
    where
      accepted : read_reply L zero_value decode r ≡ answered a → Accepted zero_value decode r a
      accepted h = elim (Bool-cases r.broken) [
        | inl e ↦ absurd (ground (arith, e, h))
        | inr e ↦ elim (Bool-cases (leb 400 r.response.status_code)) [
          | inl f ↦ absurd (ground (arith, e, f, h))
          | inr f ↦ record {
            whole = e;
            status = ground (arith, f);
            result =
                (decoded_iff zero_value a (decode r.content) r.content).0
                  (rw (e, f, read_reply) at h);
          }
        ]
      ]

      back : Accepted zero_value decode r a → read_reply L zero_value decode r ≡ answered a
      back x =
          let f : leb 400 r.response.status_code ≡ false = ground (arith, x.status) in
          rw (x.whole, f, read_reply)
            ((decoded_iff zero_value a (decode r.content) r.content).1 x.result)

  gen_decode_iff :
      {A : Type 0} (zero_value a : A) (decode : Text → Option A) (s : Sent)
      → (gen_decode L zero_value decode s ≡ answered a)
        ↔ ((r : Reply) × (raw_reply L s ≡ answered r) × Accepted zero_value decode r a)
  unfolding gen_decode raw_reply
  gen_decode_iff zero_value a decode (replied r) = (
    λ h. (r, refl, (read_reply_iff zero_value a decode r).0 h),
    λ (r', q, x).
        (read_reply_iff zero_value a decode r).1
          (subst (λ y. Accepted zero_value decode y a) (sym (same r' q)) x),
  )
    where
      same : (r' : Reply) → ◌≡◌ {A = ApiResult Raw Reply} (answered r) (answered r') → r ≡ r'
      same r' q = cc q
  gen_decode_iff zero_value a decode cancelled_send =
      (λ h. absurd (ground (arith, h)), λ x. absurd (ground (arith, x.1)))
  gen_decode_iff zero_value a decode failed_send =
      (λ h. absurd (ground (arith, h)), λ x. absurd (ground (arith, x.1)))
  gen_decode_iff zero_value a decode no_reply =
      (λ h. absurd (ground (arith, h)), λ x. absurd (ground (arith, x.1)))

  read_reply-refused :
      {A : Type 0} (zero_value : A) (decode : Text → Option A) (r : Reply)
      → r.broken ≡ false
      → 400 ≤ r.response.status_code
      → read_reply L zero_value decode r ≡ failed (api (parse_api_error L r.response r.content))
  unfolding read_reply
  read_reply-refused zero_value decode r w s =
      let f : leb 400 r.response.status_code ≡ true = ground (arith, s) in
      rw (w, f, read_reply) refl

  gen_decode-refused :
      {A : Type 0} (zero_value : A) (decode : Text → Option A) (s : Sent) (r : Reply)
      → raw_reply L s ≡ answered r
      → r.broken ≡ false
      → 400 ≤ r.response.status_code
      → gen_decode L zero_value decode s ≡ failed (api (parse_api_error L r.response r.content))
  unfolding gen_decode raw_reply
  gen_decode-refused zero_value decode (replied r') r q w s =
      ap (read_reply L zero_value decode) (same q) ∙ read_reply-refused zero_value decode r w s
    where
      same : ◌≡◌ {A = ApiResult Raw Reply} (answered r') (answered r) → r' ≡ r
      same q = cc q
  gen_decode-refused zero_value decode cancelled_send r q w s = absurd (ground (arith, q))
  gen_decode-refused zero_value decode failed_send r q w s = absurd (ground (arith, q))
  gen_decode-refused zero_value decode no_reply r q w s = absurd (ground (arith, q))

  module _ {Store : Type 0} (is_valid : String → String → Bool) (T : ApiTransport)
      (c : Client Store) where
    exchanged_iff :
        {A : Type 0} (zero_value a : A) (decode : Text → Option A)
        (built : ApiResult Raw ApiRequest) (st st' : T.State)
        → (exchanged L is_valid T c (gen_decode L zero_value decode) built st ≡ (answered a, st'))
          ↔ ((r : Reply) × (exchanged L is_valid T c (raw_reply L) built st ≡ (answered r, st'))
              × Accepted zero_value decode r a)
    unfolding exchanged
    exchanged_iff zero_value a decode (failed e) st st' =
        (λ h. absurd (ground (arith, h)), λ x. absurd (ground (arith, x.1)))
    exchanged_iff zero_value a decode (answered req) st st' = (
      λ h.
          let (r, q, x) =
            (gen_decode_iff zero_value a decode (T.send st req).0).0 (ap (λ p. p.0) h) in
          (r, λ i. (q i, ap (λ p. p.1) h i), x),
      λ (r, h, x). λ i. (
        (gen_decode_iff zero_value a decode (T.send st req).0).1 (r, ap (λ p. p.0) h, x) i,
        ap (λ p. p.1) h i,
      ),
    )

    exchanged-refused :
        {A : Type 0} (zero_value : A) (decode : Text → Option A) (built : ApiResult Raw ApiRequest)
        (st st' : T.State) (r : Reply)
        → exchanged L is_valid T c (raw_reply L) built st ≡ (answered r, st')
        → r.broken ≡ false
        → 400 ≤ r.response.status_code
        → exchanged L is_valid T c (gen_decode L zero_value decode) built st
          ≡ (failed (api (parse_api_error L r.response r.content)), st')
    unfolding exchanged
    exchanged-refused zero_value decode (failed e) st st' r h w s = absurd (ground (arith, h))
    exchanged-refused zero_value decode (answered req) st st' r h w s =
        let q = gen_decode-refused zero_value decode (T.send st req).0 r (ap (λ p. p.0) h) w s in
        λ i. (q i, ap (λ p. p.1) h i)

    -- `doRequest` gives a result exactly when `DoRaw` returns a response with a status under 400
    -- whose body can be read, and which is empty, which leaves the result as it was, or decodes to
    -- the result.
    pub do_request_iff :
        {A : Type 0} (method path : String) (body : Payload) (zero_value a : A)
        (decode : Text → Option A) (st st' : T.State)
        → (do_request L is_valid T c method path body zero_value decode st ≡ (answered a, st')) ↔ (
            (r : Reply) × (do_raw L is_valid T c method path body st ≡ (answered r, st'))
            × Accepted zero_value decode r a)
    unfolding do_request do_raw
    do_request_iff method path body zero_value a decode st st' =
        exchanged_iff zero_value a decode (build_request is_valid c method path body) st st'

    -- A response with a status from 400 up becomes the error that is parsed from it, if its body
    -- can be read.
    pub do_request-refused :
        {A : Type 0} (method path : String) (body : Payload) (zero_value : A)
        (decode : Text → Option A) (st st' : T.State) (r : Reply)
        → do_raw L is_valid T c method path body st ≡ (answered r, st')
        → r.broken ≡ false
        → 400 ≤ r.response.status_code
        → do_request L is_valid T c method path body zero_value decode st
          ≡ (failed (api (parse_api_error L r.response r.content)), st')
    unfolding do_request do_raw
    do_request-refused method path body zero_value decode st st' r h w s =
        exchanged-refused zero_value decode (build_request is_valid c method path body) st st' r h w
          s
