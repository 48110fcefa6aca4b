-- ===== src/Synchub/Client/Answers.antt =====
-- session/synchub/client.go: what `do` answers.
use korai_sdk_go.Prelude.{
  ◌≤◌, ◌<◌, String, ◌≡◌, ◌↔◌, ◌⊎◌, inl, inr, Option, none, some, arith, Option-cases,
}
use korai_sdk_go.Prelude.Dict.{Dict}
use korai_sdk_go.Synchub.{Bytes}
use korai_sdk_go.Synchub.Client.{
  HubRequest, HubBody, HubResponse, Transport, HttpLibrary, Client, got, json_request, json_answer,
  do_json,
}

module _ (L : HttpLibrary) (T : Transport) (c : Client) where
  -- The request is built and sent, and comes back with a 2xx status and a body that decodes.
  pub record Answered {A : Type 0} (method url : String) (body : Option Bytes)
      (decode : HubBody → Option A) (extra : Dict String) (st st' : T.State) (a : A) : Type 0 where
    pub request : HubRequest
    pub built : json_request L T c method url body extra ≡ some request
    pub response : HubResponse
    pub sent : T.send st request ≡ (some response, st')
    pub above : 200 ≤ response.status_code
    pub below : response.status_code < 300
    pub decoded : decode response.body ≡ some a

  json_answer-got :
      {A : Type 0} (decode : HubBody → Option A) (r : HubResponse) (a : A)
      → json_answer L T c decode r ≡ got a
      → (200 ≤ r.status_code) × (r.status_code < 300) × (decode r.body ≡ some a)
  unfolding json_answer
  json_answer-got decode r a h = (ground (arith, h), ground (arith, h), ground (arith, h))

  -- `do` gives a result exactly when the request can be built and is sent, the status of the
  -- response is 2xx, and its body decodes to that result.
  pub do_json_iff :
      {A : Type 0} (method url : String) (body : Option Bytes) (decode : HubBody → Option A)
      (extra : Dict String) (st st' : T.State) (a : A)
      → (do_json L T c method url body decode extra st ≡ (got a, st'))
        ↔ Answered method url body decode extra st st' a
  unfolding do_json json_answer
  do_json_iff method url body decode extra st st' a = (
    λ h. answered (Option-cases (json_request L T c method url body extra)) h,
    λ x. ground (arith, x.built, x.sent, x.above, x.below, x.decoded),
  )
    where
      answered :
          ((json_request L T c method url body extra ≡ none)
            ⊎ ((r : HubRequest) × (json_request L T c method url body extra ≡ some r)))
          → do_json L T c method url body decode extra st ≡ (got a, st')
          → Answered method url body decode extra st st' a
      answered (inl e) h = absurd (ground (arith, e, h))
      answered (inr (r, e)) h = elim (Option-cases (T.send st r).0) [
        | inl f ↦ absurd (ground (arith, e, f, h))
        | inr (resp, f) ↦
            let (x, y, z) = json_answer-got decode resp a (ground (arith, e, f, h)) in
            record {
              request = r;
              built = e;
              response = resp;
              sent = ground (arith, e, f, h);
              above = x;
              below = y;
              decoded = z;
            }
      ]
