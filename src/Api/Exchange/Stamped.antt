-- ===== src/Api/Exchange/Stamped.antt =====
-- client.go: the requests that `buildRequest` makes.
use mathlib.Core.Path.{subst}
use korai_sdk_go.Prelude.{
  String, ◌≡◌, refl, Bool, Bool-cases, inl, inr, Option, none, some, ◌<>◌, ◌==◌, arith,
  if◌then◌else◌,
}
use korai_sdk_go.Prelude.Dict.{Dict, lookup, insert, lookup-insert, lookup-insert_self}
use korai_sdk_go.Stream.{Text}
use korai_sdk_go.Api.Options.{Client}
use korai_sdk_go.Api.Exchange.{
  ApiRequest, Payload, no_payload, payload, ApiResult, answered, default_headers, checked,
  build_request,
}

abbrev pub unless_empty : String → String → Option String
unless_empty s v = if s == "" then none else some v

module _ {Store : Type 0} (is_valid : String → String → Bool) (c : Client Store) where
  pub record IsStamped (path : String) (req : ApiRequest) : Type 0 where
    pub url : req.url ≡ c.base_url <> path
    pub agent : lookup "User-Agent" req.headers ≡ some c.user_agent
    pub bearer :
        lookup "Authorization" req.headers ≡ unless_empty c.api_key ("Bearer " <> c.api_key)
    pub organization :
        lookup "X-Korai-Organization" req.headers ≡ unless_empty c.organization_id c.organization_id
    pub content_type :
        lookup "Content-Type" req.headers
        ≡ elim req.body [ none ↦ none | some b ↦ some "application/json" ]

  checked-answered :
      {Raw : Type 0} (method url : String) (body : Option Text) (headers : Dict String)
      (req : ApiRequest)
      → checked is_valid c {Raw = Raw} method url body headers ≡ answered req
      → record { method = method; url = url; headers = headers; body = body } ≡ req
  unfolding checked
  checked-answered {Raw = Raw} method url body headers req h =
      elim (Bool-cases (is_valid method url)) [
        | inr e ↦ absurd (ground (arith, e, h))
        | inl e ↦ injective (rw (e, checked) at h)
      ]
    where
      injective :
          {x y : ApiRequest} → ◌≡◌ {A = ApiResult Raw ApiRequest} (answered x) (answered y) → x ≡ y
      injective q = cc q

  -- The headers without a body, and with one.
  default_headers-IsStamped :
      (method path : String)
      → IsStamped path (record {
        method = method;
        url = c.base_url <> path;
        headers = default_headers c;
        body = none;
      })
  unfolding default_headers lookup insert
  default_headers-IsStamped method path = record {
    url = refl;
    agent = ground arith;
    bearer = ground arith;
    organization = ground arith;
    content_type = ground arith;
  }

  insert-IsStamped :
      (method path : String) (raw : Text)
      → IsStamped path (record {
        method = method;
        url = c.base_url <> path;
        headers = insert "Content-Type" "application/json" (default_headers c);
        body = some raw;
      })
  insert-IsStamped method path raw =
      let s = default_headers-IsStamped method path in
      record {
        url = refl;
        agent = simp (lookup-insert, s.agent);
        bearer = simp (lookup-insert, s.bearer);
        organization = simp (lookup-insert, s.organization);
        content_type = lookup-insert_self "Content-Type" "application/json" (default_headers c);
      }

  -- A request that is built goes to the server of the client, and carries its user agent, its key
  -- and its organization where they are not empty, and a content type exactly if it has a body.
  pub build_request-IsStamped :
      {Raw : Type 0} (method path : String) (body : Payload) (req : ApiRequest)
      → build_request is_valid c {Raw = Raw} method path body ≡ answered req
      → IsStamped path req
  unfolding build_request
  build_request-IsStamped method path no_payload req h =
      subst (IsStamped path) (checked-answered method (c.base_url <> path) none _ req h)
        (default_headers-IsStamped method path)
  build_request-IsStamped method path (payload none) req h = absurd (ground (arith, h))
  build_request-IsStamped method path (payload (some raw)) req h =
      subst (IsStamped path) (checked-answered method (c.base_url <> path) (some raw) _ req h)
        (insert-IsStamped method path raw)
