-- ===== src/Api/Auth.antt =====
-- auth.go: the calls that log in and out, and the claims of a token. The generated calls, which
-- answer with a response or an error, are operations over the state of the transport; they carry
-- the token that the client has at the time.
pub mod Tokens
use Prim.Native.Char.{code}
use korai_sdk_go.Prelude.{
  ℕ, String, Bool, true, false, Option, none, some, List, [], ◌∷◌, ◌++◌, not, ◌||◌, length, nat_eq,
  ◌==◌, if◌then◌else◌,
}
use korai_sdk_go.Prelude.Int.{ℤ, pos, ltb_ℤ}
use korai_sdk_go.Stream.{Text}
use korai_sdk_go.Api.Errors.{
  ErrorLibrary, SdkError, invalid_config, marshal_failed, missing_token, missing_user,
  not_implemented,
}
use korai_sdk_go.Api.Options.{Client, use_token}
use korai_sdk_go.Api.Exchange.{
  ApiTransport, Sent, no_payload, ApiResult, answered, failed, gen_decode, do_request,
}

pub record TokenPair : Type 0 where
  pub access_token : String
  pub refresh_token : String
  pub token_type : String
  pub expires_in : ℤ

pub record RegisterPayload : Type 0 where
  pub email : String
  pub password : String
  pub display_name : String
  pub organization_name : String
  pub organization_country : String
  pub preferred_language : String

-- `User` is of an abstract type. A nil pointer is `none`.
pub record LoginEnvelope (User : Type 0) : Type 0 where
  pub user : Option User
  pub token : String

pub record JwtClaims : Type 0 where
  pub sub : String
  pub email : String
  pub tier : String
  pub role : String
  pub iat : ℤ
  pub exp : ℤ

-- The generated calls on a client, and JSON.
pub record AuthCalls (Store User State : Type 0) : Type 0 where
  pub login : Client Store → Text → State → Sent × State
  pub signup : Client Store → Text → State → Sent × State
  pub get_current_user : Client Store → State → Sent × State
  pub marshal_credentials : String → String → Option Text
  pub marshal_register : RegisterPayload → Option Text
  pub unmarshal_login : Text → Option (LoginEnvelope User)
  pub unmarshal_user : Text → Option (Option User)

abbrev pub bearer_pair : String → TokenPair
bearer_pair token = record {
  access_token = token;
  refresh_token = "";
  token_type = "Bearer";
  expires_in = pos 0;
}

module _ {Raw Store User : Type 0} (L : ErrorLibrary Raw) (is_valid : String → String → Bool)
    (T : ApiTransport) (A : AuthCalls Store User T.State) where
  abbrev pub no_login : LoginEnvelope User
  no_login = record { user = none; token = "" }

  -- The end of `Login` and `Register`: the token is kept by the client.
  unfoldable pub keep_token :
      Client Store → ApiResult Raw (LoginEnvelope User) → ApiResult Raw TokenPair × Client Store
  keep_token c (failed e) = (failed e, c)
  keep_token c (answered env) =
      if env.token == ""
      then (failed missing_token, c)
      else (answered (bearer_pair env.token), use_token env.token c)

  unfoldable pub login :
      String → String → Client Store → T.State → ApiResult Raw TokenPair × Client Store × T.State
  unfolding keep_token use_token
  login email password c st = elim (A.marshal_credentials email password) [
    | none ↦ (failed marshal_failed, c, st)
    | some raw ↦
        let (sent, st') = A.login c raw st in
        let (r, c') = keep_token c (gen_decode L no_login A.unmarshal_login sent) in (r, c', st')
  ]

  unfoldable pub register :
      RegisterPayload → Client Store → T.State → ApiResult Raw TokenPair × Client Store × T.State
  unfolding keep_token use_token
  register fields c st =
      if fields.email == "" || fields.password == ""
      then (failed invalid_config, c, st)
      else elim (A.marshal_register fields) [
        | none ↦ (failed marshal_failed, c, st)
        | some raw ↦
            let (sent, st') = A.signup c raw st in
            let (r, c') = keep_token c (gen_decode L no_login A.unmarshal_login sent) in
            (r, c', st')
      ]

  -- The decoded envelope has a user, or it is an error.
  unfoldable pub user_of : ApiResult Raw (Option User) → ApiResult Raw User
  user_of (failed e) = failed e
  user_of (answered none) = failed missing_user
  user_of (answered (some u)) = answered u

  unfoldable pub me : Client Store → T.State → ApiResult Raw User × T.State
  unfolding user_of
  me c st =
      let (sent, st') = A.get_current_user c st in
      (user_of (gen_decode L none A.unmarshal_user sent), st')

  unfoldable pub refresh : String → ApiResult Raw TokenPair
  refresh refresh_token = failed not_implemented

  abbrev pub ignored : Text → Option {0} Unit
  ignored t = some tt

  -- `Logout` returns nil; its error is dropped.
  unfoldable pub logout : Client Store → T.State → Client Store × T.State
  unfolding use_token
  logout c st =
      let c' = use_token "" c in
      let (r, st') = do_request L is_valid T c' "POST" "/auth/logout" no_payload tt ignored st in
      (c', st')

-- `strings.Split(token, ".")`
unfoldable pub split_dots : Text → List Text
split_dots [] = [] ∷ []
split_dots (x ∷ xs) = let rest = split_dots xs in if nat_eq x 0x2e then [] ∷ rest else front x rest
  where
    front : ℕ → List Text → List Text
    front x [] = (x ∷ []) ∷ []
    front x (t ∷ ts) = (x ∷ t) ∷ ts

-- `base64.RawURLEncoding`, `base64.StdEncoding` and JSON.
pub record TokenLibrary : Type 0 where
  pub raw_url : Text → Option Text
  pub std : Text → Option Text
  pub unmarshal_claims : Text → Option JwtClaims

pub data TokenError : Type 0 where
  malformed_token bad_payload bad_claims : TokenError

pub data Parsed : Type 0 where
  claims : JwtClaims → Parsed
  unparsed : TokenError → Parsed

module _ (L : TokenLibrary) where
  abbrev pub either_of : Option Text → Option Text → Option Text
  either_of none other = other
  either_of (some t) other = some t

  unfoldable pub parse_parts : List Text → Parsed
  parse_parts (header ∷ middle ∷ signature ∷ []) =
      elim (either_of (L.raw_url middle) (L.std middle)) [
        | none ↦ unparsed bad_payload
        | some bytes ↦ elim (L.unmarshal_claims bytes) [
          | none ↦ unparsed bad_claims
          | some j ↦ claims j
        ]
      ]
  parse_parts _ = unparsed malformed_token

  unfoldable pub parse_jwt : Text → Parsed
  unfolding split_dots parse_parts
  parse_jwt token = parse_parts (split_dots token)

-- The clock in seconds. `none` is a nil receiver.
unfoldable pub is_expired : ℤ → Option JwtClaims → Bool
is_expired now none = true
is_expired now (some j) = if is_zero j.exp then true else ltb_ℤ j.exp now
  where
    is_zero : ℤ → Bool
    is_zero (pos n) = nat_eq n 0
    is_zero _ = false
