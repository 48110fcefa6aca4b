-- ===== src/Api/Auth/Tokens.antt =====
-- auth.go: the token that a client keeps, and the tokens that can be parsed.
use korai_sdk_go.Prelude.{
  ℕ, suc, String, ◌≡◌, ◌≢◌, refl, ap, ◌∙◌, ◌↔◌, ◌⊎◌, inl, inr, Bool, none, List, [], ◌∷◌, length,
  nat_eq, ◌==◌, ◌||◌, eq_iff, arith, Bool-cases, Option-cases, if◌then◌else◌,
}
use korai_sdk_go.Prelude.Dict.{lookup}
use korai_sdk_go.Stream.{Text}
use korai_sdk_go.Api.Errors.{ErrorLibrary, SdkError}
use korai_sdk_go.Api.Options.{Client, use_token}
use korai_sdk_go.Api.Exchange.{
  ApiRequest, ApiTransport, no_payload, ApiResult, answered, failed, gen_decode, build_request,
}
use korai_sdk_go.Api.Exchange.Stamped.{build_request-IsStamped}
use korai_sdk_go.Api.Auth.{
  TokenPair, RegisterPayload, LoginEnvelope, AuthCalls, keep_token, login, register, logout,
  split_dots, TokenLibrary, malformed_token, unparsed, parse_parts, parse_jwt, no_login,
}

module _ {Raw Store User : Type 0} (L : ErrorLibrary Raw) (is_valid : String → String → Bool)
    (T : ApiTransport) (A : AuthCalls Store User T.State) where
  -- A token that is not empty is returned and kept, or there is an error and nothing changes.
  abbrev pub Kept : Client Store → ApiResult Raw TokenPair → Client Store → Type 0
  Kept c r c' =
      ((p : TokenPair) × (r ≡ answered p)
        × (p.access_token ≢ "")
        × (c' ≡ use_token p.access_token c))
      ⊎ ((e : SdkError Raw) × (r ≡ failed e) × (c' ≡ c))

  keep_token-Kept :
      (c : Client Store) (r : ApiResult Raw (LoginEnvelope User))
      → Kept c (keep_token L is_valid T A c r).0 (keep_token L is_valid T A c r).1
  unfolding keep_token
  keep_token-Kept c (failed e) = inr (e, refl, refl)
  keep_token-Kept c (answered env) = elim (Bool-cases (env.token == "")) [
    | inl e ↦ rw (e, keep_token) (inr (_, refl, refl))
    | inr e ↦ rw (e, keep_token) (inl (_, refl, ground (arith, e, eq_iff env.token ""), refl))
  ]

  -- A login returns a token that is not empty and keeps just this token in the client, or it
  -- fails and leaves the client as it was.
  pub login-Kept :
      (email password : String) (c : Client Store) (st : T.State)
      → Kept c
          (login L is_valid T A email password c st).0
          (login L is_valid T A email password c st).1
  unfolding login
  login-Kept email password c st = elim (Option-cases (A.marshal_credentials email password)) [
    | inl e ↦ rw (e, login) (inr (_, refl, refl))
    | inr (raw, e) ↦
        rw (e, login)
          (keep_token-Kept c
            (gen_decode L (no_login L is_valid T A) A.unmarshal_login (A.login c raw st).0))
  ]

  -- The same of a registration.
  pub register-Kept :
      (fields : RegisterPayload) (c : Client Store) (st : T.State)
      → Kept c (register L is_valid T A fields c st).0 (register L is_valid T A fields c st).1
  unfolding register
  register-Kept fields c st = elim (Bool-cases (fields.email == "" || fields.password == "")) [
    | inl e ↦ rw (e, register) (inr (_, refl, refl))
    | inr e ↦ elim (Option-cases (A.marshal_register fields)) [
      | inl f ↦ rw (e, f, register) (inr (_, refl, refl))
      | inr (raw, f) ↦
          rw (e, f, register)
            (keep_token-Kept c
              (gen_decode L (no_login L is_valid T A) A.unmarshal_login (A.signup c raw st).0))
    ]
  ]

  -- After a logout the client has no token, and a request for `/auth/logout` that it builds, which
  -- is what it sends, carries none either.
  pub logout-unauthenticated :
      (c : Client Store) (st : T.State) (req : ApiRequest)
      → build_request is_valid
          (logout L is_valid T A c st).0
          {Raw = Raw}
          "POST"
          "/auth/logout"
          no_payload
        ≡ answered req
      → ((logout L is_valid T A c st).0.api_key ≡ "") × (lookup "Authorization" req.headers ≡ none)
  unfolding logout use_token
  logout-unauthenticated c st req h = (
    refl,
    (build_request-IsStamped is_valid (use_token "" c) "POST" "/auth/logout" no_payload req
        h).bearer,
  )

-- The number of dots of a text.
unfoldable pub count_dots : Text → ℕ
count_dots [] = 0
count_dots (x ∷ xs) = let rest = count_dots xs in if nat_eq x 0x2e then suc rest else rest

length-split_dots : (t : Text) → length (split_dots t) ≡ suc (count_dots t)
unfolding split_dots count_dots
length-split_dots [] = refl
length-split_dots (x ∷ xs) = ground (arith, length-split_dots xs)

parse_parts_malformed_iff :
    (L : TokenLibrary) (parts : List Text)
    → (parse_parts L parts ≡ unparsed malformed_token) ↔ (length parts ≢ 3)
unfolding parse_parts
parse_parts_malformed_iff L [] = (λ h. omega arith, λ n. refl)
parse_parts_malformed_iff L (a ∷ []) = (λ h. omega arith, λ n. refl)
parse_parts_malformed_iff L (a ∷ b ∷ []) = (λ h. omega arith, λ n. refl)
parse_parts_malformed_iff L (a ∷ b ∷ c ∷ []) =
    (λ h. absurd (ground (arith, h)), λ n. absurd (n refl))
parse_parts_malformed_iff L (a ∷ b ∷ c ∷ d ∷ rest) = (λ h. omega arith, λ n. refl)

-- A token is malformed exactly if it does not have two dots.
pub parse_jwt_malformed_iff :
    (L : TokenLibrary) (token : Text)
    → (parse_jwt L token ≡ unparsed malformed_token) ↔ (count_dots token ≢ 2)
unfolding parse_jwt
parse_jwt_malformed_iff L token =
    let (a, b) = parse_parts_malformed_iff L (split_dots token) in
    let n = length-split_dots token in
    (λ h k. a h (n ∙ ap suc k), λ h. b (λ k. h (omega (arith, n, k))))
