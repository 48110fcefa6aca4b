-- ===== src/Api/Options/Owned.antt =====
-- client.go: the `*http.Client` of a client, and of the copies that `WithOptions` makes.
use korai_sdk_go.Prelude.{
  String, ◌≡◌, refl, ap, ◌∙◌, Bool, true, false, Option, none, some, List, [], ◌∷◌, not, arith,
}
use korai_sdk_go.Api.Options.{
  HttpClient, made, Client, ClientOption, with_http_client, ApiEnvironment, apply_option,
  apply_options, wrapped, finalize, seeded, detached, new_client, with_options,
}

abbrev later_given :
    Option (Option HttpClient) → Option (Option HttpClient) → Option (Option HttpClient)
later_given none g = g
later_given (some h) g = some h

abbrev or_given : Option (Option HttpClient) → Option HttpClient → Option HttpClient
or_given none h = h
or_given (some h) h' = h

abbrev or_supplied : Option (Option HttpClient) → Bool → Bool
or_supplied none b = b
or_supplied (some h) b = true

or_given-later :
    (a b : Option (Option HttpClient)) (h : Option HttpClient)
    → or_given a (or_given b h) ≡ or_given (later_given a b) h
or_given-later none b h = refl
or_given-later (some a) b h = refl

or_supplied-later :
    (a b : Option (Option HttpClient)) (x : Bool)
    → or_supplied a (or_supplied b x) ≡ or_supplied (later_given a b) x
or_supplied-later none b x = refl
or_supplied-later (some a) b x = refl

module _ {Store : Type 0} where
  -- Without a client from the caller there is none yet.
  abbrev pub IsDetached : Client Store → Type 0
  IsDetached c = c.supplied_http_client ≡ false → c.http_client ≡ none

  apply_option-IsDetached :
      (o : ClientOption Store) (c : Client Store) → IsDetached c → IsDetached (apply_option o c)
  unfolding apply_option
  apply_option-IsDetached (with_http_client h) c d = λ q. absurd (ground (arith, q))
  apply_option-IsDetached _ c d = d

  apply_options-IsDetached :
      (os : List (ClientOption Store)) (c : Client Store)
      → IsDetached c
      → IsDetached (apply_options os c)
  unfolding apply_options
  apply_options-IsDetached [] c d = d
  apply_options-IsDetached (o ∷ os) c d =
      apply_options-IsDetached os (apply_option o c) (apply_option-IsDetached o c d)

  -- The client that the SDK makes from the timeout and the retries of its fields.
  abbrev pub own_http : Client Store → HttpClient
  own_http c = wrapped true c.max_retries (made c.timeout)

  module _ (accepts : String → Bool) where
    http_client-finalize :
        (c : Client Store)
        → IsDetached c
        → c.supplied_http_client ≡ false
        → (finalize accepts (not c.supplied_http_client) c).http_client ≡ some (own_http c)
    unfolding finalize
    http_client-finalize c d s = rw (d s, finalize) refl

    -- A copy whose client is not the caller's has an `*http.Client` made from its own timeout and
    -- retries, whatever the receiver had.
    pub with_options-fresh :
        (os : List (ClientOption Store)) (c : Client Store)
        → (with_options accepts os c).supplied_http_client ≡ false
        → (with_options accepts os c).http_client ≡ some (own_http (with_options accepts os c))
    unfolding with_options finalize
    with_options-fresh os c s =
        http_client-finalize (apply_options os (detached c))
          (apply_options-IsDetached os (detached c) (λ q. rw q refl)) s

  -- The client that an option gives, nil included.
  abbrev pub given : ClientOption Store → Option (Option HttpClient)
  given (with_http_client h) = some h
  given _ = none

  -- The last client that an option gives.
  abbrev pub given_last : List (ClientOption Store) → Option (Option HttpClient)
  given_last [] = none
  given_last (o ∷ os) = later_given (given_last os) (given o)

  -- What the client holds after an option, or several.
  abbrev After : Option (Option HttpClient) → Client Store → Client Store → Type 0
  After g c c' =
      (c'.http_client ≡ or_given g c.http_client)
      × (c'.supplied_http_client ≡ or_supplied g c.supplied_http_client)

  apply_option-After :
      (o : ClientOption Store) (c : Client Store) → After (given o) c (apply_option o c)
  unfolding apply_option
  apply_option-After (with_http_client h) c = (refl, refl)
  apply_option-After _ c = (refl, refl)

  apply_options-After :
      (os : List (ClientOption Store)) (c : Client Store)
      → After (given_last os) c (apply_options os c)
  unfolding apply_options
  apply_options-After [] c = (refl, refl)
  apply_options-After (o ∷ os) c =
      let (h, s) = apply_options-After os (apply_option o c) in
      let (h', s') = apply_option-After o c in
      (
        h
            ∙ ap (or_given (given_last os)) h'
            ∙ or_given-later (given_last os) (given o) c.http_client,
        s
            ∙ ap (or_supplied (given_last os)) s'
            ∙ or_supplied-later (given_last os) (given o) c.supplied_http_client,
      )

  module _ (accepts : String → Bool) where
    finalize-given :
        (c : Client Store) (h : HttpClient)
        → c.http_client ≡ some h
        → c.supplied_http_client ≡ true
        → (finalize accepts (not c.supplied_http_client) c).http_client ≡ some h
    unfolding finalize
    finalize-given c h q s = rw (q, s, finalize) refl

    -- A client that the caller gives to `New`, in the last option that gives one, is the one that
    -- the new client uses, as it is.
    pub new_client-given :
        (in_memory : Store) (env : ApiEnvironment) (os : List (ClientOption Store)) (h : HttpClient)
        → given_last os ≡ some (some h)
        → (new_client accepts in_memory env os).http_client ≡ some h
    unfolding new_client seeded
    new_client-given in_memory env os h g =
        let (q, s) = apply_options-After os (seeded env) in
        finalize-given (apply_options os (seeded env)) h (rw g at q) (rw g at s)

    -- A client that counts as the caller's stays in every copy whose options give no other, as it
    -- is, whatever they say of the timeout and the retries.
    pub with_options-kept :
        (os : List (ClientOption Store)) (c : Client Store) (h : HttpClient)
        → c.supplied_http_client ≡ true
        → c.http_client ≡ some h
        → given_last os ≡ none
        → (with_options accepts os c).http_client ≡ some h
    unfolding with_options
    with_options-kept os c h s q g =
        let (q', s') = apply_options-After os (detached c) in
        finalize-given (apply_options os (detached c)) h (q' ∙ rw (g, s) q) (s' ∙ rw g s)
