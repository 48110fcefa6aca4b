-- ===== src/Api/Options/Precedence.antt =====
-- client.go: where the credentials and the server of a new client come from.
use korai_sdk_go.Prelude.{
  String, ◌≡◌, refl, ap, sym, ◌∙◌, Bool, Option, none, some, List, [], ◌∷◌, ◌==◌,
  trim_right_slashes, if◌then◌else◌,
}
use korai_sdk_go.Api.Options.{
  Client, ClientOption, with_api_key, with_base_url, with_local_worker, ApiEnvironment,
  default_base_url, apply_option, apply_options, finalize, seeded, new_client,
}

abbrev pub or_else : Option String → String → String
or_else none other = other
or_else (some s) other = s

abbrev pub later_of : Option String → Option String → Option String
later_of none earlier = earlier
later_of (some s) earlier = some s

or_else-later_of :
    (a b : Option String) (s : String) → or_else (later_of a b) s ≡ or_else a (or_else b s)
or_else-later_of none b s = refl
or_else-later_of (some t) b s = refl

module _ {Store : Type 0} where
  -- The server that an option names, and the key that it sets.
  abbrev pub server_of : ClientOption Store → Option String
  server_of (with_base_url u) = some (trim_right_slashes u)
  server_of (with_local_worker u) = some (trim_right_slashes u)
  server_of _ = none

  abbrev pub key_of : ClientOption Store → Option String
  key_of (with_api_key k) = some k
  key_of (with_local_worker u) = some ""
  key_of _ = none

  -- What the last option says that says anything.
  abbrev pub last_of :
      (ClientOption Store → Option String) → List (ClientOption Store) → Option String
  last_of f [] = none
  last_of f (o ∷ os) = later_of (last_of f os) (f o)

  base_url-apply_option :
      (o : ClientOption Store) (c : Client Store)
      → (apply_option o c).base_url ≡ or_else (server_of o) c.base_url
  unfolding apply_option
  base_url-apply_option (with_base_url u) c = refl
  base_url-apply_option (with_local_worker u) c = refl
  base_url-apply_option _ c = refl

  api_key-apply_option :
      (o : ClientOption Store) (c : Client Store)
      → (apply_option o c).api_key ≡ or_else (key_of o) c.api_key
  unfolding apply_option
  api_key-apply_option (with_api_key k) c = refl
  api_key-apply_option (with_local_worker u) c = refl
  api_key-apply_option _ c = refl

  apply_options-lem :
      (os : List (ClientOption Store)) (c : Client Store)
      → ((apply_options os c).base_url ≡ or_else (last_of server_of os) c.base_url)
        × ((apply_options os c).api_key ≡ or_else (last_of key_of os) c.api_key)
  unfolding apply_options
  apply_options-lem [] c = (refl, refl)
  apply_options-lem (o ∷ os) c =
      let (u, k) = apply_options-lem os (apply_option o c) in
      (
        u
            ∙ ap (or_else (last_of server_of os)) (base_url-apply_option o c)
            ∙ sym (or_else-later_of (last_of server_of os) (server_of o) c.base_url),
        k
            ∙ ap (or_else (last_of key_of os)) (api_key-apply_option o c)
            ∙ sym (or_else-later_of (last_of key_of os) (key_of o) c.api_key),
      )

  -- The server of a new client is that of the last option that names one, else that of the
  -- environment, else the default one, without slashes at its end; its key is that of the last
  -- option that sets or clears it, else that of the environment.
  pub new_client_lem :
      (accepts : String → Bool) (in_memory : Store) (env : ApiEnvironment)
      (os : List (ClientOption Store))
      → ((new_client accepts in_memory env os).base_url
          ≡ or_else
              (last_of server_of os)
              (if env.base_url == "" then default_base_url else trim_right_slashes env.base_url))
        × ((new_client accepts in_memory env os).api_key ≡ or_else (last_of key_of os) env.api_key)
  unfolding new_client finalize seeded
  new_client_lem accepts in_memory env os = apply_options-lem os (seeded env)
