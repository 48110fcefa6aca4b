-- ===== src/Api/Options.antt =====
-- client.go: the fields of a `Client`, its options, `New` and `WithOptions`.
-- An audit store is a value of an abstract type. The registry of tools, which no option changes, is
-- left out.
pub mod Precedence
pub mod Owned
use korai_sdk_go.Prelude.{
  ◌*◌, String, Bool, true, false, Option, none, some, List, [], ◌∷◌, not, ◌&&◌, ◌==◌,
  trim_right_slashes, if◌then◌else◌,
}
use korai_sdk_go.Prelude.Int.{ℤ, pos, ltb_ℤ}
use korai_sdk_go.Retry.{second}
use korai_sdk_go.Prelude.Dict.{Dict, insert}

-- An `*http.Client`: the caller's, by a name, or one that the SDK has made. `retries` is the limit
-- of the retrying transport around it, if there is one.
pub record HttpClient : Type 0 where
  pub owner : Option String
  pub timeout : ℤ
  pub retries : Option ℤ

abbrev pub made : ℤ → HttpClient
made timeout = record { owner = none; timeout = timeout; retries = none }

-- `gen` is the generated client: its server and its `*http.Client`, `none` for nil.
pub record Client (Store : Type 0) : Type 0 where
  pub api_key : String
  pub base_url : String
  pub organization_id : String
  pub user_agent : String
  pub http_client : Option HttpClient
  pub timeout : ℤ
  pub max_retries : ℤ
  pub supplied_http_client : Bool
  pub gen : Option (String × HttpClient)
  pub audit : Option Store

pub data ClientOption (Store : Type 0) : Type 0 where
  with_api_key with_base_url with_local_worker : String → ClientOption Store
  with_organization_id with_user_agent : String → ClientOption Store
  with_http_client : Option HttpClient → ClientOption Store
  with_timeout with_max_retries : ℤ → ClientOption Store
  with_audit_store : Store → ClientOption Store

abbrev pub default_base_url : String
default_base_url = "https://cloud.korai.one"

abbrev pub default_timeout : ℤ
default_timeout = pos (60 * second)

-- KORAI_API_KEY and KORAI_BASE_URL, "" if they are not set.
pub record ApiEnvironment : Type 0 where
  pub api_key : String
  pub base_url : String

-- Setting the transport of a client.
abbrev pub wrapped : Bool → ℤ → HttpClient → HttpClient
wrapped owns max_retries h =
    if owns && ltb_ℤ (pos 0) max_retries then record h { retries = some max_retries } else h

module _ {Store : Type 0} where
  unfoldable pub apply_option : ClientOption Store → Client Store → Client Store
  apply_option (with_api_key k) c = record c { api_key = k }
  apply_option (with_base_url u) c = record c { base_url = trim_right_slashes u }
  apply_option (with_local_worker u) c = record c { base_url = trim_right_slashes u; api_key = "" }
  apply_option (with_organization_id id) c = record c { organization_id = id }
  apply_option (with_user_agent ua) c = record c { user_agent = ua }
  apply_option (with_http_client h) c = record c { http_client = h; supplied_http_client = true }
  apply_option (with_timeout d) c = record c { timeout = d }
  apply_option (with_max_retries n) c = record c { max_retries = n }
  apply_option (with_audit_store s) c = record c { audit = some s }

  unfoldable pub apply_options : List (ClientOption Store) → Client Store → Client Store
  unfolding apply_option
  apply_options [] c = c
  apply_options (o ∷ os) c = apply_options os (apply_option o c)

  abbrev pub finalized_http : Bool → Client Store → Option HttpClient → HttpClient
  finalized_http owns c none = wrapped true c.max_retries (made c.timeout)
  finalized_http owns c (some h) = wrapped owns c.max_retries h

  unfoldable pub seeded : ApiEnvironment → Client Store
  seeded env = record {
    api_key = env.api_key;
    base_url = if env.base_url == "" then default_base_url else trim_right_slashes env.base_url;
    organization_id = "";
    user_agent = "korai-sdk-go/0.2.0";
    http_client = none;
    timeout = default_timeout;
    max_retries = pos 2;
    supplied_http_client = false;
    gen = none;
    audit = none;
  }

  abbrev pub audit_or : Store → Option Store → Option Store
  audit_or fallback none = some fallback
  audit_or fallback (some s) = some s

  -- The copy before the options.
  abbrev pub detached : Client Store → Client Store
  detached c = record c { http_client = if not c.supplied_http_client then none else c.http_client }

  -- `koraiapi.NewClient` accepts a server, or fails.
  module _ (accepts : String → Bool) where
    unfoldable pub finalize : Bool → Client Store → Client Store
    finalize owns c =
        let h = finalized_http owns c c.http_client in
        record c {
          http_client = some h;
          gen = if accepts c.base_url then some (c.base_url, h) else c.gen;
        }

    -- `New`, with the in-memory store that it makes if no option gives one.
    unfoldable pub new_client : Store → ApiEnvironment → List (ClientOption Store) → Client Store
    unfolding apply_options finalize seeded
    new_client in_memory env opts =
        let c = apply_options opts (seeded env) in
        let c' = finalize (not c.supplied_http_client) c in
        record c' { audit = audit_or in_memory c'.audit }

    unfoldable pub with_options : List (ClientOption Store) → Client Store → Client Store
    unfolding apply_options finalize
    with_options opts c =
        let clone = apply_options opts (detached c) in
        finalize (not clone.supplied_http_client) clone

  unfoldable pub use_token : String → Client Store → Client Store
  use_token token c = record c { api_key = token }

  unfoldable pub set_organization_id : String → Client Store → Client Store
  set_organization_id id c = record c { organization_id = id }
