-- ===== src/Synchub/Client.antt =====
-- session/synchub/client.go: the HTTP client of the hub. Sending a request is an operation over a
-- state of the transport, `none` where no response comes back.
pub mod Signed
pub mod Answers
pub mod Oversized
use korai_sdk_go.Prelude.{
  ℕ, ◌^◌, String, Bool, true, false, Option, none, some, [], ◌∷◌, not, ◌||◌, length, take, ltb, leb,
  nat_eq, ◌<>◌, trim_right_slashes, if◌then◌else◌,
}
use korai_sdk_go.Prelude.Dict.{Dict, insert}
use korai_sdk_go.Prelude.Int.{ℤ}
use korai_sdk_go.Session.Signing.{sync_canonical_payload}
use korai_sdk_go.Synchub.{Bytes, Manifest, Hub}
use korai_sdk_go.Synchub.Nuke.{nuke_payload}

pub record HubRequest : Type 0 where
  pub method : String
  pub url : String
  pub headers : Dict String
  pub body : Option Bytes

-- The bytes of a body, and whether reading past them fails.
pub record HubBody : Type 0 where
  pub content : Bytes
  pub broken : Bool

pub record HubResponse : Type 0 where
  pub status_code : ℕ
  pub body : HubBody

pub record Transport : Type 1 where
  pub State : Type 0
  pub send : State → HubRequest → Option HubResponse × State

pub record PutBlockRequest : Type 0 where
  pub item_id : String
  pub block_hash : String
  pub ciphertext : String

-- JSON, base64, `net/url`, the signatures of package `session`, and whether `net/http` accepts a
-- method and a URL.
pub record HttpLibrary : Type 0 where
  pub marshal_put : PutBlockRequest → Option Bytes
  pub marshal_tombstone : String → Option Bytes
  pub decode_seq : HubBody → Option ℤ
  pub decode_manifest : HubBody → Option Manifest
  pub base64_encode : Bytes → String
  pub encode_query : Dict String → String
  pub path_escape : String → String
  pub format_int : ℤ → String
  pub format_nat : ℕ → String
  pub derive_write_public_key : Bytes → String
  pub sign_sync_request : Bytes → Bytes → String
  pub is_valid : String → String → Bool

pub record Client : Type 0 where
  pub base : String
  pub sync_id : String
  pub key : Bytes

unfoldable pub new_client : String → String → Bytes → Client
new_client base_url sync_id key = record {
  base = trim_right_slashes base_url <> "/v1/sync";
  sync_id = sync_id;
  key = key;
}

-- The errors, less their texts.
pub data ClientError : Type 0 where
  encoding_failed building_failed sending_failed reading_failed decoding_failed : ClientError
  hub_returned : ℕ → ClientError

pub data Answer (A : Type 0) : Type 0 where
  got : A → Answer A
  error : ClientError → Answer A

-- 32 MiB.
unfoldable pub max_block_bytes : ℕ
max_block_bytes = 2 ^ 25

-- `io.ReadAll(io.LimitReader(body, limit))`
unfoldable pub read_limited : ℕ → HubBody → Option Bytes
read_limited limit b =
    if leb limit (length b.content)
    then some (take limit b.content)
    else if b.broken
    then none
    else some b.content

-- `req.Header.Set` for each entry.
unfoldable pub set_headers : Dict String → Dict String → Dict String
set_headers [] h = h
set_headers ((k, v) ∷ extra) h = set_headers extra (insert k v h)

module _ (L : HttpLibrary) (T : Transport) (c : Client) where
  unfoldable pub sig_headers : Bytes → Dict String
  sig_headers payload =
      if nat_eq (length c.key) 0
      then []
      else ("X-Korai-Sync-Pubkey", L.derive_write_public_key c.key)
        ∷ ("X-Korai-Sync-Sig", L.sign_sync_request c.key payload)
        ∷ []

  unfoldable pub new_request : String → String → Option Bytes → Option HubRequest
  new_request method url body =
      if not (L.is_valid method url)
      then none
      else some (record {
        method = method;
        url = url;
        headers = ("Authorization", "Bearer " <> c.sync_id) ∷ [];
        body = body;
      })

  content_type : Option Bytes → Dict String → Dict String
  content_type none h = h
  content_type (some b) h = insert "Content-Type" "application/json" h

  -- The request that `do` sends.
  unfoldable pub json_request : String → String → Option Bytes → Dict String → Option HubRequest
  unfolding new_request content_type set_headers
  json_request method url body extra = elim (new_request method url body) [
    | none ↦ none
    | some req ↦ some (record req { headers = set_headers extra (content_type body req.headers) })
  ]

  -- What `do` makes of the response.
  unfoldable pub json_answer : {A : Type 0} → (HubBody → Option A) → HubResponse → Answer A
  json_answer decode resp =
      if ltb resp.status_code 200 || leb 300 resp.status_code
      then error (hub_returned resp.status_code)
      else elim (decode resp.body) [ none ↦ error decoding_failed | some a ↦ got a ]

  -- `do`. Where it discards the response, `decode` accepts every body.
  unfoldable pub do_json :
      {A : Type 0}
      → String
      → String
      → Option Bytes
      → (HubBody → Option A)
      → Dict String
      → T.State
      → Answer A × T.State
  unfolding json_request json_answer
  do_json method url body decode extra st = elim (json_request method url body extra) [
    | none ↦ (error building_failed, st)
    | some req ↦
        let (resp, st') = T.send st req in
        elim resp [ none ↦ (error sending_failed, st') | some r ↦ (json_answer decode r, st') ]
  ]

  unfoldable pub put_block : T.State → String → String → Bytes → Answer ℤ × T.State
  unfolding do_json sig_headers
  put_block st item_id block_hash ciphertext =
      let fields : PutBlockRequest = record {
        item_id = item_id;
        block_hash = block_hash;
        ciphertext = L.base64_encode ciphertext;
      } in
      elim (L.marshal_put fields) [
        | none ↦ (error encoding_failed, st)
        | some body ↦
            do_json "PUT" (c.base <> "/blocks") (some body) L.decode_seq
              (sig_headers (sync_canonical_payload "PUT" c.sync_id item_id block_hash)) st
      ]

  unfoldable pub manifest : T.State → ℤ → ℕ → Answer Manifest × T.State
  unfolding do_json
  manifest st since limit =
      let q = insert "since" (L.format_int since) [] in
      let q' = if ltb 0 limit then insert "limit" (L.format_nat limit) q else q in
      do_json "GET" (c.base <> ("/manifest?" <> L.encode_query q')) none L.decode_manifest [] st

  unfoldable pub block_answer : HubResponse → Answer Bytes
  block_answer resp =
      if not (nat_eq resp.status_code 200)
      then error (hub_returned resp.status_code)
      else elim (read_limited max_block_bytes resp.body) [
        | none ↦ error reading_failed
        | some data' ↦ got data'
      ]

  unfoldable pub get_block : T.State → String → Answer Bytes × T.State
  unfolding new_request block_answer read_limited
  get_block st hash = elim (new_request "GET" (c.base <> ("/blocks/" <> L.path_escape hash)) none) [
    | none ↦ (error building_failed, st)
    | some req ↦
        let (resp, st') = T.send st req in
        elim resp [ none ↦ (error sending_failed, st') | some r ↦ (block_answer r, st') ]
  ]

  abbrev pub discarded : HubBody → Option {0} Unit
  discarded b = some tt

  unfoldable pub wipe_remote : T.State → Answer Unit × T.State
  unfolding do_json sig_headers
  wipe_remote st =
      do_json "DELETE" c.base none discarded
        (sig_headers (sync_canonical_payload "DELETE" c.sync_id "" "")) st

  unfoldable pub post_nuke : T.State → Answer Unit × T.State
  unfolding do_json sig_headers
  post_nuke st =
      do_json "POST" (c.base <> "/nuke") none discarded (sig_headers (nuke_payload c.sync_id)) st

  unfoldable pub tombstone : T.State → String → Answer ℤ × T.State
  unfolding do_json sig_headers
  tombstone st item_id = elim (L.marshal_tombstone item_id) [
    | none ↦ (error encoding_failed, st)
    | some body ↦
        do_json "POST" (c.base <> "/tombstone") (some body) L.decode_seq
          (sig_headers (sync_canonical_payload "TOMBSTONE" c.sync_id item_id "")) st
  ]

abbrev pub is_got : {A : Type 0} → Answer A → Bool
is_got (got a) = true
is_got (error e) = false

abbrev pub to_option : {A : Type 0} → Answer A → Option A
to_option (got a) = some a
to_option (error e) = none

-- The client as the hub of a sync.
abbrev pub client_hub : HttpLibrary → Transport → Client → Hub
client_hub L T c = record {
  State = T.State;
  put_block = λ st item_id block_hash ciphertext.
      let (a, st') = put_block L T c st item_id block_hash ciphertext in (is_got a, st');
  tombstone = λ st item_id. let (a, st') = tombstone L T c st item_id in (is_got a, st');
  get_block = λ st hash. let (a, st') = get_block L T c st hash in (to_option a, st');
  manifest = λ st since limit. let (a, st') = manifest L T c st since limit in (to_option a, st');
}
