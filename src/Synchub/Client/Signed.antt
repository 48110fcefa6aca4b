-- ===== src/Synchub/Client/Signed.antt =====
-- session/synchub/client.go: the headers of every request that the client sends.
use korai_sdk_go.Prelude.{
  ℕ, String, ◌≡◌, refl, ◌⊎◌, inl, inr, Option, none, some, List, [], ◌∷◌, ◌<>◌, arith, Option-cases,
}
use korai_sdk_go.Prelude.Dict.{Dict, insert, lookup}
use korai_sdk_go.Prelude.Int.{ℤ}
use korai_sdk_go.Session.Signing.{sync_canonical_payload}
use korai_sdk_go.Synchub.{Bytes}
use korai_sdk_go.Synchub.Nuke.{nuke_payload}
use korai_sdk_go.Synchub.Client.{
  HubRequest, HubBody, Transport, HttpLibrary, PutBlockRequest, Client, set_headers, sig_headers,
  new_request, json_request, do_json, put_block, manifest, get_block, discarded, wipe_remote,
  post_nuke, tombstone,
}

-- The calls of the client.
pub data Call : Type 0 where
  put_call : String → String → Bytes → Call
  tombstone_call : String → Call
  wipe_call nuke_call : Call
  get_call : String → Call
  manifest_call : ℤ → ℕ → Call

-- A transport that also keeps the requests it is given, the newest first.
abbrev pub recorded : Transport → Transport
recorded T = record {
  State = T.State × List HubRequest;
  send = λ st req. let (resp, st') = T.send st.0 req in (resp, (st', req ∷ st.1));
}

module _ (L : HttpLibrary) (T : Transport) (c : Client) where
  unfoldable pub run_call : Call → (recorded T).State → (recorded T).State
  run_call (put_call item_id hash blob) st = (put_block L (recorded T) c st item_id hash blob).1
  run_call (tombstone_call item_id) st = (tombstone L (recorded T) c st item_id).1
  run_call wipe_call st = (wipe_remote L (recorded T) c st).1
  run_call nuke_call st = (post_nuke L (recorded T) c st).1
  run_call (get_call hash) st = (get_block L (recorded T) c st hash).1
  run_call (manifest_call since limit) st = (manifest L (recorded T) c st since limit).1

  -- What a call has to sign, if it changes the hub.
  unfoldable pub payload_of : Call → Option Bytes
  payload_of (put_call item_id hash blob) =
      some (sync_canonical_payload "PUT" c.sync_id item_id hash)
  payload_of (tombstone_call item_id) =
      some (sync_canonical_payload "TOMBSTONE" c.sync_id item_id "")
  payload_of wipe_call = some (sync_canonical_payload "DELETE" c.sync_id "" "")
  payload_of nuke_call = some (nuke_payload c.sync_id)
  payload_of (get_call hash) = none
  payload_of (manifest_call since limit) = none

  -- The two headers of a signature over the payload, absent without a key or a payload.
  abbrev pub expected_sig : Bytes → Option Bytes → Option String
  expected_sig [] payload = none
  expected_sig (b ∷ bs) none = none
  expected_sig (b ∷ bs) (some payload) = some (L.sign_sync_request (b ∷ bs) payload)

  abbrev pub expected_pubkey : Bytes → Option Bytes → Option String
  expected_pubkey [] payload = none
  expected_pubkey (b ∷ bs) none = none
  expected_pubkey (b ∷ bs) (some payload) = some (L.derive_write_public_key (b ∷ bs))

  pub record IsSigned (payload : Option Bytes) (r : HubRequest) : Type 0 where
    pub bearer : lookup "Authorization" r.headers ≡ some ("Bearer " <> c.sync_id)
    pub sig : lookup "X-Korai-Sync-Sig" r.headers ≡ expected_sig c.key payload
    pub pubkey : lookup "X-Korai-Sync-Pubkey" r.headers ≡ expected_pubkey c.key payload

  abbrev pub Sent : Call → List HubRequest → List HubRequest → Type 0
  Sent k log log' = (log' ≡ log) ⊎ ((r : HubRequest) × (log' ≡ r ∷ log) × IsSigned (payload_of k) r)

  json_request-IsSigned :
      (key payload : Bytes) (method url : String) (body : Option Bytes) (r : HubRequest)
      → c.key ≡ key
      → json_request L (recorded T) c method url body (sig_headers L (recorded T) c payload)
        ≡ some r
      → IsSigned (some payload) r
  unfolding json_request new_request sig_headers set_headers insert lookup
  json_request-IsSigned [] payload method url body r k h = record {
    bearer = ground (arith, k, h);
    sig = ground (arith, k, h);
    pubkey = ground (arith, k, h);
  }
  json_request-IsSigned (b ∷ bs) payload method url body r k h = record {
    bearer = ground (arith, k, h);
    sig = ground (arith, k, h);
    pubkey = ground (arith, k, h);
  }

  unsigned-IsSigned :
      (key : Bytes) (method url : String) (body : Option Bytes) (r : HubRequest)
      → c.key ≡ key
      → json_request L (recorded T) c method url body [] ≡ some r
      → IsSigned none r
  unfolding json_request new_request set_headers insert lookup
  unsigned-IsSigned [] method url body r k h = record {
    bearer = ground (arith, k, h);
    sig = ground (arith, k, h);
    pubkey = ground (arith, k, h);
  }
  unsigned-IsSigned (b ∷ bs) method url body r k h = record {
    bearer = ground (arith, k, h);
    sig = ground (arith, k, h);
    pubkey = ground (arith, k, h);
  }

  -- `do` sends the request that it builds, or nothing.
  do_json-sends :
      {A : Type 0} (method url : String) (body : Option Bytes) (decode : HubBody → Option A)
      (extra : Dict String) (st : T.State) (log : List HubRequest)
      → ((do_json L (recorded T) c method url body decode extra (st, log)).1.1 ≡ log)
        ⊎ ((r : HubRequest) × ((do_json L (recorded T) c method url body decode extra (st, log)).1.1
              ≡ r ∷ log)
            × (json_request L (recorded T) c method url body extra ≡ some r))
  unfolding do_json
  do_json-sends method url body decode extra st log =
      elim (Option-cases (json_request L (recorded T) c method url body extra)) [
        | inl e ↦ inl (rw (e, do_json) refl)
        | inr (r, e) ↦ inr (r, ground (arith, e), e)
      ]

  signed_json :
      {A : Type 0} (k : Call) (method url : String) (body : Option Bytes)
      (decode : HubBody → Option A) (payload : Bytes) (st : T.State) (log : List HubRequest)
      → payload_of k ≡ some payload
      → Sent k log
          (do_json L
            (recorded T)
            c
            method
            url
            body
            decode
            (sig_headers L (recorded T) c payload)
            (st, log)).1.1
  signed_json k method url body decode payload st log p =
      elim (do_json-sends method url body decode (sig_headers L (recorded T) c payload) st log) [
        | inl q ↦ inl q
        | inr (r, q, h) ↦
            inr (r, q, rw p (json_request-IsSigned c.key payload method url body r refl h))
      ]

  -- Every call sends one request at most, which carries the sync id as its bearer. If the call
  -- changes the hub and the client has a key, the request has the public key and a signature over
  -- the payload of just that call; otherwise it has neither.
  pub run_call-Sent :
      (k : Call) (st : T.State) (log : List HubRequest) → Sent k log (run_call k (st, log)).1
  unfolding run_call payload_of put_block tombstone wipe_remote post_nuke get_block manifest
      json_request
  run_call-Sent (put_call item_id hash blob) st log =
      let fields : PutBlockRequest = record {
        item_id = item_id;
        block_hash = hash;
        ciphertext = L.base64_encode blob;
      } in
      elim (Option-cases (L.marshal_put fields)) [
        | inl e ↦ rw (e, run_call, put_block) (inl refl)
        | inr (b, e) ↦
            rw (e, run_call, put_block)
              (signed_json (put_call item_id hash blob) _ _ (some b) L.decode_seq _ st log refl)
      ]
  run_call-Sent (tombstone_call item_id) st log =
      elim (Option-cases (L.marshal_tombstone item_id)) [
        | inl e ↦ rw (e, run_call, tombstone) (inl refl)
        | inr (b, e) ↦
            rw (e, run_call, tombstone)
              (signed_json (tombstone_call item_id) _ _ (some b) L.decode_seq _ st log refl)
      ]
  run_call-Sent wipe_call st log =
      signed_json wipe_call _ _ none (discarded L (recorded T) c) _ st log refl
  run_call-Sent nuke_call st log =
      signed_json nuke_call _ _ none (discarded L (recorded T) c) _ st log refl
  run_call-Sent (get_call hash) st log =
      let url = c.base <> ("/blocks/" <> L.path_escape hash) in
      elim (Option-cases (new_request L (recorded T) c "GET" url none)) [
        | inl e ↦ rw (e, run_call, get_block) (inl refl)
        | inr (r, e) ↦
            let h : json_request L (recorded T) c "GET" url none [] ≡ some r =
              rw (e, json_request) refl in
            rw (e, run_call, get_block)
              (inr (r, ground (arith, e), unsigned-IsSigned c.key "GET" url none r refl h))
      ]
  run_call-Sent (manifest_call since limit) st log =
      elim (do_json-sends "GET" _ none L.decode_manifest [] st log) [
        | inl q ↦ inl q
        | inr (r, q, h) ↦ inr (r, q, unsigned-IsSigned c.key _ _ none r refl h)
      ]
