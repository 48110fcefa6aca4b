-- ===== src/Tests/OfHub.antt =====
-- Examples of requests to the hub.
use korai_sdk_go.Prelude.{
  ℕ, ◌+◌, ◌≡◌, refl, true, false, some, [], ◌∷◌, length-replicate, replicate, arith, eq_iff,
  trim_right_slashes,
}
use korai_sdk_go.Prelude.Int.{pos}
use korai_sdk_go.Session.Merge.{contains}
use korai_sdk_go.Synchub.{Bytes, Syncer}
use korai_sdk_go.Synchub.Apply.{apply_block}
use korai_sdk_go.Synchub.Client.{
  Transport, HttpLibrary, Client, new_client, new_request, max_block_bytes, client_hub,
}
use korai_sdk_go.Synchub.Client.Signed.{put_call, run_call, Sent, run_call-Sent}
use korai_sdk_go.Synchub.Client.Oversized.{apply_block_oversized}
use korai_sdk_go.Tests.Fixtures.{memory, disk, page, entry, library}

-- A hub that answers every request with the same body and counts them.
abbrev answering : Bytes → Transport
answering content = record {
  State = ℕ;
  send = λ n req. (
    some (record { status_code = 200; body = record { content = content; broken = false } }),
    n + 1,
  );
}

abbrev http : HttpLibrary
http = record {
  marshal_put = λ fields. some (1 ∷ []);
  marshal_tombstone = λ id. some (2 ∷ []);
  decode_seq = λ b. some (pos 7);
  decode_manifest = λ b. some page;
  base64_encode = λ b. "b64";
  encode_query = λ q. "q";
  path_escape = λ s. s;
  format_int = λ n. "n";
  format_nat = λ n. "n";
  derive_write_public_key = λ key. "public";
  sign_sync_request = λ key payload. "signature";
  is_valid = λ method url. true;
}

abbrev client : Client
client = record { base = "https://hub.example/v1/sync"; sync_id = "ns"; key = 1 ∷ [] }

trailing_slashes : new_client "https://hub.example//" "ns" (1 ∷ []) ≡ client
unfolding new_client trim_right_slashes
trailing_slashes = refl

run_call-Sent_example :
    Sent http
      (answering [])
      client
      (put_call "a" "h" (5 ∷ []))
      []
      (run_call http (answering []) client (put_call "a" "h" (5 ∷ [])) (0, [])).1
run_call-Sent_example = run_call-Sent http (answering []) client (put_call "a" "h" (5 ∷ [])) 0 []

abbrev large : Bytes
large = replicate (max_block_bytes + 1) 0

abbrev large_block : Transport
large_block = answering large

abbrev blank : Syncer memory (client_hub http large_block client) disk
blank = record {
  pushed = [];
  have = [];
  store = [];
  hub = 0;
  disk = [];
  nonces = 0;
  self_destructs = 0;
}

apply_block_oversized_example :
    apply_block (library []) (record entry { block_hash = "h3" }) blank
    ≡ (false, record blank { hub = 1 })
unfolding contains new_request
apply_block_oversized_example =
    apply_block_oversized http large_block client (library []) (record entry { block_hash = "h3" })
      blank _ _ 1 refl refl refl refl
      (ground (arith, length-replicate {A = ℕ} (max_block_bytes + 1) 0))
      (ground (arith, eq_iff "h2" "h3"))
