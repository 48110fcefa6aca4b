-- ===== src/Tests/OfSettings.antt =====
-- Examples of sync settings, keys and encrypted sessions.
use korai_sdk_go.Prelude.{
  ℕ, ◌*◌, ◌≡◌, refl, ap, sym, ◌∙◌, false, Option, none, some, [], ◌∷◌, ◌++◌, length,
  length-replicate, replicate,
}
use korai_sdk_go.Prelude.Int.{pos, negsuc}
use korai_sdk_go.Retry.{second, to_int64}
use korai_sdk_go.Session.FileStore.{Bytes}
use korai_sdk_go.Stream.{Text, chars, trim_space, text_eq, is_space, trim_left, trim_right}
use korai_sdk_go.Session.SqliteStore.{Database, save, load}
use korai_sdk_go.Session.Encrypting.{
  Aead, Crypto, encode, encrypting_codec, Decoders, no_file, decode_key, accepted, load_content_key,
}
use korai_sdk_go.Session.Encrypting.Sealed.{IsSound, load-save_encrypted}
use korai_sdk_go.Synchub.Settings.{
  FileSettings, Environment, ConfigLibrary, ResolvedConfig, enabled_with, lookup_bool, parse_bool,
  seconds, signal, first_non_empty, chosen_interval, complete, trim_slashes, resolve,
}
use korai_sdk_go.Synchub.Settings.Resolved.{IsComplete, resolve-IsComplete}
use korai_sdk_go.Synchub.Started.{made, new_syncer}
use korai_sdk_go.Synchub.Started.Accepted.{resolve-new_syncer}
use korai_sdk_go.Tests.MessageJson.{hi, marshal_parts, marshal_messages}
use korai_sdk_go.Tests.Fixtures.{session, memory, hub, disk, start}
use korai_sdk_go.Tests.OfSqlite.{table, table-IsAtomic, rows_json, of_json}

abbrev key_bytes : Bytes
key_bytes = replicate 32 1

abbrev decoders : Decoders
decoders = record {
  hex = λ t. some key_bytes;
  std = λ t. none;
  raw_std = λ t. none;
  url = λ t. none;
  raw_url = λ t. none;
}

abbrev config : ConfigLibrary
config = record {
  parse_duration = λ t. none;
  atoi = λ t. some (pos 2);
  cursor_path = λ home. home ++ chars "/.korai/sync-cursor";
  derive_sync_id = λ key. "ns";
  decoders = decoders;
}

abbrev environment : Environment
environment = record {
  enabled = some (chars "true");
  url = chars "https://hub/";
  interval = chars "2";
  key = chars "k";
}

abbrev settings : FileSettings
settings = record { enabled = false; url = []; interval = [] }

abbrev resolved : Text → ResolvedConfig
resolved url = record {
  url = url;
  sync_id = "ns";
  key = key_bytes;
  interval = pos (5 * second);
  cursor_path = chars "/home/.korai/sync-cursor";
}

resolve-IsComplete_example : IsComplete config (resolved (chars "https://hub"))
unfolding resolve signal lookup_bool parse_bool text_eq first_non_empty chosen_interval seconds
    to_int64 complete trim_slashes load_content_key decode_key accepted trim_space trim_left
    trim_right is_space
resolve-IsComplete_example =
    resolve-IsComplete config (chars "/home") no_file environment settings
      (resolved (chars "https://hub")) refl

-- A URL of slashes only passes for one that is configured, and is then empty.
slashes_only :
    resolve config (chars "/home") no_file (record environment { url = chars "//" }) settings
    ≡ enabled_with (resolved [])
unfolding resolve signal lookup_bool parse_bool text_eq first_non_empty chosen_interval seconds
    to_int64 complete trim_slashes load_content_key decode_key accepted trim_space trim_left
    trim_right is_space
slashes_only = refl

-- 9223372037 seconds are a negative duration.
seconds_overflow : seconds (pos 9223372037) ≡ negsuc 9223372036709551615
unfolding seconds to_int64
seconds_overflow = refl

-- A cipher that puts its nonce in front, a source of zeros, and base64 that changes nothing.
abbrev aead : Aead
aead = record { nonce_size = 12; seal = λ nonce b. 0 ∷ b; open_sealed = λ nonce b. opened b }
  where
    opened : Bytes → Option Bytes
    opened [] = none
    opened (c ∷ cs) = some cs

abbrev crypto : Crypto
crypto = record {
  new_gcm = λ key. some aead;
  random = λ n k. some (replicate k 0);
  base64_encode = λ b. b;
  base64_decode = λ b. some b;
}

crypto-IsSound : IsSound crypto aead
crypto-IsSound = record {
  open_sealed-seal = λ nonce b n. refl;
  decode-encode_base64 = λ b. refl;
  length-random = λ n k nonce q. filled k nonce q;
}
  where
    filled : (k : ℕ) (nonce : Bytes) → some (replicate k 0) ≡ some nonce → length nonce ≡ k
    filled k nonce q = ap length (sym (same q)) ∙ length-replicate {A = ℕ} k 0
      where
        same : some (replicate k 0) ≡ some nonce → replicate k 0 ≡ nonce
        same q = cc q

abbrev nothing : Database table
nothing = record { db = []; nonces = 0 }

load-save_encrypted_example :
    load rows_json
      (encrypting_codec crypto aead)
      table
      (save rows_json (encrypting_codec crypto aead) table (session "a" (hi ∷ [])) nothing).1
      "a"
    ≡ some (session "a" (hi ∷ []))
unfolding save load encode marshal_messages marshal_parts
load-save_encrypted_example =
    load-save_encrypted crypto aead crypto-IsSound rows_json table (session "a" (hi ∷ [])) nothing
      (of_json (session "a" (hi ∷ [])) (2 ∷ 4 ∷ 6 ∷ []) refl refl) table-IsAtomic
      (record { rows = []; answers = refl; scanned = tt }) refl

resolve-new_syncer_example :
    new_syncer {S = memory} {H = hub} {D = disk} crypto
      (λ url id key. 0)
      []
      (some (resolved (chars "https://hub")))
      (some [])
    ≡ made (record {
      cfg = record { key = key_bytes; sync_id = "ns" };
      codec = encrypting_codec crypto aead;
      on_nuke = none;
      state = start [];
    })
unfolding resolve signal lookup_bool parse_bool text_eq first_non_empty chosen_interval seconds
    to_int64 complete trim_slashes load_content_key decode_key accepted trim_space trim_left
    trim_right is_space
resolve-new_syncer_example =
    resolve-new_syncer {S = memory} {H = hub} {D = disk} config crypto (λ url id key. 0)
      (chars "/home") no_file environment settings (resolved (chars "https://hub")) aead [] [] refl
      refl
