-- ===== src/Tests/Fixtures.antt =====
-- Small instances of what the models take as parameters, and data for the examples.
use korai_sdk_go.Prelude.{
  ℕ, ◌+◌, String, ◌≡◌, refl, true, false, Option, none, some, List, [], ◌∷◌, ◌==◌, eq_iff, eq_refl,
  arith, if◌then◌else◌,
}
use korai_sdk_go.Prelude.Int.{pos}
use korai_sdk_go.Session.{Session, SessionMessage, text_block}
use korai_sdk_go.Session.Record.{SessionEnvelope}
use korai_sdk_go.Synchub.{
  Bytes, ManifestEntry, Manifest, Store, Hub, Disk, contents, Library, Config, Syncer,
}
use korai_sdk_go.Synchub.Apply.Block.{IsLawful}

abbrev pub said : String → SessionMessage
said text = record { role = text; blocks = text_block text ∷ [] }

-- A message is written as its role, which is its text here.
abbrev pub marshal : SessionMessage → Option String
marshal m = some m.role

abbrev pub session : String → List SessionMessage → Session
session id messages = record {
  id = id;
  created = 5;
  updated = 7;
  cwd = "/work";
  model = "auto";
  tool = "kode";
  messages = messages;
}

-- A store that keeps its sessions in a list, the newest save first.
unfoldable pub find : List Session → String → Option Session
find [] id = none
find (x ∷ xs) id = if x.id == id then some x else find xs id

abbrev pub memory : Store
memory = record {
  State = List Session;
  list = λ st. some st;
  load = find;
  save = λ st x. (true, x ∷ st);
  delete = none;
}

-- The same store, full.
abbrev pub full : Store
full = record memory { save = λ st x. (false, st) }

find-id : (st : List Session) (id : String) (x : Session) → find st id ≡ some x → x.id ≡ id
unfolding find
find-id [] id x h = absurd (ground (arith, h))
find-id (y ∷ ys) id x h = ground (arith, eq_iff y.id id, find-id ys id x)

find-cons : (st : List Session) (x : Session) → find (x ∷ st) x.id ≡ some x
unfolding find
find-cons st x = ground (arith, eq_refl x.id)

pub memory-IsLawful : IsLawful memory (λ x. Unit)
memory-IsLawful = record {
  id-load = find-id;
  load-save_new = λ st x fits absent ok. (x, find-cons st x, refl);
  load-save_longer = λ st x old added fits stored longer ok. (x, find-cons st x, refl);
}

-- A hub that counts its writes and serves one block, and one page that ends at 9.
abbrev pub entry : ManifestEntry
entry = record {
  item_id = "a";
  block_hash = "h2";
  seq = pos 9;
  byte_size = pos 2;
  tombstone = false;
}

abbrev pub page : Manifest
page = record {
  entries = entry ∷ [];
  next = pos 9;
  nuked = true;
  nuke_sig = "s";
  nuke_pubkey = "p";
}

abbrev pub hub : Hub
hub = record {
  State = ℕ;
  put_block = λ n id hash blob. (true, n + 1);
  tombstone = λ n id. (true, n + 1);
  get_block = λ n hash. (some (1 ∷ 2 ∷ []), n);
  manifest = λ n since limit. (some page, n);
}

abbrev pub disk : Disk
disk = record { State = Bytes; read = λ b. contents b; write = λ old b. (true, b) }

abbrev pub remote_envelope : List SessionMessage → SessionEnvelope
remote_envelope messages = record {
  id = "a";
  created = 5;
  cwd = "/other";
  model = "auto";
  tool = "kode";
  messages = messages;
}

-- Every block decodes to the messages given.
abbrev pub library : List SessionMessage → Library
library messages = record {
  marshal_envelope = λ e. some (1 ∷ []);
  unmarshal_envelope = λ b. some (remote_envelope messages);
  marshal_message = marshal;
  content_hash = λ b. "content";
  hash_ciphertext = λ b. "h2";
  encode = λ n b. some b;
  decode = λ b. some b;
  derive_write_public_key = λ key. "k";
  base64_decode = λ s. some [];
  ed25519_verify = λ key payload sig. true;
  format_int = λ v. 1 ∷ [];
  scan_int = λ b. some (pos 0);
  now = 11;
}

abbrev pub config : Config
config = record { key = 1 ∷ []; sync_id = "ns" }

abbrev pub start : {S : Store} → S.State → Syncer S hub disk
start st = record {
  pushed = [];
  have = [];
  store = st;
  hub = 0;
  disk = [];
  nonces = 0;
  self_destructs = 0;
}
