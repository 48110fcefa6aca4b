-- ===== src/Synchub.antt =====
-- session/synchub/sync.go: the state of a `Syncer` and what it talks to.
-- The session store, the hub client and the cursor file are records of operations over states of
-- their own; an operation that may fail returns `none` or `false` with the state it leaves.
pub mod Padding
pub mod Nuke
pub mod Push
pub mod Apply
pub mod Pull
pub mod OnSqlite
pub mod Client
pub mod Settings
pub mod Run
pub mod Started
use korai_sdk_go.Prelude.{ℕ, String, Bool, Option, List}
use korai_sdk_go.Prelude.Dict.{Dict}
use korai_sdk_go.Prelude.Int.{ℤ}
use korai_sdk_go.Session.{Session, SessionMessage}
use korai_sdk_go.Session.Record.{SessionEnvelope}

abbrev pub Bytes : Type 0
Bytes = List ℕ

pub record ManifestEntry : Type 0 where
  pub item_id : String
  pub block_hash : String
  pub seq : ℤ
  pub byte_size : ℤ
  pub tombstone : Bool

pub record Manifest : Type 0 where
  pub entries : List ManifestEntry
  pub next : ℤ
  pub nuked : Bool
  pub nuke_sig : String
  pub nuke_pubkey : String

-- `session.Store`, with the capability `deleter` if the store has it.
pub record Store : Type 1 where
  pub State : Type 0
  pub list : State → Option (List Session)
  pub load : State → String → Option Session
  pub save : State → Session → Bool × State
  pub delete : Option (State → String → Bool × State)

-- The methods of `synchub.Client` that a sync calls.
pub record Hub : Type 1 where
  pub State : Type 0
  pub put_block : State → String → String → Bytes → Bool × State
  pub tombstone : State → String → Bool × State
  pub get_block : State → String → Option Bytes × State
  pub manifest : State → ℤ → ℕ → Option Manifest × State

-- Reading the cursor file: it is missing, cannot be read, or holds bytes.
pub data CursorRead : Type 0 where
  absent failed : CursorRead
  contents : Bytes → CursorRead

pub record Disk : Type 1 where
  pub State : Type 0
  pub read : State → CursorRead
  pub write : State → Bytes → Bool × State

-- Code outside this package: serialisation, hashes, encryption (with the number of the call, for
-- its fresh nonce), signatures, base64, `fmt` and the clock.
pub record Library : Type 0 where
  pub marshal_envelope : SessionEnvelope → Option Bytes
  pub unmarshal_envelope : Bytes → Option SessionEnvelope
  pub marshal_message : SessionMessage → Option String
  pub content_hash : Bytes → String
  pub hash_ciphertext : Bytes → String
  pub encode : ℕ → Bytes → Option Bytes
  pub decode : Bytes → Option Bytes
  pub derive_write_public_key : Bytes → String
  pub base64_decode : String → Option Bytes
  pub ed25519_verify : Bytes → Bytes → Bytes → Bool
  pub format_int : ℤ → Bytes
  pub scan_int : Bytes → Option ℤ
  pub now : ℕ

pub record Config : Type 0 where
  pub key : Bytes
  pub sync_id : String

-- What the errors of `push` and `pull` say, less their texts.
pub data SyncError : Type 0 where
  list_failed manifest_failed cursor_failed self_destruct_failed namespace_nuked : SyncError
  push_failed pull_failed : ℕ → SyncError

-- The syncer's maps `pushed` and `have`, the states around it, the calls of `Encode` so far and
-- the calls of the self-destruct hook.
pub record Syncer (S : Store) (H : Hub) (D : Disk) : Type 0 where
  pub pushed : Dict String
  pub have : List String
  pub store : S.State
  pub hub : H.State
  pub disk : D.State
  pub nonces : ℕ
  pub self_destructs : ℕ
