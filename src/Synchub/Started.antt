-- ===== src/Synchub/Started.antt =====
-- sync.go: `New` and `OnNuke`, and a syncer that may be off. The client of the hub is made by
-- `connect`, from the URL, the sync id and the key; the logger is left out.
pub mod Accepted
use korai_sdk_go.Prelude.{ℕ, String, Bool, true, false, Option, none, some, []}
use korai_sdk_go.Stream.{Text}
use korai_sdk_go.Session.FileStore.{Codec}
use korai_sdk_go.Session.Encrypting.{Crypto, KeyError, KeyResult, ok, failed, new_encrypting_codec}
use korai_sdk_go.Synchub.{Bytes, Store, Hub, Disk, Library, Config, SyncError, Syncer}
use korai_sdk_go.Synchub.Pull.{sync}
use korai_sdk_go.Synchub.Settings.{ResolvedConfig}

-- The fields of `Syncer` that do not change after `New`, but for the hook of `OnNuke`, and the rest.
pub record Instance (S : Store) (H : Hub) (D : Disk) : Type 0 where
  pub cfg : Config
  pub codec : Codec
  pub on_nuke : Option Bool
  pub state : Syncer S H D

-- The nil syncer without an error, an error, or a syncer.
pub data NewResult (S : Store) (H : Hub) (D : Disk) : Type 0 where
  sync_off no_store : NewResult S H D
  codec_refused : KeyError → NewResult S H D
  made : Instance S H D → NewResult S H D

-- The library of the syncer's methods with its own codec.
abbrev pub library_of : Library → Codec → Library
library_of L codec = record L { encode = codec.encode; decode = codec.decode }

module _ {S : Store} {H : Hub} {D : Disk} where
  made_with : ResolvedConfig → S.State → H.State → D.State → KeyResult Codec → NewResult S H D
  made_with cfg store hub disk (failed e) = codec_refused e
  made_with cfg store hub disk (ok codec) = made (record {
    cfg = record { key = cfg.key; sync_id = cfg.sync_id };
    codec = codec;
    on_nuke = none;
    state = record {
      pushed = [];
      have = [];
      store = store;
      hub = hub;
      disk = disk;
      nonces = 0;
      self_destructs = 0;
    };
  })

  -- `none` for a configuration that is not enabled, and for a nil store.
  unfoldable pub new_syncer :
      Crypto
      → (Text → String → Bytes → H.State)
      → D.State
      → Option ResolvedConfig
      → Option S.State
      → NewResult S H D
  unfolding new_encrypting_codec made_with
  new_syncer R connect disk none store = sync_off
  new_syncer R connect disk (some cfg) none = no_store
  new_syncer R connect disk (some cfg) (some store) =
      made_with cfg store (connect cfg.url cfg.sync_id cfg.key) disk
        (new_encrypting_codec R cfg.key)

  -- A hook is given by whether it succeeds; a nil syncer ignores it.
  unfoldable pub on_nuke : Option Bool → NewResult S H D → NewResult S H D
  on_nuke hook (made x) = made (record x { on_nuke = hook })
  on_nuke hook sync_off = sync_off
  on_nuke hook no_store = no_store
  on_nuke hook (codec_refused e) = codec_refused e

  synced :
      Instance S H D
      → Option ((Option SyncError × Option SyncError) × Syncer S H D)
      → Option ((Option SyncError × Option SyncError) × NewResult S H D)
  synced x none = none
  synced x (some (errs, state)) = some (errs, made (record x { state = state }))

  -- `Sync` of a syncer that may be nil.
  unfoldable pub sync_made :
      Library
      → ℕ
      → NewResult S H D
      → Option ((Option SyncError × Option SyncError) × NewResult S H D)
  unfolding sync synced
  sync_made L fuel (made x) = synced x (sync (library_of L x.codec) x.cfg x.on_nuke fuel x.state)
  sync_made L fuel sync_off = some ((none, none), sync_off)
  sync_made L fuel no_store = some ((none, none), no_store)
  sync_made L fuel (codec_refused e) = some ((none, none), codec_refused e)
