-- ===== src/Synchub/Started/Accepted.antt =====
-- sync.go, session/synchub/config.go: configurations that `Resolve` enables and `New` takes.
use korai_sdk_go.Prelude.{String, ◌≡◌, refl, true, none, some, [], length, nat_eq, nat_eq_iff}
use korai_sdk_go.Stream.{Text}
use korai_sdk_go.Session.Encrypting.{
  Aead, Crypto, content_key_len, encrypting_codec, new_encrypting_codec, KeyFile, ok,
}
use korai_sdk_go.Synchub.{Bytes, Store, Hub, Disk}
use korai_sdk_go.Synchub.Settings.{
  ConfigLibrary, Environment, FileSettings, ResolvedConfig, resolve, enabled_with,
}
use korai_sdk_go.Synchub.Settings.Resolved.{resolve-IsComplete}
use korai_sdk_go.Synchub.Started.{made, made_with, new_syncer}

new_encrypting_codec-length :
    (R : Crypto) (key : Bytes) (a : Aead)
    → length key ≡ content_key_len
    → R.new_gcm key ≡ some a
    → new_encrypting_codec R key ≡ ok (encrypting_codec R a)
unfolding new_encrypting_codec
new_encrypting_codec-length R key a n g =
    let e : nat_eq (length key) content_key_len ≡ true =
      (nat_eq_iff (length key) content_key_len).1 n in
    rw (e, g) refl

module _ {S : Store} {H : Hub} {D : Disk} (L : ConfigLibrary) (R : Crypto)
    (connect : Text → String → Bytes → H.State) where
  -- A configuration that `Resolve` enables is accepted by `New` if there is a store and the cipher
  -- takes the key: the syncer uses the encrypting codec, signs for the sync id derived from its
  -- key, has no hook, and knows of no uploaded session and no block.
  pub resolve-new_syncer :
      (home : Text) (f : KeyFile) (env : Environment) (fs : FileSettings) (c : ResolvedConfig)
      (a : Aead) (store : S.State) (disk : D.State)
      → resolve L home f env fs ≡ enabled_with c
      → R.new_gcm c.key ≡ some a
      → new_syncer {S = S} {H = H} {D = D} R connect disk (some c) (some store)
        ≡ made (record {
          cfg = record { key = c.key; sync_id = L.derive_sync_id c.key };
          codec = encrypting_codec R a;
          on_nuke = none;
          state = record {
            pushed = [];
            have = [];
            store = store;
            hub = connect c.url (L.derive_sync_id c.key) c.key;
            disk = disk;
            nonces = 0;
            self_destructs = 0;
          };
        })
  unfolding new_syncer made_with
  resolve-new_syncer home f env fs c a store disk h g =
      let complete = resolve-IsComplete L home f env fs c h in
      rw (new_encrypting_codec-length R c.key a complete.key g, complete.sync_id, made_with) refl
