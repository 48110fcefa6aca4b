-- ===== src/Synchub/Nuke.antt =====
-- sync.go and client.go: the fleet-wide nuke marker, its verification and the self-destruct hook.
pub mod Guard
use korai_sdk_go.Prelude.{
  ℕ, ◌+◌, String, Bool, true, false, Option, none, some, List, [], ◌∷◌, ◌++◌, ◌&&◌, not, length,
  nat_eq, ◌==◌, if◌then◌else◌,
}
use korai_sdk_go.Session.Signing.{codes}
use korai_sdk_go.Synchub.{
  Bytes, Manifest, Store, Hub, Disk, Library, Config, SyncError, self_destruct_failed,
  namespace_nuked, Syncer,
}

abbrev pub nuke_sig_domain : String
nuke_sig_domain = "korai-sync-v1"

unfoldable pub nuke_payload : String → Bytes
nuke_payload sync_id = codes nuke_sig_domain ++ (codes "\nNUKE\n" ++ codes sync_id)

-- `ed25519.PublicKeySize` and `ed25519.SignatureSize`
abbrev pub public_key_size : ℕ
public_key_size = 32

abbrev pub signature_size : ℕ
signature_size = 64

module _ (L : Library) (cfg : Config) where
  check_signature : Manifest → Bytes → Bool
  check_signature m pub_key = elim (L.base64_decode m.nuke_sig) [
    | none ↦ false
    | some sig ↦
        if not (nat_eq (length sig) signature_size)
        then false
        else L.ed25519_verify pub_key (nuke_payload cfg.sync_id) sig
  ]

  check_public_key : Manifest → Bool
  check_public_key m = elim (L.base64_decode m.nuke_pubkey) [
    | none ↦ false
    | some pub_key ↦
        if not (nat_eq (length pub_key) public_key_size) then false else check_signature m pub_key
  ]

  unfoldable pub verify_nuke : Manifest → Bool
  unfolding check_signature check_public_key nuke_payload
  verify_nuke m =
      if not (m.nuke_pubkey == L.derive_write_public_key cfg.key) then false else check_public_key m

-- The hook, if one is set, says whether it succeeded.
module _ {S : Store} {H : Hub} {D : Disk} (on_nuke : Option Bool) where
  unfoldable pub handle_nuke : Syncer S H D → SyncError × Syncer S H D
  handle_nuke s = elim on_nuke [
    | none ↦ (namespace_nuked, s)
    | some done ↦
        let s' = record s { self_destructs = s.self_destructs + 1 } in
        if done then (namespace_nuked, s') else (self_destruct_failed, s')
  ]
