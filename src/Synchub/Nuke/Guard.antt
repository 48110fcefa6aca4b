-- ===== src/Synchub/Nuke/Guard.antt =====
-- What a nuke marker must carry to be acted on.
use korai_sdk_go.Prelude.{
  String, ◌≡◌, ◌≢◌, refl, sym, ◌∙◌, true, none, some, ◌↔◌, inl, inr, Option-cases, [], ◌∷◌, length,
  All, arith, eq_iff,
}
use korai_sdk_go.Session.Signing.{join_lines, sync_canonical_payload}
use korai_sdk_go.Session.Signing.Injective.{
  IsField, tagged_payload, tagged_payload-injective, SyncOp, put, tombstone, delete, op_name,
  signed_fields, sync_canonical_payload-eq,
}
use korai_sdk_go.Synchub.{Bytes, Manifest, Library, Config}
use korai_sdk_go.Synchub.Nuke.{nuke_payload, verify_nuke}

-- What the T11 guard asks of a manifest: it names the write key derived from our content key, that
-- key has 32 bytes, and it has signed the marker of our namespace with 64 bytes.
pub record IsOrdered (L : Library) (cfg : Config) (m : Manifest) : Type 0 where
  pub ours : m.nuke_pubkey ≡ L.derive_write_public_key cfg.key
  pub public_key : Bytes
  pub decoded : L.base64_decode m.nuke_pubkey ≡ some public_key
  pub key_size : length public_key ≡ 32
  pub signature : Bytes
  pub signed : L.base64_decode m.nuke_sig ≡ some signature
  pub signature_size : length signature ≡ 64
  pub valid : L.ed25519_verify public_key (nuke_payload cfg.sync_id) signature ≡ true

module _ (L : Library) (cfg : Config) (m : Manifest) where
  IsOrdered-of_parts :
      (public_key signature : Bytes)
      → L.base64_decode m.nuke_pubkey ≡ some public_key
      → L.base64_decode m.nuke_sig ≡ some signature
      → verify_nuke L cfg m ≡ true
      → IsOrdered L cfg m
  unfolding verify_nuke
  IsOrdered-of_parts public_key signature p q h = record {
    ours = ground (arith, eq_iff m.nuke_pubkey (L.derive_write_public_key cfg.key));
    public_key = public_key;
    decoded = p;
    key_size = ground arith;
    signature = signature;
    signed = q;
    signature_size = ground arith;
    valid = ground arith;
  }

  undecodable : verify_nuke L cfg m ≡ true → L.base64_decode m.nuke_pubkey ≢ none
  unfolding verify_nuke
  undecodable h e = ground arith

  undecodable_sig : verify_nuke L cfg m ≡ true → L.base64_decode m.nuke_sig ≢ none
  unfolding verify_nuke
  undecodable_sig h e = ground arith

  IsOrdered-verify_nuke : IsOrdered L cfg m → verify_nuke L cfg m ≡ true
  unfolding verify_nuke
  IsOrdered-verify_nuke o = ground (
    arith,
    o.ours,
    o.decoded,
    o.key_size,
    o.signed,
    o.signature_size,
    o.valid,
    eq_iff m.nuke_pubkey (L.derive_write_public_key cfg.key),
  )

  -- A nuke marker is verified exactly when it names the write key derived from our content key,
  -- and that key, of 32 bytes, has signed the marker of our namespace with 64 bytes.
  pub verify_nuke_iff : (verify_nuke L cfg m ≡ true) ↔ IsOrdered L cfg m
  verify_nuke_iff = (
    λ h. elim (Option-cases (L.base64_decode m.nuke_pubkey)) [
      | inl e ↦ absurd (undecodable h e)
      | inr (k, p) ↦ elim (Option-cases (L.base64_decode m.nuke_sig)) [
        | inl e ↦ absurd (undecodable_sig h e)
        | inr (g, q) ↦ IsOrdered-of_parts k g p q h
      ]
    ],
    IsOrdered-verify_nuke,
  )

nuke_payload-eq : (s : String) → nuke_payload s ≡ tagged_payload ("NUKE" ∷ s ∷ [])
unfolding nuke_payload join_lines
nuke_payload-eq s = refl

nuke-IsField : IsField "NUKE"
nuke-IsField = omega arith

nuke_apart : (op : SyncOp) (t s i h : String) → "NUKE" ∷ t ∷ [] ≢ signed_fields op s i h
nuke_apart put t s i h e = cc
nuke_apart tombstone t s i h e = cc
nuke_apart delete t s i h e = ground (arith, e, eq_iff "NUKE" "DELETE")

-- No payload of an upload, a tombstone or a namespace delete, on arguments without newlines, is
-- the payload of a nuke marker.
pub nuke_payload-ne-sync_canonical_payload :
    (op : SyncOp) (t s i h : String)
    → IsField t
    → All IsField (signed_fields op s i h)
    → nuke_payload t ≢ sync_canonical_payload (op_name op) s i h
nuke_payload-ne-sync_canonical_payload op t s i h a b e = nuke_apart op t s i h (
    tagged_payload-injective ("NUKE" ∷ t ∷ []) (signed_fields op s i h) (nuke-IsField, (a, tt)) b
      (sym (nuke_payload-eq t) ∙ e ∙ sync_canonical_payload-eq op s i h))
