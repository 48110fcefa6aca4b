-- ===== src/Synchub/Apply/Block.antt =====
-- What applying one remote block does to the session that it belongs to.
use korai_sdk_go.Prelude.{
  String, ◌≡◌, ◌≢◌, refl, ap, ◌∙◌, true, false, none, some, List, ◌∷◌, ◌++◌, eq_iff, eq_refl, arith,
}
use korai_sdk_go.Session.{Session, SessionMessage}
use korai_sdk_go.Session.Merge.{contains}
use korai_sdk_go.Session.Record.{unmarshal_session}
use korai_sdk_go.Synchub.{Bytes, ManifestEntry, Store, Hub, Disk, Library, Syncer}
use korai_sdk_go.Synchub.Apply.{dated, mark_synced, save_merged, merge_remote, apply_block}

-- What a sync relies on in a session store: a saved session that is new, or that extends the one
-- stored, is loaded with the messages that were saved, at least if it is one of those that the store
-- can keep. The stores of package session keep those that their JSON gives back as written.
pub record IsLawful (S : Store) (CanKeep : Session → Type 0) : Type 0 where
  pub id-load : (st : S.State) (id : String) (x : Session) → S.load st id ≡ some x → x.id ≡ id
  pub load-save_new :
      (st : S.State) (x : Session)
      → CanKeep x
      → S.load st x.id ≡ none
      → (S.save st x).0 ≡ true
      → (y : Session) × (S.load (S.save st x).1 x.id ≡ some y) × (y.messages ≡ x.messages)
  pub load-save_longer :
      (st : S.State) (x old : Session) (added : List SessionMessage)
      → CanKeep x
      → S.load st x.id ≡ some old
      → x.messages ≡ old.messages ++ added
      → (S.save st x).0 ≡ true
      → (y : Session) × (S.load (S.save st x).1 x.id ≡ some y) × (y.messages ≡ x.messages)

contains_self : (k : String) (ks : List String) → contains (k ∷ ks) k ≡ true
unfolding contains
contains_self k ks = rw (eq_refl k)

module _ {S : Store} {H : Hub} {D : Disk} (L : Library) where
  -- The hub delivers the block of the entry, which is not possessed yet; it has the hash that the
  -- manifest gives, and it decrypts and decodes to `remote`.
  pub record Delivered (e : ManifestEntry) (s : Syncer S H D) (remote : Session) : Type 0 where
    pub fresh : contains s.have e.block_hash ≡ false
    pub blob : Bytes
    pub got : (H.get_block s.hub e.block_hash).0 ≡ some blob
    pub authentic : L.hash_ciphertext blob ≡ e.block_hash
    pub plaintext : Bytes
    pub decrypted : L.decode blob ≡ some plaintext
    pub decoded : unmarshal_session L.unmarshal_envelope plaintext ≡ some remote

  abbrev pub got_from : ManifestEntry → Syncer S H D → Syncer S H D
  got_from e s = record s { hub = (H.get_block s.hub e.block_hash).1 }

  pub apply_block-Delivered :
      (e : ManifestEntry) (s : Syncer S H D) (remote : Session)
      → Delivered e s remote
      → apply_block L e s
        ≡ merge_remote L e.block_hash remote (S.load s.store e.item_id) (got_from e s)
  unfolding apply_block
  apply_block-Delivered e s remote d = ground (
    arith,
    d.fresh,
    d.got,
    d.authentic,
    d.decrypted,
    d.decoded,
    eq_iff (L.hash_ciphertext d.blob) e.block_hash,
  )

  -- A block whose bytes do not have the hash that the manifest gives is refused: nothing changes
  -- but the hub, which has been asked for it.
  pub apply_block_mismatch :
      (e : ManifestEntry) (s : Syncer S H D) (blob : Bytes)
      → contains s.have e.block_hash ≡ false
      → (H.get_block s.hub e.block_hash).0 ≡ some blob
      → L.hash_ciphertext blob ≢ e.block_hash
      → apply_block L e s ≡ (false, got_from e s)
  unfolding apply_block
  apply_block_mismatch e s blob f g h =
      ground (arith, f, g, eq_iff (L.hash_ciphertext blob) e.block_hash)

  apply_block-possessed :
      (e : ManifestEntry) (s : Syncer S H D)
      → contains s.have e.block_hash ≡ true
      → apply_block L e s ≡ (true, s)
  unfolding apply_block
  apply_block-possessed e s h = rw (h, apply_block) refl

  save_merged_fails :
      (x : Session) (s : Syncer S H D)
      → (S.save s.store (dated L x)).0 ≡ false
      → ((save_merged L x s).0 ≡ false) × ((save_merged L x s).1.have ≡ s.have)
  unfolding save_merged
  save_merged_fails x s h = ground (arith, h)

  -- If a block of a session that is not stored yet is delivered and its save fails, the block is
  -- reported as failed and yet counts as possessed: when the same entry is applied again, it is
  -- passed over with success, and nothing changes.
  pub apply_block_forgets :
      (e : ManifestEntry) (s : Syncer S H D) (remote : Session)
      → Delivered e s remote
      → S.load s.store e.item_id ≡ none
      → (S.save s.store (dated L remote)).0 ≡ false
      → ((apply_block L e s).0 ≡ false)
        × (apply_block L e (apply_block L e s).1 ≡ (true, (apply_block L e s).1))
  unfolding merge_remote
  apply_block_forgets e s remote d l fails =
      let t = record (got_from e s) { have = e.block_hash ∷ s.have } in
      let q : apply_block L e s ≡ save_merged L remote t =
        apply_block-Delivered e s remote d
        ∙ ap (λ o. merge_remote L e.block_hash remote o (got_from e s)) l in
      let (failed, kept) = save_merged_fails remote t fails in
      (
        ap (λ r. r.0) q ∙ failed,
        apply_block-possessed e (apply_block L e s).1 (
            ap (λ hs. contains hs e.block_hash) (ap (λ r. r.1.have) q ∙ kept)
            ∙ contains_self e.block_hash s.have),
      )

  pub save_merged-store :
      (x : Session) (s : Syncer S H D)
      → (S.save s.store (dated L x)).0 ≡ true
      → ((save_merged L x s).0 ≡ true)
        × ((save_merged L x s).1.store ≡ (S.save s.store (dated L x)).1)
  unfolding save_merged mark_synced
  save_merged-store x s h = ground (arith, h)
