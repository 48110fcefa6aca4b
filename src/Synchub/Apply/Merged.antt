-- ===== src/Synchub/Apply/Merged.antt =====
-- The session that a delivered block leaves in the store.
use korai_sdk_go.Prelude.{
  String, ◌≡◌, refl, ap, sym, ◌∙◌, Bool, true, false, none, some, ◌∷◌, ◌||◌, length, nat_eq,
  nat_eq_iff, Bool-cases, inl, inr, arith,
}
use korai_sdk_go.Session.{Session}
use korai_sdk_go.Session.Merge.{merge_messages}
use korai_sdk_go.Session.Merge.Fresh.{has_key, NodupKeys}
use korai_sdk_go.Session.Merge.Laws.{
  has_key-merge_messages, merge_messages-prefix, length-merge_messages_iff,
}
use korai_sdk_go.Synchub.{ManifestEntry, Store, Hub, Disk, Library, Syncer}
use korai_sdk_go.Synchub.Apply.{dated, mark_synced, save_merged, merge_remote, apply_block}
use korai_sdk_go.Synchub.Apply.Block.{
  IsLawful, Delivered, apply_block-Delivered, save_merged-store, got_from,
}

module _ (L : Library) where
  abbrev pub merged_into : Session → Session → Session
  merged_into local remote = record local {
    messages = merge_messages L.marshal_message local.messages remote.messages;
  }

  has_key_of_same :
      (local remote : Session)
      → NodupKeys L.marshal_message local.messages
      → nat_eq (length (merged_into local remote).messages) (length local.messages) ≡ true
      → (k : String)
      → has_key L.marshal_message local.messages k ≡ (
          has_key L.marshal_message local.messages k || has_key L.marshal_message remote.messages k)
  has_key_of_same local remote u same k =
      let n =
        (nat_eq_iff (length (merged_into local remote).messages) (length local.messages)).0 same in
      let all =
        (length-merge_messages_iff L.marshal_message local.messages remote.messages u).0 n in
      ground (arith, all k)

module _ {S : Store} {H : Hub} {D : Disk} (L : Library) where
  -- What a successful `save_merged` leaves, from what the store then loads.
  stored :
      (id : String) (x y : Session) (t : Syncer S H D) (r : Bool × Syncer S H D)
      → r ≡ save_merged L x t
      → x.id ≡ id
      → (S.save t.store (dated L x)).0 ≡ true
      → S.load (S.save t.store (dated L x)).1 x.id ≡ some y
      → (r.0 ≡ true) × (S.load r.1.store id ≡ some y)
  stored id x y t r q i ok loaded =
      let (done, st) = save_merged-store L x t ok in
      (
        ap (λ p. p.0) q ∙ done,
        ap (λ p. S.load p.1.store id) q
            ∙ ap (λ p. S.load p id) st
            ∙ ap (S.load (S.save t.store (dated L x)).1) (sym i)
            ∙ loaded,
      )

  store-mark_synced : (x : Session) (t : Syncer S H D) → (mark_synced L x t).store ≡ t.store
  unfolding mark_synced
  store-mark_synced x t = ground arith

  merge_remote_same :
      (hash : String) (remote local : Session) (s : Syncer S H D)
      → nat_eq (length (merged_into L local remote).messages) (length local.messages) ≡ true
      → merge_remote L hash remote (some local) s
        ≡ (true, mark_synced L local (record s { have = hash ∷ s.have }))
  unfolding merge_remote
  merge_remote_same hash remote local s h = rw (h, merge_remote) refl

  merge_remote_longer :
      (hash : String) (remote local : Session) (s : Syncer S H D)
      → nat_eq (length (merged_into L local remote).messages) (length local.messages) ≡ false
      → merge_remote L hash remote (some local) s
        ≡ save_merged L (merged_into L local remote) (record s { have = hash ∷ s.have })
  unfolding merge_remote
  merge_remote_longer hash remote local s h = rw (h, merge_remote) refl

  -- A delivered block of a stored session that holds no message twice leaves that session with
  -- exactly the messages of both, up to their keys, if the merged session can be saved and is then
  -- loaded.
  pub apply_block_kept :
      (e : ManifestEntry) (s : Syncer S H D) (remote local y : Session)
      → Delivered L e s remote
      → local.id ≡ e.item_id
      → S.load s.store e.item_id ≡ some local
      → NodupKeys L.marshal_message local.messages
      → (S.save s.store (dated L (merged_into L local remote))).0 ≡ true
      → S.load (S.save s.store (dated L (merged_into L local remote))).1 local.id ≡ some y
      → y.messages ≡ (merged_into L local remote).messages
      → ((apply_block L e s).0 ≡ true)
        × ((y : Session) × (S.load (apply_block L e s).1.store e.item_id ≡ some y)
            × ((k : String)
                → has_key L.marshal_message y.messages k ≡ (
                    has_key L.marshal_message local.messages k
                    || has_key L.marshal_message remote.messages k)))
  apply_block_kept e s remote local y d i l u ok loaded kept =
      let t = record (got_from L e s) { have = e.block_hash ∷ s.have } in
      let merged = merged_into L local remote in
      let q : apply_block L e s ≡ merge_remote L e.block_hash remote (some local) (got_from L e s) =
        apply_block-Delivered L e s remote d
        ∙ ap (λ o. merge_remote L e.block_hash remote o (got_from L e s)) l in
      elim (Bool-cases (nat_eq (length merged.messages) (length local.messages))) [
        | inl same ↦
            let r = q ∙ merge_remote_same e.block_hash remote local (got_from L e s) same in
            (
              ap (λ p. p.0) r,
              (
                local,
                ap (λ p. S.load p.1.store e.item_id) r
                    ∙ ap (λ p. S.load p e.item_id) (store-mark_synced local t)
                    ∙ l,
                λ k. has_key_of_same L local remote u same k,
              ),
            )
        | inr longer ↦
            let r = q ∙ merge_remote_longer e.block_hash remote local (got_from L e s) longer in
            let (done, there) = stored e.item_id merged y t (apply_block L e s) r i ok loaded in
            (
              done,
              (
                y,
                there,
                λ k.
                    ap (λ ms. has_key L.marshal_message ms k) kept
                    ∙ has_key-merge_messages L.marshal_message local.messages remote.messages k,
              ),
            )
      ]

module _ {S : Store} {H : Hub} {D : Disk} (L : Library) {CanKeep : Session → Type 0}
    (lawful : IsLawful S CanKeep) where
  -- In a store that keeps what is saved of the sessions that it can keep, of which the remote one
  -- is, and if the save succeeds, a delivered block of a session with the id of its entry that is
  -- not stored yet is stored with the remote messages.
  pub apply_block_new :
      (e : ManifestEntry) (s : Syncer S H D) (remote : Session)
      → Delivered L e s remote
      → CanKeep (dated L remote)
      → remote.id ≡ e.item_id
      → S.load s.store e.item_id ≡ none
      → (S.save s.store (dated L remote)).0 ≡ true
      → ((apply_block L e s).0 ≡ true)
        × ((y : Session) × (S.load (apply_block L e s).1.store e.item_id ≡ some y)
            × (y.messages ≡ remote.messages))
  unfolding merge_remote
  apply_block_new e s remote d fits i l ok =
      let t = record (got_from L e s) { have = e.block_hash ∷ s.have } in
      let q : apply_block L e s ≡ save_merged L remote t =
        apply_block-Delivered L e s remote d
        ∙ ap (λ o. merge_remote L e.block_hash remote o (got_from L e s)) l in
      let (y, loaded, same) =
        lawful.load-save_new s.store (dated L remote) fits (ap (S.load s.store) i ∙ l) ok in
      let (done, there) = stored L e.item_id remote y t (apply_block L e s) q i ok loaded in
      (done, (y, there, same))

  -- In a store that keeps what is saved of the sessions that it can keep, of which the merged one
  -- is, and if saving it succeeds, a delivered block of a stored session that holds no message twice
  -- leaves that session with exactly the messages of both, up to their keys.
  pub apply_block_known :
      (e : ManifestEntry) (s : Syncer S H D) (remote local : Session)
      → Delivered L e s remote
      → CanKeep (dated L (merged_into L local remote))
      → S.load s.store e.item_id ≡ some local
      → NodupKeys L.marshal_message local.messages
      → (S.save s.store (dated L (merged_into L local remote))).0 ≡ true
      → ((apply_block L e s).0 ≡ true)
        × ((y : Session) × (S.load (apply_block L e s).1.store e.item_id ≡ some y)
            × ((k : String)
                → has_key L.marshal_message y.messages k ≡ (
                    has_key L.marshal_message local.messages k
                    || has_key L.marshal_message remote.messages k)))
  apply_block_known e s remote local d fits l u ok =
      let i = lawful.id-load s.store e.item_id local l in
      let (added, extended) =
        merge_messages-prefix L.marshal_message local.messages remote.messages u in
      let (y, loaded, kept) =
        lawful.load-save_longer s.store (dated L (merged_into L local remote)) local added fits
          (ap (S.load s.store) i ∙ l) extended ok in
      apply_block_kept L e s remote local y d i l u ok loaded kept
