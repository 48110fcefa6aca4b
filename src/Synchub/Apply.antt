-- ===== src/Synchub/Apply.antt =====
-- sync.go: the merge of remote blocks and the tombstones of one manifest page.
pub mod Kept
pub mod Block
pub mod Merged
pub mod Lost
use korai_sdk_go.Prelude.{
  ℕ, zero, suc, ◌+◌, String, Bool, true, false, Option, none, some, List, [], ◌∷◌, ◌++◌, not, ◌&&◌,
  ltb, nat_eq, length, ◌==◌, if◌then◌else◌,
}
use korai_sdk_go.Prelude.Dict.{Dict, lookup, insert, erase, is_some}
use korai_sdk_go.Prelude.Int.{ℤ, pos, leb_ℤ, ltb_ℤ}
use korai_sdk_go.Prelude.Sorting.{sort_by, str_less}
use korai_sdk_go.Session.{Session}
use korai_sdk_go.Session.Merge.{contains, merge_messages}
use korai_sdk_go.Session.Record.{marshal_session, unmarshal_session}
use korai_sdk_go.Synchub.{
  Bytes, ManifestEntry, Manifest, Store, Hub, Disk, CursorRead, absent, failed, contents, Library,
  Config, SyncError, manifest_failed, cursor_failed, pull_failed, Syncer,
}
use korai_sdk_go.Synchub.Nuke.{verify_nuke, handle_nuke}

-- A zero time of creation is set to now, and the time of the update always.
abbrev pub dated : Library → Session → Session
dated L x = record x { created = if nat_eq x.created 0 then L.now else x.created; updated = L.now }

module _ {S : Store} {H : Hub} {D : Disk} (L : Library) where
  unfoldable pub mark_synced : Session → Syncer S H D → Syncer S H D
  mark_synced sess s = elim (marshal_session L.marshal_envelope sess) [
    | none ↦ s
    | some plaintext ↦ record s { pushed = insert sess.id (L.content_hash plaintext) s.pushed }
  ]

  -- The end of `applyBlock`: the times, `Save` and the record.
  pub save_merged : Session → Syncer S H D → Bool × Syncer S H D
  save_merged merged s =
      let (done, store) = S.save s.store (dated L merged) in
      let s' = record s { store = store } in
      if done then (true, mark_synced (dated L merged) s') else (false, s')

  -- The merge with the local session, if there is one. The block counts as possessed from here on.
  pub merge_remote : String → Session → Option Session → Syncer S H D → Bool × Syncer S H D
  merge_remote block_hash remote none s =
      save_merged remote (record s { have = block_hash ∷ s.have })
  merge_remote block_hash remote (some local) s =
      let msgs = merge_messages L.marshal_message local.messages remote.messages in
      let s' = record s { have = block_hash ∷ s.have } in
      if nat_eq (length msgs) (length local.messages)
      then (true, mark_synced local s')
      else save_merged (record local { messages = msgs }) s'

  open_block : ManifestEntry → Bytes → Syncer S H D → Bool × Syncer S H D
  open_block e blob s =
      if not (L.hash_ciphertext blob == e.block_hash) then (false, s) else elim (L.decode blob) [
        | none ↦ (false, s)
        | some plaintext ↦ elim (unmarshal_session L.unmarshal_envelope plaintext) [
          | none ↦ (false, s)
          | some remote ↦ merge_remote e.block_hash remote (S.load s.store e.item_id) s
        ]
      ]

  fetched : ManifestEntry → Option Bytes → Syncer S H D → Bool × Syncer S H D
  fetched e none s = (false, s)
  fetched e (some blob) s = open_block e blob s

  -- `true` stands for a nil error.
  unfoldable pub apply_block : ManifestEntry → Syncer S H D → Bool × Syncer S H D
  unfolding mark_synced save_merged merge_remote open_block fetched
  apply_block e s =
      if contains s.have e.block_hash
      then (true, s)
      else let (blob, hub) = H.get_block s.hub e.block_hash in
        fetched e blob (record s { hub = hub })

module _ {S : Store} {H : Hub} {D : Disk} where
  unfoldable pub apply_tombstone : String → Syncer S H D → Bool × Syncer S H D
  apply_tombstone id s = elim S.delete [
    | none ↦ (true, s)
    | some delete ↦
        let (done, store) = delete s.store id in
        if done
        then (true, record s { store = store; pushed = erase id s.pushed })
        else (false, record s { store = store })
  ]

-- `byItem` and `order` after the loop over the entries.
pub record Grouping : Type 0 where
  pub by_item : Dict (List ManifestEntry)
  pub order : List String

abbrev entries_or_nil : Option (List ManifestEntry) → List ManifestEntry
entries_or_nil none = []
entries_or_nil (some es) = es

add_entry : ManifestEntry → Grouping → Grouping
add_entry e g = record {
  by_item = insert e.item_id (entries_or_nil (lookup e.item_id g.by_item) ++ e ∷ []) g.by_item;
  order = if is_some (lookup e.item_id g.by_item) then g.order else g.order ++ e.item_id ∷ [];
}

group_entries : List ManifestEntry → Grouping → Grouping
group_entries [] g = g
group_entries (e ∷ es) g = group_entries es (add_entry e g)

ends_in_tombstone : List ManifestEntry → Bool
ends_in_tombstone [] = false
ends_in_tombstone (e ∷ []) = e.tombstone
ends_in_tombstone (e ∷ e' ∷ es) = ends_in_tombstone (e' ∷ es)

abbrev failure : Bool → ℕ
failure true = 0
failure false = 1

module _ {S : Store} {H : Hub} {D : Disk} (L : Library) where
  apply_blocks : List ManifestEntry → Syncer S H D → ℕ × Syncer S H D
  apply_blocks [] s = (0, s)
  apply_blocks (e ∷ es) s =
      let (done, s') = (if e.tombstone then (true, s) else apply_block L e s) in
      let (n, s'') = apply_blocks es s' in (failure done + n, s'')

  -- One item, its entries sorted by sequence number.
  apply_item : String → List ManifestEntry → Syncer S H D → ℕ × Syncer S H D
  apply_item id items s =
      if ends_in_tombstone items
      then (let (done, s') = apply_tombstone id s in (failure done, s'))
      else apply_blocks items s

  apply_items : Dict (List ManifestEntry) → List String → Syncer S H D → ℕ × Syncer S H D
  apply_items by_item [] s = (0, s)
  apply_items by_item (id ∷ ids) s =
      let items = entries_or_nil (lookup id by_item) in
      let (n, s') = apply_item id (sort_by (λ a b. ltb_ℤ a.seq b.seq) items) s in
      let (m, s'') = apply_items by_item ids s' in (n + m, s'')

  unfoldable pub apply_manifest :
      List ManifestEntry → Syncer S H D → Option SyncError × Syncer S H D
  unfolding group_entries add_entry ends_in_tombstone apply_blocks apply_item apply_items
  apply_manifest entries s =
      let g = group_entries entries (record { by_item = []; order = [] }) in
      let (n, s') = apply_items g.by_item (sort_by str_less g.order) s in
      (if ltb 0 n then some (pull_failed n) else none, s')
