-- ===== src/Synchub/Apply/Kept.antt =====
-- sync.go: the parts of the state that applying a page does not touch.
use korai_sdk_go.Prelude.{
  String, ◌≡◌, ◌≢◌, refl, ◌∙◌, Bool, true, Option, none, some, List, [], ◌∷◌, arith, if◌then◌else◌,
}
use korai_sdk_go.Prelude.Dict.{Dict, lookup}
use korai_sdk_go.Session.{Session}
use korai_sdk_go.Session.Merge.{merge_messages}
use korai_sdk_go.Synchub.{Bytes, ManifestEntry, Store, Hub, Disk, Library, Syncer, namespace_nuked}
use korai_sdk_go.Prelude.Int.{ltb_ℤ}
use korai_sdk_go.Prelude.Sorting.{sort_by, str_less}
use korai_sdk_go.Synchub.Apply.{
  mark_synced, save_merged, merge_remote, open_block, apply_block, apply_tombstone, group_entries,
  entries_or_nil, apply_blocks, apply_item, apply_items, apply_manifest,
}

module _ {S : Store} {H : Hub} {D : Disk} where
  -- `t` has the cursor file and the count of `s`.
  abbrev pub Kept : Syncer S H D → Syncer S H D → Type 0
  Kept s t = (t.disk ≡ s.disk) × (t.self_destructs ≡ s.self_destructs)

  Kept-apply_tombstone : (id : String) (s : Syncer S H D) → Kept s (apply_tombstone id s).1
  unfolding apply_tombstone
  Kept-apply_tombstone id s = ground arith

module _ {S : Store} {H : Hub} {D : Disk} (L : Library) where
  Kept-mark_synced : (sess : Session) (s : Syncer S H D) → Kept s (mark_synced L sess s)
  unfolding mark_synced
  Kept-mark_synced sess s = ground arith

  Kept-save_merged : (sess : Session) (s : Syncer S H D) → Kept s (save_merged L sess s).1
  unfolding save_merged mark_synced
  Kept-save_merged sess s = ground arith

  Kept-merge_remote :
      (hash : String) (remote : Session) (local : Option Session) (s : Syncer S H D)
      → Kept s (merge_remote L hash remote local s).1
  unfolding merge_remote
  Kept-merge_remote hash remote none s = Kept-save_merged remote _
  Kept-merge_remote hash remote (some local) s =
      let msgs = merge_messages L.marshal_message local.messages remote.messages in
      let s' = record s { have = hash ∷ s.have } in
      ground
        (arith, Kept-mark_synced local s', Kept-save_merged (record local { messages = msgs }) s')

  Kept-open_block :
      (e : ManifestEntry) (blob : Bytes) (s : Syncer S H D) → Kept s (open_block L e blob s).1
  unfolding open_block
  Kept-open_block e blob s = grind (arith, Kept-merge_remote)

  Kept-apply_block : (e : ManifestEntry) (s : Syncer S H D) → Kept s (apply_block L e s).1
  unfolding apply_block
  Kept-apply_block e s = ground arith

  Kept-apply_blocks : (es : List ManifestEntry) (s : Syncer S H D) → Kept s (apply_blocks L es s).1
  unfolding apply_blocks
  Kept-apply_blocks [] s = (refl, refl)
  Kept-apply_blocks (e ∷ es) s =
      let step : Bool × Syncer S H D = if e.tombstone then (true, s) else apply_block L e s in
      ground (arith, Kept-apply_block e s, Kept-apply_blocks es step.1)

  Kept-apply_item :
      (id : String) (es : List ManifestEntry) (s : Syncer S H D) → Kept s (apply_item L id es s).1
  unfolding apply_item
  Kept-apply_item id es s = ground (arith, Kept-apply_tombstone id s, Kept-apply_blocks es s)

  Kept-apply_items :
      (d : Dict (List ManifestEntry)) (ids : List String) (s : Syncer S H D)
      → Kept s (apply_items L d ids s).1
  unfolding apply_items
  Kept-apply_items d [] s = (refl, refl)
  Kept-apply_items d (id ∷ ids) s =
      let items = sort_by (λ a b. ltb_ℤ a.seq b.seq) (entries_or_nil (lookup id d)) in
      let (p, q) = Kept-apply_item id items s in
      let (p', q') = Kept-apply_items d ids (apply_item L id items s).1 in (p' ∙ p, q' ∙ q)

  pub Kept-apply_manifest :
      (es : List ManifestEntry) (s : Syncer S H D) → Kept s (apply_manifest L es s).1
  unfolding apply_manifest
  Kept-apply_manifest es s =
      let g = group_entries es (record { by_item = []; order = [] }) in
      Kept-apply_items g.by_item (sort_by str_less g.order) s

  -- The only error of a page counts its failed items.
  pub apply_manifest-ne :
      (es : List ManifestEntry) (s : Syncer S H D)
      → (apply_manifest L es s).0 ≢ some namespace_nuked
  unfolding apply_manifest
  apply_manifest-ne es s h = ground arith
