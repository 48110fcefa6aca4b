-- ===== src/Synchub/Pull.antt =====
-- sync.go: one pull, page by page from the cursor on disk, and a whole sync.
pub mod Loop
pub mod Guarded
pub mod Once
use korai_sdk_go.Prelude.{
  ℕ, zero, suc, Bool, true, false, Option, none, some, List, [], ◌∷◌, ◌&&◌, if◌then◌else◌,
}
use korai_sdk_go.Prelude.Int.{ℤ, pos, leb_ℤ}
use korai_sdk_go.Synchub.{
  Bytes, ManifestEntry, Manifest, Store, Hub, Disk, CursorRead, absent, failed, contents, Library,
  Config, SyncError, manifest_failed, cursor_failed, Syncer,
}
use korai_sdk_go.Synchub.Nuke.{verify_nuke, handle_nuke}
use korai_sdk_go.Synchub.Push.{push}
use korai_sdk_go.Synchub.Apply.{apply_manifest}

abbrev pub manifest_limit : ℕ
manifest_limit = 500

-- `none` for an error other than a missing file.
unfoldable pub load_cursor : Library → CursorRead → Option ℤ
load_cursor L absent = some (pos 0)
load_cursor L failed = none
load_cursor L (contents b) = elim (L.scan_int b) [ none ↦ some (pos 0) | some v ↦ some v ]

-- What a round of the loop does: it returns, or goes on from a later cursor.
pub data Round (S : Store) (H : Hub) (D : Disk) : Type 0 where
  returned : Option SyncError → Syncer S H D → Round S H D
  goes_on : ℤ → Syncer S H D → Round S H D

module _ {S : Store} {H : Hub} {D : Disk} (L : Library) (cfg : Config) (on_nuke : Option Bool) where
  -- `saveCursor`, and the end of the round.
  save_cursor : ℤ → Syncer S H D → Round S H D
  save_cursor v s =
      let (done, disk) = D.write s.disk (L.format_int v) in
      let s' = record s { disk = disk } in
      if done then goes_on v s' else returned (some cursor_failed) s'

  after_page : ℤ → ℤ → Option SyncError × Syncer S H D → Round S H D
  after_page cursor next (some e, s) = returned (some e) s
  after_page cursor next (none, s) =
      if leb_ℤ next cursor then returned none s else save_cursor next s

  pub process_page : ℤ → Manifest → List ManifestEntry → Syncer S H D → Round S H D
  process_page cursor m [] s = returned none s
  process_page cursor m (e ∷ es) s = after_page cursor m.next (apply_manifest L (e ∷ es) s)

  process_manifest : ℤ → Option Manifest → Syncer S H D → Round S H D
  process_manifest cursor none s = returned (some manifest_failed) s
  process_manifest cursor (some m) s =
      if m.nuked && verify_nuke L cfg m
      then (let (e, s') = handle_nuke on_nuke s in returned (some e) s')
      else process_page cursor m m.entries s

  unfoldable pub pull_round : ℤ → Syncer S H D → Round S H D
  unfolding save_cursor after_page process_page process_manifest
  pull_round cursor s =
      let (m, hub) = H.manifest s.hub cursor manifest_limit in
      process_manifest cursor m (record s { hub = hub })

  -- The loop, on fuel; `none` means that the fuel ran out.
  unfoldable pub pull_loop : ℕ → ℤ → Syncer S H D → Option (Option SyncError × Syncer S H D)
  pull_loop zero cursor s = none
  pull_loop (suc fuel) cursor s = elim (pull_round cursor s) [
    | returned e s' ↦ some (e, s')
    | goes_on cursor' s' ↦ pull_loop fuel cursor' s'
  ]

  unfoldable pub pull : ℕ → Syncer S H D → Option (Option SyncError × Syncer S H D)
  unfolding load_cursor pull_round pull_loop
  pull fuel s = elim (load_cursor L (D.read s.disk)) [
    | none ↦ some (some cursor_failed, s)
    | some cursor ↦ pull_loop fuel cursor s
  ]

  -- `Sync`: a push, then a pull whatever the push reports; both errors are joined.
  unfoldable pub sync :
      ℕ → Syncer S H D → Option ((Option SyncError × Option SyncError) × Syncer S H D)
  unfolding push pull
  sync fuel s =
      let (push_err, s') = push L s in
      elim (pull fuel s') [ none ↦ none | some (pull_err, s'') ↦ some ((push_err, pull_err), s'') ]
