-- ===== src/Synchub/OnSqlite.antt =====
-- sync.go over session/sqlite.go: the SQLite store as the store of a sync.
use korai_sdk_go.Prelude.{
  String, ◌≡◌, refl, ap, sym, ◌∙◌, true, none, some, ◌==◌, ◌||◌, eq_refl, arith, Bool-cases, inl,
  inr, if◌then◌else◌,
}
use korai_sdk_go.Session.{Session}
use korai_sdk_go.Session.FileStore.{Codec}
use korai_sdk_go.Session.SqliteStore.{Engine, RowLibrary, Database, save, load, list, delete}
use korai_sdk_go.Session.SqliteStore.Rows.{stored, ReadsBack, IsReadable, id-load_row}
use korai_sdk_go.Session.SqliteStore.Refined.{
  IsAtomic, IsOpen, load-IsOpen, save-IsOpen, delete-IsOpen,
}
use korai_sdk_go.Session.Merge.Fresh.{has_key, NodupKeys}
use korai_sdk_go.Synchub.{ManifestEntry, Store, Hub, Disk, Library, Syncer}
use korai_sdk_go.Synchub.Apply.{dated, apply_block, apply_tombstone}
use korai_sdk_go.Synchub.Apply.Block.{Delivered}
use korai_sdk_go.Synchub.Apply.Merged.{merged_into, apply_block_kept}

module _ (L : RowLibrary) (codec : Codec) (E : Engine) where
  abbrev pub sqlite_store : Store
  sqlite_store = record {
    State = Database E;
    list = list L codec E;
    load = load L codec E;
    save = λ s x. save L codec E x s;
    delete = some (λ s id. delete L codec E id s);
  }

  module _ {H : Hub} {D : Disk} (readable : IsReadable L codec) (atomic : IsAtomic E) where
    -- In an open SQLite store with atomic statements and a codec that decodes what it encoded, and
    -- if the merged session is read back and saving it succeeds, a delivered block of a stored
    -- session that holds no message twice leaves that session with exactly the messages of both,
    -- up to their keys.
    pub apply_block-sqlite :
        (Y : Library) (e : ManifestEntry) (s : Syncer sqlite_store H D) (remote local : Session)
        → IsOpen L codec E s.store.db
        → ReadsBack L (dated Y (merged_into Y local remote))
        → Delivered Y e s remote
        → load L codec E s.store e.item_id ≡ some local
        → NodupKeys Y.marshal_message local.messages
        → (save L codec E (dated Y (merged_into Y local remote)) s.store).0 ≡ true
        → ((apply_block Y e s).0 ≡ true)
          × ((y : Session) × (load L codec E (apply_block Y e s).1.store e.item_id ≡ some y)
              × ((k : String)
                  → has_key Y.marshal_message y.messages k ≡ (
                      has_key Y.marshal_message local.messages k
                      || has_key Y.marshal_message remote.messages k)))
    apply_block-sqlite Y e s remote local o back d l u ok =
        let x = dated Y (merged_into Y local remote) in
        let i =
          id-load_row L codec e.item_id o.rows local
            (sym (load-IsOpen L codec E s.store o e.item_id) ∙ l) in
        apply_block_kept Y e s remote local (stored x (some local)) d i l u ok
          ((save-IsOpen L codec E readable atomic x s.store back o).1 x.id
            ∙ rw (ok, eq_refl x.id)
                (ap (λ j. some (stored x (load L codec E s.store j))) i
                  ∙ ap (λ p. some (stored x p)) l))
          refl

    -- A tombstone that is applied with success to an open SQLite store with atomic statements
    -- removes the session of that id and no other.
    pub apply_tombstone-gone :
        (id : String) (s : Syncer sqlite_store H D) (j : String)
        → IsOpen L codec E s.store.db
        → (apply_tombstone id s).0 ≡ true
        → load L codec E (apply_tombstone id s).1.store j
          ≡ (if id == j then none else load L codec E s.store j)
    unfolding apply_tombstone
    apply_tombstone-gone id s j o ok = elim (Bool-cases (delete L codec E id s.store).0) [
      | inr e ↦ absurd (ground (arith, e))
      | inl e ↦
          rw (e, apply_tombstone)
            ((delete-IsOpen L codec E readable atomic id s.store o).1 j ∙ rw e refl)
    ]
