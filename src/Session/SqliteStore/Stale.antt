-- ===== src/Session/SqliteStore/Stale.antt =====
-- session/sqlite.go: `Latest` where the order of the time texts is not the order of the times.
use korai_sdk_go.Prelude.{
  ◌<◌, String, ◌≡◌, ◌≢◌, refl, true, some, List, [], ◌∷◌, eq_iff, arith, Option-cases, inl, inr,
}
use korai_sdk_go.Prelude.Sorting.{str_less, str_less-asym, sort_by, insert_sorted}
use korai_sdk_go.Session.{Session}
use korai_sdk_go.Session.FileStore.{Bytes, Codec}
use korai_sdk_go.Session.SqliteStore.{
  Row, Engine, RowLibrary, Database, upsert, where_cwd, by_updated, encode_messages, row_of,
  latest_row, save, latest,
}
use korai_sdk_go.Session.SqliteStore.Rows.{ReadsBack, IsReadable, scan_session-row_of}
use korai_sdk_go.Session.SqliteStore.Refined.{IsAtomic}

-- Two rows of one directory, the second with the smaller time text.
two_rows :
    (cwd : String) (a b : Row)
    → a.cwd ≡ cwd
    → b.cwd ≡ cwd
    → a.id ≢ b.id
    → str_less b.updated a.updated ≡ true
    → by_updated (where_cwd cwd (upsert b (a ∷ []))) ≡ a ∷ b ∷ []
unfolding upsert where_cwd by_updated sort_by insert_sorted
two_rows cwd a b p q apart less = ground (
  arith,
  p,
  q,
  apart,
  less,
  eq_iff a.id b.id,
  eq_iff a.cwd cwd,
  eq_iff b.cwd cwd,
  str_less-asym b.updated a.updated,
)

module _ (L : RowLibrary) (codec : Codec) (E : Engine) (readable : IsReadable L codec)
    (atomic : IsAtomic E) where
  query-save :
      (x : Session) (s : Database E) (rows : List Row)
      → E.query s.db ≡ some rows
      → (save L codec E x s).0 ≡ true
      → (b : Bytes) × (encode_messages L codec s.nonces x.messages ≡ some b)
        × (E.query (save L codec E x s).1.db ≡ some (upsert (row_of L codec x b) rows))
  unfolding save
  query-save x s rows there ok = elim (Option-cases (encode_messages L codec s.nonces x.messages)) [
    | inl e ↦ absurd (ground (arith, e))
    | inr (b, e) ↦ (
      b,
      e,
      rw (e, save)
          (atomic.query-exec s.db (upsert (row_of L codec x b)) rows there (rw (e, save) at ok)),
    )
  ]

  -- If statements are atomic and the codec decodes what it encoded: of two sessions of one directory
  -- saved with success to an empty table, the older one, whose JSON and times are read back as
  -- written, is the latest whenever the text of its time comes after the text of the later time.
  pub latest_stale :
      (old new : Session) (s : Database E)
      → ReadsBack L old
      → E.query s.db ≡ some []
      → old.cwd ≡ new.cwd
      → old.id ≢ new.id
      → old.updated < new.updated
      → str_less (L.format_time new.updated) (L.format_time old.updated) ≡ true
      → (save L codec E old s).0 ≡ true
      → (save L codec E new (save L codec E old s).1).0 ≡ true
      → latest L codec E (save L codec E new (save L codec E old s).1).1 new.cwd ≡ some (some old)
  unfolding latest latest_row upsert
  latest_stale old new s back empty same apart later text ok ok' =
      let (b, e, there) = query-save old s [] empty ok in
      let (b', e', there') =
        query-save new (save L codec E old s).1 (row_of L codec old b ∷ []) there ok' in
      rw
        (
          there',
          two_rows new.cwd (row_of L codec old b) (row_of L codec new b') same refl apart text,
          scan_session-row_of L codec readable s.nonces old b back e,
          latest,
          latest_row,
        )
        refl
