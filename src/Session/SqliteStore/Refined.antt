-- ===== src/Session/SqliteStore/Refined.antt =====
-- session/sqlite.go: the store against a map from ids to sessions.
use korai_sdk_go.Prelude.{
  String, ◌≡◌, refl, ap, ◌∙◌, Bool, true, false, Option, none, some, List, [], ◌∷◌, ◌==◌, All,
  Bool-cases, Option-cases, inl, inr, if◌then◌else◌,
}
use korai_sdk_go.Session.{Session}
use korai_sdk_go.Session.FileStore.{Codec}
use korai_sdk_go.Session.SqliteStore.{
  Row, Engine, RowLibrary, Database, upsert, delete_id, encode_messages, row_of, load_row, save,
  load, delete,
}
use korai_sdk_go.Session.SqliteStore.Rows.{
  stored, ReadsBack, IsReadable, IsScanned, All-upsert, All-delete_id, load_row-upsert,
  load_row-delete_id,
}

-- A statement takes effect as a whole when it reports success, and not at all when it fails.
pub record IsAtomic (E : Engine) : Type 0 where
  pub query-exec :
      (st : E.State) (f : List Row → List Row) (rows : List Row)
      → E.query st ≡ some rows
      → (E.exec st f).0 ≡ true
      → E.query (E.exec st f).1 ≡ some (f rows)
  pub query-exec_failed :
      (st : E.State) (f : List Row → List Row)
      → (E.exec st f).0 ≡ false
      → E.query (E.exec st f).1 ≡ E.query st

-- The operations that change the store.
pub data Op : Type 0 where
  save_op : Session → Op
  delete_op : String → Op

-- The sessions that are saved are read back from their JSON and times as written.
abbrev pub SavesReadBack : RowLibrary → List Op → Type 0
SavesReadBack L [] = Unit
SavesReadBack L (save_op x ∷ os) = ReadsBack L x × SavesReadBack L os
SavesReadBack L (delete_op id ∷ os) = SavesReadBack L os

-- A store that is a map. An operation that fails changes nothing.
unfoldable pub replay : List Op → List Bool → (String → Option Session) → String → Option Session
replay [] done m j = m j
replay (o ∷ os) [] m j = m j
replay (o ∷ os) (false ∷ done) m j = replay os done m j
replay (save_op x ∷ os) (true ∷ done) m j =
    replay os done (λ k. if x.id == k then some (stored x (m x.id)) else m k) j
replay (delete_op id ∷ os) (true ∷ done) m j = replay os done (λ k. if id == k then none else m k) j

replay-ap :
    (os : List Op) (done : List Bool) (m m' : String → Option Session)
    → ((k : String) → m k ≡ m' k)
    → (j : String) → replay os done m j ≡ replay os done m' j
unfolding replay
replay-ap [] done m m' h j = h j
replay-ap (o ∷ os) [] m m' h j = h j
replay-ap (save_op x ∷ os) (false ∷ done) m m' h j = replay-ap os done m m' h j
replay-ap (delete_op id ∷ os) (false ∷ done) m m' h j = replay-ap os done m m' h j
replay-ap (save_op x ∷ os) (true ∷ done) m m' h j =
    replay-ap os done _ _
      (λ k.
        ap (λ o. if x.id == k then some (stored x o) else m k) (h x.id)
        ∙ ap (λ o. if x.id == k then some (stored x (m' x.id)) else o) (h k))
      j
replay-ap (delete_op id ∷ os) (true ∷ done) m m' h j =
    replay-ap os done _ _ (λ k. ap (λ o. if id == k then none else o) (h k)) j

module _ (L : RowLibrary) (codec : Codec) (E : Engine) where
  unfoldable pub run_op : Op → Database E → Bool × Database E
  run_op (save_op x) s = save L codec E x s
  run_op (delete_op id) s = delete L codec E id s

  -- Whether each operation succeeded, and the store after the last.
  unfoldable pub run_ops : List Op → Database E → List Bool × Database E
  unfolding run_op
  run_ops [] s = ([], s)
  run_ops (o ∷ os) s =
      let (done, s') = run_op o s in let (rest, s'') = run_ops os s' in (done ∷ rest, s'')

  -- The database answers, and every row can be read.
  pub record IsOpen (db : E.State) : Type 0 where
    pub rows : List Row
    pub answers : E.query db ≡ some rows
    pub scanned : All (IsScanned L codec) rows

  pub load-IsOpen :
      (s : Database E) (o : IsOpen s.db) (j : String)
      → load L codec E s j ≡ load_row L codec j o.rows
  unfolding load
  load-IsOpen s o j = rw (o.answers, load) refl

  module _ (readable : IsReadable L codec) (atomic : IsAtomic E) where
    abbrev pub saved_as : Session → Database E → String → Option Session
    saved_as x s k =
        if x.id == k then some (stored x (load L codec E s x.id)) else load L codec E s k

    IsOpen-failed :
        (db : E.State) (f : List Row → List Row)
        → IsOpen db
        → (E.exec db f).0 ≡ false
        → IsOpen (E.exec db f).1
    IsOpen-failed db f o h = record {
      rows = o.rows;
      answers = atomic.query-exec_failed db f h ∙ o.answers;
      scanned = o.scanned;
    }

    -- A save of a session that is read back leaves the store open; if it succeeds the session is
    -- found under its id and the others are as before, and if it fails all are as before.
    pub save-IsOpen :
        (x : Session) (s : Database E)
        → ReadsBack L x
        → IsOpen s.db
        → IsOpen (save L codec E x s).1.db
          × ((j : String)
              → load L codec E (save L codec E x s).1 j
                ≡ (if (save L codec E x s).0 then saved_as x s j else load L codec E s j))
    unfolding save load
    save-IsOpen x s back o = elim (Option-cases (encode_messages L codec s.nonces x.messages)) [
      | inl e ↦ rw (e, save) (o, λ j. refl)
      | inr (b, e) ↦
          let f = upsert (row_of L codec x b) in
          elim (Bool-cases (E.exec s.db f).0) [
            | inr h ↦
                rw (e, h, save)
                  (IsOpen-failed s.db f o h, λ j. rw (atomic.query-exec_failed s.db f h, load) refl)
            | inl h ↦
                let there = atomic.query-exec s.db f o.rows o.answers h in
                rw (e, h, save)
                  (
                    record {
                      rows = f o.rows;
                      answers = there;
                      scanned = All-upsert L codec readable s.nonces x b o.rows back e o.scanned;
                    },
                    λ j.
                        rw (there, o.answers, load)
                          (load_row-upsert L codec readable j s.nonces x b o.rows back e o.scanned),
                  )
          ]
    ]

    pub delete-IsOpen :
        (id : String) (s : Database E)
        → IsOpen s.db
        → IsOpen (delete L codec E id s).1.db
          × ((j : String)
              → load L codec E (delete L codec E id s).1 j ≡ (
                  if (delete L codec E id s).0
                  then (if id == j then none else load L codec E s j)
                  else load L codec E s j))
    unfolding delete load
    delete-IsOpen id s o = elim (Bool-cases (E.exec s.db (delete_id id)).0) [
      | inr h ↦
          rw (h, delete)
            (
              IsOpen-failed s.db (delete_id id) o h,
              λ j. rw (atomic.query-exec_failed s.db (delete_id id) h, load) refl,
            )
      | inl h ↦
          let there = atomic.query-exec s.db (delete_id id) o.rows o.answers h in
          rw (h, delete)
            (
              record {
                rows = delete_id id o.rows;
                answers = there;
                scanned = All-delete_id L codec readable id o.rows o.scanned;
              },
              λ j. rw (there, o.answers, load) (load_row-delete_id L codec j id o.rows),
            )
    ]

    -- If statements are atomic, the codec decodes what it encoded, the saved sessions are read back
    -- from their JSON and times as written, and every row of the open store can be read: after any sequence of saves and deletes, each id loads what a map holds under it
    -- that starts from the loaded sessions and takes the operations that succeeded.
    pub run_ops-refines :
        (os : List Op) (s : Database E)
        → SavesReadBack L os
        → IsOpen s.db
        → (j : String)
        → load L codec E (run_ops os s).1 j ≡ replay os (run_ops os s).0 (load L codec E s) j
    unfolding run_ops run_op replay
    run_ops-refines [] s back o j = refl
    run_ops-refines (save_op x ∷ os) s (now_back, back) o j =
        let (o', now) = save-IsOpen x s now_back o in
        let later = run_ops-refines os (save L codec E x s).1 back o' j in
        elim (Bool-cases (save L codec E x s).0) [
          | inl h ↦ later ∙ replay-ap os _ _ _ (rw h at now) j ∙ rw (h, replay) refl
          | inr h ↦ later ∙ replay-ap os _ _ _ (rw h at now) j ∙ rw (h, replay) refl
        ]
    run_ops-refines (delete_op id ∷ os) s back o j =
        let (o', now) = delete-IsOpen id s o in
        let later = run_ops-refines os (delete L codec E id s).1 back o' j in
        elim (Bool-cases (delete L codec E id s).0) [
          | inl h ↦ later ∙ replay-ap os _ _ _ (rw h at now) j ∙ rw (h, replay) refl
          | inr h ↦ later ∙ replay-ap os _ _ _ (rw h at now) j ∙ rw (h, replay) refl
        ]
