-- ===== src/Session/SqliteStore.antt =====
-- session/sqlite.go: the store that keeps each session in a row of an SQLite table.
-- A statement is the function on the rows of `sessions` that its SQL text says; the engine that
-- runs it is a parameter. SQLite leaves the order of rows with equal keys open; here it is kept.
pub mod Rows
pub mod Refined
pub mod Stale
use korai_sdk_go.Prelude.{
  ℕ, ◌+◌, String, Bool, false, Option, none, some, List, [], ◌∷◌, ◌||◌, ◌==◌, if◌then◌else◌,
}
use korai_sdk_go.Prelude.Sorting.{sort_by, str_less}
use korai_sdk_go.Session.{Session, SessionMessage}
use korai_sdk_go.Session.FileStore.{Bytes, Codec, plain_codec}

-- The columns of the table.
pub record Row : Type 0 where
  pub id : String
  pub created : String
  pub updated : String
  pub cwd : String
  pub model : String
  pub tool : String
  pub enc : String
  pub messages : Bytes

-- `database/sql` with its driver: a statement that changes the rows, which may fail, and the rows
-- that a query selects from, `none` for an error.
pub record Engine : Type 1 where
  pub State : Type 0
  pub exec : State → (List Row → List Row) → Bool × State
  pub query : State → Option (List Row)

-- `encoding/json` on the message list, `Format` and `Parse` of package `time` with RFC3339Nano.
pub record RowLibrary : Type 0 where
  pub marshal_messages : List SessionMessage → Option Bytes
  pub unmarshal_messages : Bytes → Option (List SessionMessage)
  pub format_time : ℕ → String
  pub parse_time : String → Option ℕ

-- The state of the database, and the number of calls of `encodeMessages`, for fresh nonces.
pub record Database (E : Engine) : Type 0 where
  pub db : E.State
  pub nonces : ℕ

-- ON CONFLICT(id) DO UPDATE: all columns but `created`, and `id`, which is the same.
unfoldable pub updated_row : Row → Row → Row
updated_row old excluded = record excluded { created = old.created }

-- INSERT ... ON CONFLICT(id) DO UPDATE
unfoldable pub upsert : Row → List Row → List Row
unfolding updated_row
upsert r [] = r ∷ []
upsert r (q ∷ qs) = if q.id == r.id then updated_row q r ∷ qs else q ∷ upsert r qs

-- SELECT ... WHERE id = ?
unfoldable pub select_id : String → List Row → Option Row
select_id id [] = none
select_id id (q ∷ qs) = if q.id == id then some q else select_id id qs

-- DELETE ... WHERE id = ?
unfoldable pub delete_id : String → List Row → List Row
delete_id id [] = []
delete_id id (q ∷ qs) = let rest = delete_id id qs in if q.id == id then rest else q ∷ rest

-- WHERE cwd = ?
unfoldable pub where_cwd : String → List Row → List Row
where_cwd cwd [] = []
where_cwd cwd (q ∷ qs) = let rest = where_cwd cwd qs in if q.cwd == cwd then q ∷ rest else rest

-- ORDER BY updated DESC, on the texts.
abbrev pub later : Row → Row → Bool
later q r = str_less r.updated q.updated

unfoldable pub by_updated : List Row → List Row
by_updated rows = sort_by later rows

module _ (L : RowLibrary) (codec : Codec) where
  unfoldable pub codec_for : String → Option Codec
  codec_for name =
      if name == "" || name == "none"
      then some plain_codec
      else if codec.name == name
      then some codec
      else none

  unfoldable pub encode_messages : ℕ → List SessionMessage → Option Bytes
  encode_messages n msgs = elim (L.marshal_messages msgs) [
    | none ↦ none
    | some data' ↦ codec.encode n data'
  ]

  unfoldable pub decode_messages : String → Bytes → Option (List SessionMessage)
  unfolding codec_for
  decode_messages enc stored = elim (codec_for enc) [
    | none ↦ none
    | some c ↦ elim (c.decode stored) [ none ↦ none | some plain ↦ L.unmarshal_messages plain ]
  ]

  abbrev pub row_of : Session → Bytes → Row
  row_of x blob = record {
    id = x.id;
    created = L.format_time x.created;
    updated = L.format_time x.updated;
    cwd = x.cwd;
    model = x.model;
    tool = x.tool;
    enc = codec.name;
    messages = blob;
  }

  abbrev pub scanned : Row → ℕ → ℕ → List SessionMessage → Session
  scanned r created updated msgs = record {
    id = r.id;
    created = created;
    updated = updated;
    cwd = r.cwd;
    model = r.model;
    tool = r.tool;
    messages = msgs;
  }

  unfoldable pub scan_session : Row → Option Session
  unfolding decode_messages
  scan_session r = elim (L.parse_time r.created) [
    | none ↦ none
    | some c ↦ elim (L.parse_time r.updated) [
      | none ↦ none
      | some u ↦ elim (decode_messages r.enc r.messages) [
        | none ↦ none
        | some msgs ↦ some (scanned r c u msgs)
      ]
    ]
  ]

  -- The loop of `List`, which skips the rows that cannot be read.
  unfoldable pub scan_rows : List Row → List Session
  unfolding scan_session
  scan_rows [] = []
  scan_rows (r ∷ rs) =
      let rest = scan_rows rs in elim (scan_session r) [ none ↦ rest | some x ↦ x ∷ rest ]

  -- Load's query on the rows.
  unfoldable pub load_row : String → List Row → Option Session
  unfolding scan_session select_id
  load_row id rows = elim (select_id id rows) [ none ↦ none | some r ↦ scan_session r ]

  -- `none` for an error, `some none` if no session has this directory.
  unfoldable pub latest_row : List Row → Option (Option Session)
  unfolding scan_session
  latest_row [] = some none
  latest_row (r ∷ rs) = elim (scan_session r) [ none ↦ none | some x ↦ some (some x) ]

  module _ (E : Engine) where
    unfoldable pub save : Session → Database E → Bool × Database E
    unfolding encode_messages upsert
    save x s = elim (encode_messages s.nonces x.messages) [
      | none ↦ (false, record s { nonces = s.nonces + 1 })
      | some blob ↦
          let (done, db) = E.exec s.db (upsert (row_of x blob)) in
          (done, record { db = db; nonces = s.nonces + 1 })
    ]

    -- `none` for an error, also where no row has the id.
    unfoldable pub load : Database E → String → Option Session
    unfolding load_row
    load s id = elim (E.query s.db) [ none ↦ none | some rows ↦ load_row id rows ]

    unfoldable pub list : Database E → Option (List Session)
    unfolding scan_rows by_updated
    list s = elim (E.query s.db) [ none ↦ none | some rows ↦ some (scan_rows (by_updated rows)) ]

    unfoldable pub delete : String → Database E → Bool × Database E
    unfolding delete_id
    delete id s = let (done, db) = E.exec s.db (delete_id id) in (done, record s { db = db })

    unfoldable pub latest : Database E → String → Option (Option Session)
    unfolding latest_row by_updated where_cwd
    latest s cwd = elim (E.query s.db) [
      | none ↦ none
      | some rows ↦ latest_row (by_updated (where_cwd cwd rows))
    ]
