-- ===== src/Session/SqliteStore/Rows.antt =====
-- session/sqlite.go: what a statement of the store does to the rows, and what is read from them.
use korai_sdk_go.Prelude.{
  ℕ, String, ◌≡◌, refl, Option, none, some, List, [], ◌∷◌, ◌==◌, eq_iff, All, arith, Bool-cases,
  Option-cases, inl, inr, if◌then◌else◌,
}
use korai_sdk_go.Session.{Session}
use korai_sdk_go.Session.FileStore.{Bytes, Codec}
use korai_sdk_go.Session.SqliteStore.{
  Row, RowLibrary, updated_row, upsert, select_id, delete_id, codec_for, encode_messages,
  decode_messages, row_of, scan_session, load_row,
}

-- The row that an upsert leaves under its id.
abbrev pub merged : Row → Option Row → Row
merged r none = r
merged r (some q) = updated_row q r

pub select_id-upsert :
    (j : String) (r : Row) (rows : List Row)
    → select_id j (upsert r rows)
      ≡ (if r.id == j then some (merged r (select_id r.id rows)) else select_id j rows)
unfolding upsert select_id updated_row
select_id-upsert j r [] = refl
select_id-upsert j r (q ∷ qs) =
    ground (arith, eq_iff q.id r.id, eq_iff r.id j, eq_iff q.id j, select_id-upsert j r qs)

pub select_id-delete_id :
    (j id : String) (rows : List Row)
    → select_id j (delete_id id rows) ≡ (if id == j then none else select_id j rows)
unfolding delete_id select_id
select_id-delete_id j id [] = ground arith
select_id-delete_id j id (q ∷ qs) =
    ground (arith, eq_iff q.id id, eq_iff id j, eq_iff q.id j, select_id-delete_id j id qs)

-- What the abstract store keeps of a save: the creation time of a session that it has already.
abbrev pub stored : Session → Option Session → Session
stored x none = x
stored x (some y) = record x { created = y.created }

-- The times of the session and the JSON of its messages are read back as written. This fails for a
-- message with a nil block, or with a tool input that JSON writes in another way.
pub record ReadsBack (L : RowLibrary) (x : Session) : Type 0 where
  pub messages :
      (b : Bytes)
      → L.marshal_messages x.messages ≡ some b
      → L.unmarshal_messages b ≡ some x.messages
  pub created : L.parse_time (L.format_time x.created) ≡ some x.created
  pub updated : L.parse_time (L.format_time x.updated) ≡ some x.updated

module _ (L : RowLibrary) (codec : Codec) where
  -- What is encoded decodes, and the codec is found under its name.
  pub record IsReadable : Type 0 where
    pub decode-encode : (n : ℕ) (b c : Bytes) → codec.encode n b ≡ some c → codec.decode c ≡ some b
    pub codec_for-name : codec_for L codec codec.name ≡ some codec

  -- A row that can be read.
  abbrev pub IsScanned : Row → Type 0
  IsScanned r = (x : Session) × (scan_session L codec r ≡ some x)

  module _ (readable : IsReadable) where
    decode_messages-encode_messages :
        (n : ℕ) (x : Session) (b : Bytes)
        → ReadsBack L x
        → encode_messages L codec n x.messages ≡ some b
        → decode_messages L codec codec.name b ≡ some x.messages
    unfolding encode_messages decode_messages
    decode_messages-encode_messages n x b back h =
        elim (Option-cases (L.marshal_messages x.messages)) [
          | inl e ↦ absurd (ground (arith, e))
          | inr (d, e) ↦
              let q : codec.encode n d ≡ some b = rw (e, encode_messages) at h in
              rw
                (
                  readable.codec_for-name,
                  readable.decode-encode n d b q,
                  back.messages d e,
                  decode_messages,
                )
                refl
        ]

    pub scan_session-row_of :
        (n : ℕ) (x : Session) (b : Bytes)
        → ReadsBack L x
        → encode_messages L codec n x.messages ≡ some b
        → scan_session L codec (row_of L codec x b) ≡ some x
    unfolding scan_session
    scan_session-row_of n x b back h =
        rw (back.created, back.updated, decode_messages-encode_messages n x b back h, scan_session)
          refl

    scan_session-updated_row :
        (n : ℕ) (x y : Session) (b : Bytes) (q : Row)
        → ReadsBack L x
        → encode_messages L codec n x.messages ≡ some b
        → scan_session L codec q ≡ some y
        → scan_session L codec (updated_row q (row_of L codec x b)) ≡ some (stored x (some y))
    unfolding scan_session updated_row
    scan_session-updated_row n x y b q back h k =
        ground (arith, h, k, back.updated, decode_messages-encode_messages n x b back h)

    pub All-upsert :
        (n : ℕ) (x : Session) (b : Bytes) (rows : List Row)
        → ReadsBack L x
        → encode_messages L codec n x.messages ≡ some b
        → All IsScanned rows
        → All IsScanned (upsert (row_of L codec x b) rows)
    unfolding upsert
    All-upsert n x b [] back h all = ((x, scan_session-row_of n x b back h), tt)
    All-upsert n x b (q ∷ qs) back h ((y, k), all) = elim (Bool-cases (q.id == x.id)) [
      | inl e ↦
          rw (e, upsert) ((stored x (some y), scan_session-updated_row n x y b q back h k), all)
      | inr e ↦ rw (e, upsert) ((y, k), All-upsert n x b qs back h all)
    ]

    pub All-delete_id :
        (id : String) (rows : List Row) → All IsScanned rows → All IsScanned (delete_id id rows)
    unfolding delete_id
    All-delete_id id [] all = tt
    All-delete_id id (q ∷ qs) (y, all) = elim (Bool-cases (q.id == id)) [
      | inl e ↦ rw (e, delete_id) (All-delete_id id qs all)
      | inr e ↦ rw (e, delete_id) (y, All-delete_id id qs all)
    ]

    select_id-IsScanned :
        (j : String) (rows : List Row) (r : Row)
        → All IsScanned rows
        → select_id j rows ≡ some r
        → IsScanned r
    unfolding select_id
    select_id-IsScanned j [] r all h = absurd (ground (arith, h))
    select_id-IsScanned j (q ∷ qs) r ((y, k), all) h = elim (Bool-cases (q.id == j)) [
      | inl e ↦ (y, ground (arith, e, h, k))
      | inr e ↦ select_id-IsScanned j qs r all (rw (e, select_id) at h)
    ]

    scan_session-merged :
        (n : ℕ) (x : Session) (b : Bytes) (rows : List Row)
        → ReadsBack L x
        → encode_messages L codec n x.messages ≡ some b
        → All IsScanned rows
        → scan_session L codec (merged (row_of L codec x b) (select_id x.id rows))
          ≡ some (stored x (load_row L codec x.id rows))
    unfolding load_row
    scan_session-merged n x b rows back h all = elim (Option-cases (select_id x.id rows)) [
      | inl e ↦ rw (e, load_row) (scan_session-row_of n x b back h)
      | inr (q, e) ↦
          let (y, k) = select_id-IsScanned x.id rows q all e in
          rw (e, k, load_row) (scan_session-updated_row n x y b q back h k)
    ]

    pub load_row-upsert :
        (j : String) (n : ℕ) (x : Session) (b : Bytes) (rows : List Row)
        → ReadsBack L x
        → encode_messages L codec n x.messages ≡ some b
        → All IsScanned rows
        → load_row L codec j (upsert (row_of L codec x b) rows) ≡ (
            if x.id == j
            then some (stored x (load_row L codec x.id rows))
            else load_row L codec j rows)
    unfolding load_row
    load_row-upsert j n x b rows back h all = elim (Bool-cases (x.id == j)) [
      | inl e ↦
          rw (select_id-upsert j (row_of L codec x b) rows, e, load_row)
            (scan_session-merged n x b rows back h all)
      | inr e ↦ rw (select_id-upsert j (row_of L codec x b) rows, e, load_row) refl
    ]

  pub load_row-delete_id :
      (j id : String) (rows : List Row)
      → load_row L codec j (delete_id id rows) ≡ (if id == j then none else load_row L codec j rows)
  unfolding load_row
  load_row-delete_id j id rows = ground (arith, select_id-delete_id j id rows)

  pub id-load_row :
      (j : String) (rows : List Row) (x : Session) → load_row L codec j rows ≡ some x → x.id ≡ j
  unfolding load_row scan_session select_id
  id-load_row j [] x h = absurd (ground (arith, h))
  id-load_row j (q ∷ qs) x h = ground (arith, h, eq_iff q.id j, id-load_row j qs x)
