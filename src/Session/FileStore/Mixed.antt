-- ===== src/Session/FileStore/Mixed.antt =====
-- session/store.go: `Save` of a store with a codec on a file that was written without one.
use korai_sdk_go.Prelude.{
  ℕ, ◌+◌, String, ◌≡◌, refl, ap, sym, ◌∙◌, true, false, none, some, List, [], ◌∷◌, ◌++◌,
  append_assoc, drop, drop-length-append, length, length-append, ltb, All, All-append, arith,
  Bool-cases, Option-cases, inl, inr,
}
use korai_sdk_go.Session.{Session, SessionMessage}
use korai_sdk_go.Session.FileStore.{
  Bytes, Header, Codec, plain_codec, Directory, FileLibrary, file_name, Saving, lines_of, unlines,
  encode_message, write_messages, decode_message, decode_lines, load_lines, load, append_messages,
  save_over, save,
}
use korai_sdk_go.Session.FileStore.Lines.{
  NoNewline, IsLine, NoNewline-IsLine, lines_of-unlines, unlines-append,
}
use korai_sdk_go.Session.FileStore.Held.{
  IsDirectory, Holds, Holds-lines, Holds-kept, count_messages-Holds, read_header-lem, read-written,
}

module _ (L : FileLibrary) (codec : Codec) where
  -- A line that cannot be decoded fails the whole file.
  decode_lines-fails :
      (c : Codec) (before : List Bytes) (l : Bytes) (after : List Bytes)
      → IsLine l
      → decode_message L codec c l ≡ none
      → decode_lines L codec c (before ++ l ∷ after) ≡ none
  unfolding decode_lines
  decode_lines-fails c [] [] after a h = absurd a
  decode_lines-fails c [] (b ∷ bs) after a h = rw (h, decode_lines) refl
  decode_lines-fails c ([] ∷ before) l after a h = decode_lines-fails c before l after a h
  decode_lines-fails c ((b ∷ bs) ∷ before) l after a h =
      elim (Option-cases (decode_message L codec c (b ∷ bs))) [
        | inl e ↦ rw (e, decode_lines) refl
        | inr (m, e) ↦ rw (e, decode_lines-fails c before l after a h, decode_lines) refl
      ]

  first-write_messages :
      (m : SessionMessage) (ms : List SessionMessage) (n : ℕ)
      → (write_messages L codec (m ∷ ms) n).1 ≡ true
      → (l : Bytes) × (encode_message L codec n m ≡ some l)
        × ((write_messages L codec (m ∷ ms) n).0 ≡ l ∷ (write_messages L codec ms (n + 1)).0)
  unfolding write_messages
  first-write_messages m ms n h = elim (Option-cases (encode_message L codec n m)) [
    | inl e ↦ absurd (ground (arith, e))
    | inr (l, e) ↦ (l, e, rw (e, write_messages) refl)
  ]

  encoded-encode_message :
      (n : ℕ) (m : SessionMessage) (l : Bytes)
      → encode_message L codec n m ≡ some l
      → (b : Bytes) × (codec.encode n b ≡ some l)
  unfolding encode_message
  encoded-encode_message n m l h = elim (Option-cases (L.marshal_message m)) [
    | inl e ↦ absurd (ground (arith, e))
    | inr (b, e) ↦ (b, ground (arith, e))
  ]

  -- What the codec writes is no JSON: it is a line, and it has no field `kind`.
  abbrev pub IsSealed : Type 0
  IsSealed =
      (n : ℕ) (b l : Bytes) → codec.encode n b ≡ some l → IsLine l × (L.unmarshal_kind l ≡ none)

  clean-write_messages :
      IsSealed → (ms : List SessionMessage) (n : ℕ) → All NoNewline (write_messages L codec ms n).0
  unfolding write_messages
  clean-write_messages closed [] n = tt
  clean-write_messages closed (m ∷ ms) n = elim (Option-cases (encode_message L codec n m)) [
    | inl e ↦ rw (e, write_messages) tt
    | inr (l, e) ↦
        let (b, q) = encoded-encode_message n m l e in
        rw (e, write_messages)
          (NoNewline-IsLine l (closed n b l q).0, clean-write_messages closed ms (n + 1))
  ]

  sealed-decode_message :
      (l : Bytes) → L.unmarshal_kind l ≡ none → decode_message L codec plain_codec l ≡ none
  unfolding decode_message
  sealed-decode_message l h = rw (h, decode_message) refl

  module _ (F : Directory) (lawful : IsDirectory F) where
    load-append_messages :
        (id : String) (h : Header) (old added : List SessionMessage) (m : SessionMessage)
        (s : Saving F)
        → IsSealed
        → Holds L plain_codec F s.dir id h old
        → h.enc ≡ "none"
        → (append_messages L codec F (file_name id) (m ∷ added) s).0 ≡ true
        → load L codec F (append_messages L codec F (file_name id) (m ∷ added) s).1 id ≡ none
    unfolding append_messages load load_lines
    load-append_messages id h old added m s closed x plain ok =
        let out = write_messages L codec (m ∷ added) s.nonces in
        let (all, (t, there)) =
          read-written L codec F lawful (file_name id) out.0 out.1 out.2 s.dir
            (unlines (x.first ∷ x.lines)) x.modified x.read ok in
        let (l, e, front) = first-write_messages m added s.nonces all in
        let (b, q) = encoded-encode_message s.nonces m l e in
        let (line, unkind) = closed s.nonces b l q in
        let clean : All NoNewline (x.first ∷ (x.lines ++ out.0)) =
          All-append NoNewline (x.first ∷ x.lines) out.0
            (Holds-lines L plain_codec F s.dir id h old x)
            (clean-write_messages closed (m ∷ added) s.nonces) in
        let text : lines_of (unlines (x.first ∷ x.lines) ++ unlines out.0)
            ≡ x.first ∷ ((x.lines ++ out.0) ++ [] ∷ []) =
          ap lines_of (sym (unlines-append (x.first ∷ x.lines) out.0))
          ∙ lines_of-unlines (x.first ∷ (x.lines ++ out.0)) clean in
        let broken : decode_lines L codec plain_codec ((x.lines ++ out.0) ++ [] ∷ []) ≡ none =
          ap (λ ls. decode_lines L codec plain_codec ((x.lines ++ ls) ++ [] ∷ [])) front
          ∙ ap (decode_lines L codec plain_codec)
              (append_assoc x.lines (l ∷ (write_messages L codec added (s.nonces + 1)).0) ([] ∷ []))
          ∙ decode_lines-fails plain_codec x.lines l _ line (sealed-decode_message l unkind) in
        rw
          (
            there,
            text,
            read_header-lem L codec F x.first h x.line x.header x.kind,
            plain,
            broken,
            load,
            load_lines,
          )
          refl

    -- A store whose codec gives lines that are no JSON, on a file system that does what it
    -- reports, and a file that was written without a codec: after a save that appends messages to
    -- it with success, the session cannot be loaded.
    pub load-save_mixed :
        (x : Session) (s : Saving F) (h : Header) (old added : List SessionMessage)
        (m : SessionMessage)
        → IsSealed
        → Holds L plain_codec F s.dir x.id h old
        → h.enc ≡ "none"
        → x.messages ≡ old ++ m ∷ added
        → (save L codec F x s).0 ≡ true
        → load L codec F (save L codec F x s).1 x.id ≡ none
    unfolding save save_over
    load-save_mixed x s h old added m closed held plain longer ok =
        elim (Bool-cases (F.mkdir_all s.dir).0) [
          | inr e ↦ absurd (ground (arith, e))
          | inl e ↦
              let s' = record s { dir = (F.mkdir_all s.dir).1 } in
              let same = lawful.read-mkdir_all s.dir (file_name x.id) e in
              let held' = Holds-kept L plain_codec F s.dir s'.dir x.id h old same held in
              let n = count_messages-Holds L plain_codec F s'.dir x.id h old held' in
              let more : ltb (length x.messages) (length old) ≡ false =
                ground (arith, longer, length-append old (m ∷ added)) in
              let rest : drop (length old) x.messages ≡ m ∷ added =
                ap (drop (length old)) longer ∙ drop-length-append old (m ∷ added) in
              rw (e, held'.read, n, more, rest, save, save_over)
                (load-append_messages x.id h old added m s' closed held' plain
                  (rw (e, held'.read, n, more, rest, save, save_over) at ok))
        ]
