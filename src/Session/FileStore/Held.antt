-- ===== src/Session/FileStore/Held.antt =====
-- session/store.go: what a file of the store holds, and what `Load` makes of it.
use korai_sdk_go.Prelude.{
  ℕ, String, ◌≡◌, refl, ◌∙◌, Bool, true, false, some, List, [], ◌∷◌, ◌++◌, length, All, arith,
}
use korai_sdk_go.Session.{SessionMessage}
use korai_sdk_go.Session.FileStore.{
  Bytes, Header, Codec, file, Directory, FileLibrary, file_name, Saving, count_messages, unlines,
  codec_for, read_header, loaded, load_lines, load, written,
}
use korai_sdk_go.Session.FileStore.Lines.{
  NoNewline, IsLine, NoNewline-IsLine, lines_of-unlines, count_newlines-unlines,
}
use korai_sdk_go.Session.FileStore.Saved.{
  Encodes, NoNewline-Encodes, length-Encodes, decode_lines-Encodes,
}

-- What the store relies on in a file system: the operations that succeed do what they say.
pub record IsDirectory (F : Directory) : Type 0 where
  pub read-mkdir_all :
      (st : F.State) (name : String)
      → (F.mkdir_all st).0 ≡ true
      → F.read (F.mkdir_all st).1 name ≡ F.read st name
  pub read-create :
      (st : F.State) (name : String)
      → (F.create st name).0 ≡ true
      → (t : ℕ) × (F.read (F.create st name).1 name ≡ file [] t)
  pub read-chmod :
      (st : F.State) (name : String)
      → (F.chmod st name).0 ≡ true
      → F.read (F.chmod st name).1 name ≡ F.read st name
  pub read-write :
      (st : F.State) (name : String) (b added : Bytes) (t : ℕ)
      → F.read st name ≡ file b t
      → (F.write st name added).0 ≡ true
      → (t' : ℕ) × (F.read (F.write st name added).1 name ≡ file (b ++ added) t')

module _ (L : FileLibrary) (codec : Codec) (F : Directory) where
  -- The file of the session has this header, and lines that hold these messages.
  pub record Holds (st : F.State) (id : String) (h : Header) (ms : List SessionMessage)
      : Type 0 where
    pub first : Bytes
    pub lines : List Bytes
    pub modified : ℕ
    pub read : F.read st (file_name id) ≡ file (unlines (first ∷ lines)) modified
    pub line : IsLine first
    pub header : L.unmarshal_header first ≡ some h
    pub kind : h.kind ≡ "header"
    pub named : codec_for L codec h.enc ≡ some codec
    pub encodes : Encodes L codec lines ms

  pub Holds-lines :
      (st : F.State) (id : String) (h : Header) (ms : List SessionMessage) (x : Holds st id h ms)
      → All NoNewline (x.first ∷ x.lines)
  Holds-lines st id h ms x =
      (NoNewline-IsLine x.first x.line, NoNewline-Encodes L codec x.lines ms x.encodes)

  pub Holds-kept :
      (st st' : F.State) (id : String) (h : Header) (ms : List SessionMessage)
      → F.read st' (file_name id) ≡ F.read st (file_name id)
      → Holds st id h ms
      → Holds st' id h ms
  Holds-kept st st' id h ms q x = record {
    first = x.first;
    lines = x.lines;
    modified = x.modified;
    read = q ∙ x.read;
    line = x.line;
    header = x.header;
    kind = x.kind;
    named = x.named;
    encodes = x.encodes;
  }

  pub count_messages-Holds :
      (st : F.State) (id : String) (h : Header) (ms : List SessionMessage) (x : Holds st id h ms)
      → count_messages (unlines (x.first ∷ x.lines)) ≡ length ms
  count_messages-Holds st id h ms x = omega (
    arith,
    count_newlines-unlines (x.first ∷ x.lines) (Holds-lines st id h ms x),
    length-Encodes L codec x.lines ms x.encodes,
  )

  pub read_header-lem :
      (l : Bytes) (h : Header)
      → IsLine l
      → L.unmarshal_header l ≡ some h
      → h.kind ≡ "header"
      → read_header L codec l ≡ some h
  unfolding read_header
  read_header-lem [] h a b c = absurd a
  read_header-lem (x ∷ xs) h a b c = rw (b, c, read_header) refl

  pub load-Holds :
      (s : Saving F) (id : String) (h : Header) (ms : List SessionMessage)
      → Holds s.dir id h ms
      → (t : ℕ) × (load L codec F s id ≡ some (loaded L codec h t ms))
  unfolding load load_lines
  load-Holds s id h ms x = (
    x.modified,
    rw
        (
          x.read,
          lines_of-unlines (x.first ∷ x.lines) (Holds-lines s.dir id h ms x),
          read_header-lem x.first h x.line x.header x.kind,
          x.named,
          decode_lines-Encodes L codec x.lines ms x.encodes,
          load,
          load_lines,
        )
        refl,
  )

module _ (L : FileLibrary) (codec : Codec) (F : Directory) (lawful : IsDirectory F) where
  -- Lines flushed to the end of a file.
  pub read-written :
      (name : String) (lines : List Bytes) (done : Bool) (n : ℕ) (st : F.State) (b : Bytes) (t : ℕ)
      → F.read st name ≡ file b t
      → (written L codec F name lines done n st).0 ≡ true
      → (done ≡ true)
        × ((t' : ℕ) × (F.read (written L codec F name lines done n st).1.dir name
              ≡ file (b ++ unlines lines) t'))
  unfolding written
  read-written name lines true n st b t r h =
      (refl, lawful.read-write st name b (unlines lines) t r h)
  read-written name lines false n st b t r h = absurd (ground (arith, h))
