-- ===== src/Session/FileStore.antt =====
-- session/store.go and session/codec.go: the store that keeps each session in a JSONL file.
-- The directory of the store is a record of operations over a state; a file is its bytes and its
-- time of modification. `true`, `some` and `false`, `none` tell success from an error.
pub mod Lines
pub mod Saved
pub mod Held
pub mod Loaded
pub mod Mixed
pub mod Listing
pub mod Newest
use korai_sdk_go.Prelude.{
  ℕ, zero, suc, ◌+◌, ◌-◌, String, Bool, true, false, Option, none, some, List, [], ◌∷◌, ◌++◌, drop,
  length, ltb, nat_eq, not, ◌||◌, ◌<>◌, ◌==◌, if◌then◌else◌,
}
use korai_sdk_go.Session.{Session, SessionMessage}

abbrev pub Bytes : Type 0
Bytes = List ℕ

-- A line feed.
abbrev pub newline : ℕ
newline = 0x0a

pub record Header : Type 0 where
  pub kind : String
  pub version : ℕ
  pub id : String
  pub created : ℕ
  pub cwd : String
  pub model : String
  pub tool : String
  pub enc : String

-- `encode` takes the number of the call, for its fresh nonce.
pub record Codec : Type 0 where
  pub name : String
  pub encode : ℕ → Bytes → Option Bytes
  pub decode : Bytes → Option Bytes

abbrev pub plain_codec : Codec
plain_codec = record { name = "none"; encode = λ n b. some b; decode = λ b. some b }

pub data FileRead : Type 0 where
  missing unreadable : FileRead
  file : Bytes → ℕ → FileRead

-- `create` opens with O_CREATE and O_TRUNC, `write` adds bytes at the end. `passed_on` is what a
-- `bufio.Writer` has written of these lines when it is dropped without `Flush`.
pub record Directory : Type 1 where
  pub State : Type 0
  pub mkdir_all : State → Bool × State
  pub read : State → String → FileRead
  pub create : State → String → Bool × State
  pub chmod : State → String → Bool × State
  pub write : State → String → Bytes → Bool × State
  pub passed_on : List Bytes → Bytes

-- `encoding/json` on headers and messages, and the `kind` field of a stored line.
pub record FileLibrary : Type 0 where
  pub marshal_header : Header → Option Bytes
  pub unmarshal_header : Bytes → Option Header
  pub marshal_message : SessionMessage → Option Bytes
  pub unmarshal_message : Bytes → Option SessionMessage
  pub unmarshal_kind : Bytes → Option String

abbrev pub file_name : String → String
file_name id = id <> ".jsonl"

-- The state of the directory, and the number of calls of `Encode`.
pub record Saving (F : Directory) : Type 0 where
  pub dir : F.State
  pub nonces : ℕ

unfoldable pub count_newlines : Bytes → ℕ
count_newlines [] = 0
count_newlines (c ∷ cs) =
    let rest = count_newlines cs in if nat_eq c newline then suc rest else rest

-- `countMessages` of a file that can be read.
abbrev pub count_messages : Bytes → ℕ
count_messages b = count_newlines b - 1

-- The lines of a file, the last one without a line feed.
unfoldable pub lines_of : Bytes → List Bytes
lines_of [] = [] ∷ []
lines_of (c ∷ cs) = let rest = lines_of cs in if nat_eq c newline then [] ∷ rest else front c rest
  where
    front : ℕ → List Bytes → List Bytes
    front c [] = (c ∷ []) ∷ []
    front c (l ∷ ls) = (c ∷ l) ∷ ls

unfoldable pub unlines : List Bytes → Bytes
unlines [] = []
unlines (l ∷ ls) = l ++ (newline ∷ unlines ls)

module _ (L : FileLibrary) (codec : Codec) where
  -- The header of a new file.
  abbrev pub header_of : Session → Header
  header_of x = record {
    kind = "header";
    version = 1;
    id = x.id;
    created = x.created;
    cwd = x.cwd;
    model = x.model;
    tool = x.tool;
    enc = codec.name;
  }

  -- `writeMessage` up to its line.
  unfoldable pub encode_message : ℕ → SessionMessage → Option Bytes
  encode_message n m = elim (L.marshal_message m) [
    | none ↦ none
    | some data' ↦ codec.encode n data'
  ]

  -- The lines written before the first error, whether all are, and the calls of `Encode`.
  unfoldable pub write_messages : List SessionMessage → ℕ → List Bytes × Bool × ℕ
  unfolding encode_message
  write_messages [] n = ([], true, n)
  write_messages (m ∷ ms) n =
      let (lines, done, n') = write_messages ms (n + 1) in
      elim (encode_message n m) [ none ↦ ([], false, n + 1) | some line ↦ (line ∷ lines, done, n') ]

  unfoldable pub codec_for : String → Option Codec
  codec_for name =
      if name == "" || name == "none"
      then some plain_codec
      else if codec.name == name
      then some codec
      else none

  unfoldable pub decode_message : Codec → Bytes → Option SessionMessage
  decode_message c line = elim (c.decode line) [
    | none ↦ none
    | some plain ↦ elim (L.unmarshal_kind plain) [
      | none ↦ none
      | some kind ↦ if kind == "header" then none else L.unmarshal_message plain
    ]
  ]

  -- The loop of `Load`, which skips empty lines.
  unfoldable pub decode_lines : Codec → List Bytes → Option (List SessionMessage)
  unfolding decode_message
  decode_lines c [] = some []
  decode_lines c ([] ∷ lines) = decode_lines c lines
  decode_lines c ((b ∷ bs) ∷ lines) =
      let rest = decode_lines c lines in
      elim (decode_message c (b ∷ bs)) [
        | none ↦ none
        | some m ↦ elim rest [ none ↦ none | some ms ↦ some (m ∷ ms) ]
      ]

  unfoldable pub read_header : Bytes → Option Header
  read_header [] = none
  read_header (b ∷ bs) = elim (L.unmarshal_header (b ∷ bs)) [
    | none ↦ none
    | some h ↦ if not (h.kind == "header") then none else some h
  ]

  abbrev pub loaded : Header → ℕ → List SessionMessage → Session
  loaded h modified ms = record {
    id = h.id;
    created = h.created;
    updated = modified;
    cwd = h.cwd;
    model = h.model;
    tool = h.tool;
    messages = ms;
  }

  unfoldable pub load_lines : ℕ → List Bytes → Option Session
  unfolding decode_lines read_header codec_for
  load_lines modified [] = none
  load_lines modified (first ∷ lines) = elim (read_header first) [
    | none ↦ none
    | some h ↦ elim (codec_for h.enc) [
      | none ↦ none
      | some c ↦ elim (decode_lines c lines) [ none ↦ none | some ms ↦ some (loaded h modified ms) ]
    ]
  ]

  unfoldable pub load_file : FileRead → Option Session
  unfolding load_lines lines_of
  load_file missing = none
  load_file unreadable = none
  load_file (file b modified) = load_lines modified (lines_of b)

  module _ (F : Directory) where
    unfoldable pub load : Saving F → String → Option Session
    unfolding load_file
    load s id = load_file (F.read s.dir (file_name id))

    -- `Flush` after all lines, or the error that dropped the writer.
    pub written : String → List Bytes → Bool → ℕ → F.State → Bool × Saving F
    written name lines done n dir =
        let (flushed, dir') =
          F.write dir name (if done then unlines lines else F.passed_on lines) in
        (if done then flushed else false, record { dir = dir'; nonces = n })

    rewritten : String → Option Bytes → List SessionMessage → Saving F → Bool × Saving F
    rewritten name none ms s = (false, s)
    rewritten name (some header) ms s =
        let (lines, done, n) = write_messages ms s.nonces in
        written name (header ∷ lines) done n s.dir

    unfoldable pub rewrite : Session → Saving F → Bool × Saving F
    unfolding written rewritten
    rewrite x s =
        let (created, dir) = F.create s.dir (file_name x.id) in
        let (secured, dir') = F.chmod dir (file_name x.id) in
        if not created
        then (false, record s { dir = dir })
        else if not secured
        then (false, record s { dir = dir' })
        else rewritten (file_name x.id) (L.marshal_header (header_of x)) x.messages
            (record s { dir = dir' })

    unfoldable pub append_messages : String → List SessionMessage → Saving F → Bool × Saving F
    unfolding written
    append_messages name [] s = (true, s)
    append_messages name (m ∷ ms) s =
        let (lines, done, n) = write_messages (m ∷ ms) s.nonces in written name lines done n s.dir

    save_over : Session → FileRead → Saving F → Bool × Saving F
    save_over x missing s = rewrite x s
    save_over x unreadable s = (false, s)
    save_over x (file b modified) s =
        if ltb (length x.messages) (count_messages b)
        then rewrite x s
        else append_messages (file_name x.id) (drop (count_messages b) x.messages) s

    unfoldable pub save : Session → Saving F → Bool × Saving F
    unfolding rewrite append_messages save_over count_newlines
    save x s =
        let (made, dir) = F.mkdir_all s.dir in
        let s' = record s { dir = dir } in
        if not made then (false, s') else save_over x (F.read dir (file_name x.id)) s'
