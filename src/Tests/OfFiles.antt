-- ===== src/Tests/OfFiles.antt =====
-- Examples of session files.
use mathlib.Core.Path.{subst}
use mathlib.Core.Logic.{ite, if_pos, if_neg}
use korai_sdk_go.Prelude.{
  some-injective, ℕ, ◌+◌, String, ◌≡◌, refl, ap, sym, ◌∙◌, inl, inr, Bool, true, false, Option,
  none, some, List, [], ◌∷◌, ◌++◌, nat_eq, nat_eq_iff, ◌==◌, eq_iff, arith, Bool-cases,
}
use korai_sdk_go.Prelude.Sorting.{sort_by, insert_sorted}
use korai_sdk_go.Session.{Session, SessionMessage}
use korai_sdk_go.Session.FileStore.{
  Bytes, Header, Codec, plain_codec, FileRead, missing, unreadable, file, Directory, FileLibrary,
  Saving, codec_for, unlines, write_messages, load, loaded, save,
}
use korai_sdk_go.Session.FileStore.Listing.{
  entries, removed, Catalog, load_entries, listed, list, trim_file_ext, latest,
}
use korai_sdk_go.Session.FileStore.Newest.{Newest, latest-Newest}
use korai_sdk_go.Session.FileStore.Lines.{IsLine}
use korai_sdk_go.Session.FileStore.Saved.{ReadsBack, IsReadable}
use korai_sdk_go.Session.FileStore.Held.{IsDirectory, Holds}
use korai_sdk_go.Session.FileStore.Loaded.{load-save}
use korai_sdk_go.Session.FileStore.Mixed.{IsSealed, load-save_mixed}
use korai_sdk_go.Tests.MessageJson.{
  hi, marshal_parts, marshal_parts-IsLine, kind_of, read_messages, first_message, reads_back,
}

-- A directory of one file.
abbrev grown : FileRead → Bytes → Bool × FileRead
grown missing added = (false, missing)
grown unreadable added = (false, unreadable)
grown (file b t) added = (true, file (b ++ added) (t + 1))

abbrev directory : Directory
directory = record {
  State = FileRead;
  mkdir_all = λ st. (true, st);
  read = λ st name. st;
  create = λ st name. (true, file [] 0);
  chmod = λ st name. (true, st);
  write = λ st name added. grown st added;
  passed_on = λ lines. [];
}

grown-file :
    (st : FileRead) (b added : Bytes) (t : ℕ)
    → st ≡ file b t
    → (t' : ℕ) × ((grown st added).1 ≡ file (b ++ added) t')
grown-file st b added t q = (t + 1, ap (λ r. (grown r added).1) q)

directory-IsDirectory : IsDirectory directory
directory-IsDirectory = record {
  read-mkdir_all = λ st name ok. refl;
  read-create = λ st name ok. (0, refl);
  read-chmod = λ st name ok. refl;
  read-write = λ st name b added t q ok. grown-file st b added t q;
}

abbrev talk : List SessionMessage → Session
talk messages = record {
  id = "a";
  created = 5;
  updated = 7;
  cwd = "/work";
  model = "auto";
  tool = "kode";
  messages = messages;
}

abbrev header : Header
header = record {
  kind = "header";
  version = 1;
  id = "a";
  created = 5;
  cwd = "/work";
  model = "auto";
  tool = "kode";
  enc = "none";
}

string_discrete : Discrete String
string_discrete s t = elim (Bool-cases (s == t)) [
  | inl e ↦ yes ((eq_iff s t).0 e)
  | inr e ↦ no (λ p. cc ((eq_iff s t).1 p, e))
]

nat_discrete : Discrete ℕ
nat_discrete m n = elim (Bool-cases (nat_eq m n)) [
  | inl e ↦ yes ((nat_eq_iff m n).0 e)
  | inr e ↦ no (λ p. cc ((nat_eq_iff m n).1 p, e))
]

header_discrete : Discrete Header
header_discrete = hlevel (string_discrete, nat_discrete)

-- JSON that knows one header, and the messages of `MessageJson`.
marshal_header : Header → Option Bytes
marshal_header h = ite (header_discrete h header) (some (1 ∷ [])) none

abbrev json : FileLibrary
json = record {
  marshal_header = marshal_header;
  unmarshal_header = λ b. some header;
  marshal_message = λ m. marshal_parts m.role m.blocks;
  unmarshal_message = λ b. first_message (read_messages b);
  unmarshal_kind = kind_of;
}

marshal_header-some :
    (h : Header) (b : Bytes)
    → marshal_header h ≡ some b
    → (◌≡◌ {A = Bytes} (1 ∷ []) b) × (header ≡ h)
unfolding marshal_header
marshal_header-some h b q = elim (header_discrete h header) [
  | yes e ↦ (some-injective (sym (if_pos _ e (some (1 ∷ [])) none) ∙ q), sym e)
  | no n ↦ absurd (ground (arith, sym q ∙ if_neg _ n (some (1 ∷ [])) none))
]

json-IsReadable : IsReadable json plain_codec
unfolding codec_for
json-IsReadable = record {
  line-marshal_header = λ h b q. subst IsLine (marshal_header-some h b q).0 (refl, tt);
  unmarshal-marshal_header = λ h b q. ap some (marshal_header-some h b q).1;
  line-marshal_message = λ m b q. (marshal_parts-IsLine m.role m.blocks b q).0;
  kind-marshal_message = λ m b q. (marshal_parts-IsLine m.role m.blocks b q).1;
  line-encode = λ n b l line q. subst IsLine (same b l q) line;
  decode-encode = λ n b l q. sym q;
  codec_for-name = refl;
}
  where
    same : (b l : Bytes) → some b ≡ some l → b ≡ l
    same b l p = cc p

hi-ReadsBack : ReadsBack json hi
unfolding marshal_parts
hi-ReadsBack b q = reads_back json.unmarshal_message hi (2 ∷ 4 ∷ 6 ∷ []) b refl q

abbrev nothing : Saving directory
nothing = record { dir = missing; nonces = 0 }

header_marshals : marshal_header header ≡ some (1 ∷ [])
unfolding marshal_header
header_marshals = if_pos _ refl (some (1 ∷ [])) none

first_save : (save json plain_codec directory (talk (hi ∷ [])) nothing).0 ≡ true
unfolding save write_messages marshal_parts
first_save = rw (header_marshals, save) refl

load-save_example :
    (h : Header) × (t : ℕ) × Holds json plain_codec directory
      (save json plain_codec directory (talk (hi ∷ [])) nothing).1.dir
      "a"
      h
      (hi ∷ [])
    × (load json plain_codec directory
          (save json plain_codec directory (talk (hi ∷ [])) nothing).1
          "a"
        ≡ some (loaded json plain_codec h t (hi ∷ [])))
load-save_example =
    load-save json plain_codec directory json-IsReadable directory-IsDirectory (talk (hi ∷ []))
      nothing (hi-ReadsBack, tt) (inl refl) first_save

-- A codec that does not write JSON.
abbrev sealing : Codec
sealing = record { name = "sealed"; encode = λ n b. some (3 ∷ []); decode = λ b. some (2 ∷ []) }

abbrev plain_file : Saving directory
plain_file = record { dir = file (1 ∷ 10 ∷ []) 0; nonces = 0 }

plain_file-Holds : Holds json plain_codec directory (file (1 ∷ 10 ∷ []) 0) "a" header []
unfolding codec_for unlines
plain_file-Holds = record {
  first = 1 ∷ [];
  lines = [];
  modified = 0;
  read = refl;
  line = (refl, tt);
  header = refl;
  kind = refl;
  named = refl;
  encodes = tt;
}

sealing-IsSealed : IsSealed json sealing
sealing-IsSealed n b l q = subst (λ x. IsLine x × (kind_of x ≡ none)) (same l q) ((refl, tt), refl)
  where
    same : (l : Bytes) → some (3 ∷ []) ≡ some l → ◌≡◌ {A = Bytes} (3 ∷ []) l
    same l p = cc p

load-save_mixed_example :
    load json sealing directory (save json sealing directory (talk (hi ∷ [])) plain_file).1 "a"
    ≡ none
unfolding write_messages
load-save_mixed_example =
    load-save_mixed json sealing directory directory-IsDirectory (talk (hi ∷ [])) plain_file header
      [] [] hi sealing-IsSealed plain_file-Holds refl refl (unfold save marshal_parts in refl)

-- The one file of the directory, and a folder.
abbrev catalog : Catalog directory
catalog = record {
  read_dir = λ st. entries (
      record { name = "b.jsonl"; is_dir = true }
      ∷ record { name = "a.jsonl"; is_dir = false }
      ∷ []);
  remove = λ st name. (removed, missing);
}

-- As it is read, with the time of the file.
abbrev listed_session : Session
listed_session = record (talk []) { updated = 0 }

latest-Newest_example : Newest "/work" listed_session (listed_session ∷ [])
unfolding list listed load_entries trim_file_ext sort_by insert_sorted load
latest-Newest_example =
    latest-Newest json plain_codec directory catalog plain_file "/work" (listed_session ∷ [])
      listed_session refl (unfold latest in refl)
