-- ===== src/Session/FileStore/Listing.antt =====
-- session/store.go: `List`, `Delete` and `Latest` of the store of session files. `sort.Slice` may put
-- sessions of equal times in any order; here they stay in the order of the directory.
use Prim.Native.String.{String}
use korai_sdk_go.Prelude.{
  Bool, true, false, Option, none, some, List, [], ◌∷◌, ltb, ◌==◌, if◌then◌else◌,
}
use korai_sdk_go.Prelude.Sorting.{sort_by}
use korai_sdk_go.Session.{Session}
use korai_sdk_go.Session.FileStore.{Codec, Directory, FileLibrary, file_name, Saving, load}

pub record DirEntry : Type 0 where
  pub name : String
  pub is_dir : Bool

pub data DirRead : Type 0 where
  no_directory unreadable_directory : DirRead
  entries : List DirEntry → DirRead

pub data Removal : Type 0 where
  removed not_there not_removed : Removal

-- `os.ReadDir` and `os.Remove` on the directory.
pub record Catalog (F : Directory) : Type 0 where
  pub read_dir : F.State → DirRead
  pub remove : F.State → String → Removal × F.State

-- `strings.HasSuffix` and `strings.TrimSuffix` with ".jsonl".
unfoldable pub trim_file_ext : String → Option String
trim_file_ext String.[] = none
trim_file_ext (String.◌∷◌ c s) =
    let rest = trim_file_ext s in
    if String.◌∷◌ c s == ".jsonl"
    then some String.[]
    else elim rest [ none ↦ none | some id ↦ some (String.◌∷◌ c id) ]

-- `sessions[i].Updated.After(sessions[j].Updated)`
abbrev pub newer : Session → Session → Bool
newer x y = ltb y.updated x.updated

unfoldable pub first_in : String → List Session → Option Session
first_in cwd [] = none
first_in cwd (x ∷ xs) = if x.cwd == cwd then some x else first_in cwd xs

module _ (L : FileLibrary) (codec : Codec) (F : Directory) (C : Catalog F) where
  -- The loop of `List`, which skips what is no session file and what cannot be loaded.
  unfoldable pub load_entries : Saving F → List DirEntry → List Session
  load_entries s [] = []
  load_entries s (e ∷ es) =
      let rest = load_entries s es in
      if e.is_dir then rest else elim (trim_file_ext e.name) [
        | none ↦ rest
        | some id ↦ elim (load L codec F s id) [ none ↦ rest | some x ↦ x ∷ rest ]
      ]

  unfoldable pub listed : Saving F → DirRead → Option (List Session)
  listed s no_directory = some []
  listed s unreadable_directory = none
  listed s (entries es) = some (sort_by newer (load_entries s es))

  unfoldable pub list : Saving F → Option (List Session)
  unfolding listed load_entries
  list s = listed s (C.read_dir s.dir)

  -- `none` for an error, `some none` if no session has this directory.
  unfoldable pub latest : Saving F → String → Option (Option Session)
  unfolding list first_in
  latest s cwd = elim (list s) [ none ↦ none | some xs ↦ some (first_in cwd xs) ]

  unfoldable pub delete : String → Saving F → Bool × Saving F
  delete id s =
      let (r, dir) = C.remove s.dir (file_name id) in
      (elim r [ removed ↦ true | not_there ↦ true | not_removed ↦ false ], record s { dir = dir })
