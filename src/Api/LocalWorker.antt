-- ===== src/Api/LocalWorker.antt =====
-- localworker.go: a local worker that advertises itself in a file. The home directory, the file,
-- JSON and the health request are parameters.
pub mod Found
use korai_sdk_go.Prelude.{
  ℕ, String, Bool, true, false, Option, none, some, List, [], ◌∷◌, take, not, ◌||◌, nat_eq, ◌==◌,
  ◌<>◌, trim_right_slashes, if◌then◌else◌,
}
use korai_sdk_go.Stream.{Text, chars, is_blank, trim_space, has_prefix}

pub record LocalWorkerInfo : Type 0 where
  pub url : String
  pub pid : ℕ
  pub models : List String
  pub started : ℕ

-- `os.UserHomeDir`, `filepath.Join` with the name of the file, `os.ReadFile`, and `json.Unmarshal`;
-- `none` for an error.
pub record WorkerLibrary : Type 0 where
  pub user_home_dir : Option String
  pub advert_file : String → String
  pub read_file : String → Option Text
  pub unmarshal_info : Text → Option LocalWorkerInfo

-- `strings.Contains`
unfoldable pub contains_text : Text → Text → Bool
contains_text [] p = has_prefix [] p
contains_text (c ∷ cs) p = has_prefix (c ∷ cs) p || contains_text cs p

-- The request of a health probe: its URL is refused, there is no answer within the second, or
-- there is one with its status and its body.
pub data Probe : Type 0 where
  bad_url no_answer : Probe
  health : ℕ → Text → Probe

abbrev pub health_limit : ℕ
health_limit = 256

unfoldable pub is_healthy : Probe → Bool
unfolding contains_text
is_healthy bad_url = false
is_healthy no_answer = false
is_healthy (health status body) =
    if not (nat_eq status 200)
    then false
    else contains_text (take health_limit body) (chars "\"ok\"")

module _ (L : WorkerLibrary) where
  -- "" for an unknown home directory.
  unfoldable pub local_worker_advert_path : String
  local_worker_advert_path = elim L.user_home_dir [
    | none ↦ ""
    | some home ↦ if home == "" then "" else L.advert_file home
  ]

  unmarshalled : Option LocalWorkerInfo → Option LocalWorkerInfo
  unmarshalled none = none
  unmarshalled (some info) = if is_blank (trim_space (chars info.url)) then none else some info

  read_at : String → Option LocalWorkerInfo
  read_at path = if path == "" then none else elim (L.read_file path) [
    | none ↦ none
    | some content ↦ unmarshalled (L.unmarshal_info content)
  ]

  unfoldable pub read_local_worker : Option LocalWorkerInfo
  unfolding local_worker_advert_path read_at unmarshalled
  read_local_worker = read_at local_worker_advert_path

  module _ {State : Type 0} (get : State → String → Probe × State) where
    unfoldable pub local_worker_healthy : String → State → Bool × State
    unfolding is_healthy
    local_worker_healthy base_url st =
        let (p, st') = get st (trim_right_slashes base_url <> "/health") in (is_healthy p, st')

    probed : Option LocalWorkerInfo → State → Option LocalWorkerInfo × State
    probed none st = (none, st)
    probed (some info) st =
        let (healthy, st') = local_worker_healthy info.url st in
        (if healthy then some info else none, st')

    unfoldable pub discover_local_worker : State → Option LocalWorkerInfo × State
    unfolding read_local_worker local_worker_healthy probed
    discover_local_worker st = probed read_local_worker st
