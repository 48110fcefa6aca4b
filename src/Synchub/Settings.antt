-- ===== src/Synchub/Settings.antt =====
-- session/synchub/config.go: the configuration of a sync, from the settings file, the environment
-- and the content key. A text is the list of its code points; a variable that is not set is `none`
-- where the code tells it from an empty one, and [] elsewhere.
pub mod Resolved
use korai_sdk_go.Prelude.{
  ℕ, suc, ◌+◌, ◌-◌, ◌*◌, ◌%◌, ◌^◌, String, Bool, true, false, Option, none, some, List, [], ◌∷◌,
  not, ◌&&◌, ◌||◌, nat_eq, ◌==◌, if◌then◌else◌,
}
use korai_sdk_go.Prelude.Int.{ℤ, pos, negsuc, ltb_ℤ}
use korai_sdk_go.Retry.{second, to_int64}
use korai_sdk_go.Session.FileStore.{Bytes}
use korai_sdk_go.Session.Encrypting.{
  Decoders, KeyFile, KeyError, KeyResult, ok, failed, load_content_key,
}
use korai_sdk_go.Stream.{Text, chars, is_blank, text_eq, trim_space}

-- `sync_id` is derived from the key; `SyncID` of the settings file is not read.
pub record ResolvedConfig : Type 0 where
  pub url : Text
  pub sync_id : String
  pub key : Bytes
  pub interval : ℤ
  pub cursor_path : Text

pub record FileSettings : Type 0 where
  pub enabled : Bool
  pub url : Text
  pub interval : Text

-- KORAI_SYNC_ENABLED, KORAI_SYNC_URL, KORAI_SYNC_INTERVAL and KORAI_SYNC_KEY.
pub record Environment : Type 0 where
  pub enabled : Option Text
  pub url : Text
  pub interval : Text
  pub key : Text

-- `time.ParseDuration` and `strconv.Atoi`, `none` for an error, `filepath.Join` of the cursor's
-- path, the derivation of the sync id, and the decoders of keys.
pub record ConfigLibrary : Type 0 where
  pub parse_duration : Text → Option ℤ
  pub atoi : Text → Option ℤ
  pub cursor_path : Text → Text
  pub derive_sync_id : Bytes → String
  pub decoders : Decoders

pub data ResolveError : Type 0 where
  bad_interval : ResolveError
  bad_key : KeyError → ResolveError
  incomplete : ResolveError

pub data Resolution : Type 0 where
  disabled : Resolution
  enabled_with : ResolvedConfig → Resolution
  refused : ResolveError → Resolution

abbrev pub default_interval : ℤ
default_interval = pos (30 * second)

abbrev pub min_interval : ℤ
min_interval = pos (5 * second)

-- `strings.TrimRight(url, "/")`
unfoldable pub trim_slashes : Text → Text
trim_slashes [] = []
trim_slashes (c ∷ cs) =
    let rest = trim_slashes cs in if is_blank rest && nat_eq c 0x2f then [] else c ∷ rest

unfoldable pub first_non_empty : Text → Text → Text
first_non_empty [] other = other
first_non_empty (c ∷ cs) other = c ∷ cs

abbrev pub is_one_of : Text → List String → Bool
is_one_of t [] = false
is_one_of t (s ∷ ss) = text_eq t (chars s) || is_one_of t ss

-- `strconv.ParseBool`
unfoldable pub parse_bool : Text → Option Bool
parse_bool t =
    if is_one_of t ("1" ∷ "t" ∷ "T" ∷ "true" ∷ "TRUE" ∷ "True" ∷ [])
    then some true
    else if is_one_of t ("0" ∷ "f" ∷ "F" ∷ "false" ∷ "FALSE" ∷ "False" ∷ [])
    then some false
    else none

-- `none` where the variable does not override the settings file.
unfoldable pub lookup_bool : Option Text → Option Bool
unfolding parse_bool
lookup_bool none = none
lookup_bool (some raw) = if is_blank (trim_space raw) then none else parse_bool (trim_space raw)

-- `time.Duration(n) * time.Second`, an int64 product.
unfoldable pub seconds : ℤ → ℤ
seconds (pos n) = to_int64 (n * second)
seconds (negsuc n) = to_int64 (2 ^ 64 - suc n * second % 2 ^ 64)

unfoldable pub signal : Environment → FileSettings → Bool
unfolding lookup_bool
signal env fs = elim (lookup_bool env.enabled) [ none ↦ fs.enabled | some v ↦ v ]

module _ (L : ConfigLibrary) where
  unfoldable pub parse_interval : Text → Option ℤ
  unfolding seconds
  parse_interval s = elim (L.parse_duration s) [
    | some d ↦ some d
    | none ↦ elim (L.atoi s) [ none ↦ none | some n ↦ some (seconds n) ]
  ]

  unfoldable pub chosen_interval : Text → Option ℤ
  unfolding parse_interval
  chosen_interval [] = some default_interval
  chosen_interval (c ∷ cs) = parse_interval (c ∷ cs)

  -- The values once the interval and the key are read.
  unfoldable pub complete : Text → Text → ℤ → KeyResult (Option Bytes) → Resolution
  unfolding trim_slashes
  complete home url interval (failed e) = refused (bad_key e)
  complete home url interval (ok none) = refused incomplete
  complete home url interval (ok (some key)) =
      if is_blank url
      then refused incomplete
      else enabled_with (record {
        url = trim_slashes url;
        sync_id = L.derive_sync_id key;
        key = key;
        interval = if ltb_ℤ interval min_interval then min_interval else interval;
        cursor_path = L.cursor_path home;
      })

  unfoldable pub resolve : Text → KeyFile → Environment → FileSettings → Resolution
  unfolding signal first_non_empty chosen_interval complete
  resolve home on_disk env fs =
      if not (signal env fs)
      then disabled
      else elim (chosen_interval (first_non_empty (trim_space env.interval) fs.interval)) [
        | none ↦ refused bad_interval
        | some interval ↦
            complete home (first_non_empty (trim_space env.url) fs.url) interval
              (load_content_key L.decoders env.key on_disk)
      ]
