-- ===== src/Util.antt =====
-- pkg/util: the string-slice helpers, the environment variables of a run, and the readers of one
-- key of a secret or a config map. Log lines are not modelled.
pub mod Slices
use alustan.Base.{
  ℕ, String, Bool, true, false, Option, none, some, List, [], ◌∷◌, ◌<>◌, ◌==◌, Error, Result, ok,
  err, new_error, StringMap, lookup, if◌then◌else◌, ◌*◌,
}
use alustan.Cluster.{entries_of, Cluster, M, call, lift, ◌>>=◌, get_config_map, get_secret}

-- `ContainsString`
unfoldable pub contains_string : List String → String → Bool
contains_string [] str = false
contains_string (item ∷ slice) str = if item == str then true else contains_string slice str

-- `RemoveString`: the slice without the first occurrence.
unfoldable pub remove_string : List String → String → List String
remove_string [] str = []
remove_string (item ∷ slice) str = if item == str then slice else item ∷ remove_string slice str

-- `FormatEnvVars`
unfoldable pub format_env_vars : StringMap String → List String
format_env_vars [] = []
format_env_vars ((key, value) ∷ vars) = (key <> "=" <> value) ∷ format_env_vars vars

-- `ExtractEnvVars`: a nil map stays nil, another map is copied entry by entry.
copy_entries : StringMap String → StringMap String
copy_entries [] = []
copy_entries ((key, value) ∷ vars) = (key, value) ∷ copy_entries vars

unfoldable pub extract_env_vars : Option (StringMap String) → Option (StringMap String)
unfolding copy_entries
extract_env_vars none = none
extract_env_vars (some vars) = some (copy_entries vars)

abbrev found_or : Error → Option String → Result String
found_or e none = err e
found_or e (some v) = ok v

module _ (c : Cluster) where
  -- `GetConfigMapContent`
  unfoldable pub get_config_map_content : String → String → String → M String
  unfolding lookup
  get_config_map_content namespace name key = do
    config_map ← call c.config_map (get_config_map namespace name)
    lift (
        found_or (new_error ("Key '" <> key <> "' not found in ConfigMap '" <> name <> "'"))
          (lookup key config_map.content))

  -- `GetDataFromSecret`
  unfoldable pub get_data_from_secret : String → String → String → M String
  unfolding lookup
  get_data_from_secret namespace secret_name key_name = do
    secret ← call c.secret (get_secret namespace secret_name)
    lift (
        found_or
          (new_error ("Key '" <> key_name <> "' not found in secret '" <> secret_name <> "'"))
          (lookup key_name (entries_of secret.content)))

-- Durations are in minutes.
abbrev default_sync_interval : ℕ
default_sync_interval = 360

abbrev default_app_sync_interval : ℕ
default_app_sync_interval = 5

-- The environment, where an unset variable reads as "", and `time.ParseDuration`.
module _ (getenv : String → String) (parse_duration : String → Result ℕ) where
  abbrev parsed_or : ℕ → Result ℕ → ℕ
  parsed_or default (ok d) = d
  parsed_or default (err e) = default

  unfoldable pub get_env_sync_interval : String → ℕ → ℕ
  get_env_sync_interval env_var default =
      if getenv env_var == "" then default else parsed_or default (parse_duration (getenv env_var))

  -- The intervals of the infrastructure and of the application controller.
  unfoldable pub get_sync_intervals : ℕ × ℕ
  unfolding get_env_sync_interval
  get_sync_intervals = (
    get_env_sync_interval "INFRA_SYNC_INTERVAL" default_sync_interval,
    get_env_sync_interval "APP_SYNC_INTERVAL" default_app_sync_interval,
  )

-- `GetUniqueID`
unfoldable pub get_unique_id : (String → String) → String
get_unique_id getenv = getenv "HOSTNAME"
