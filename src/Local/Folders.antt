-- ===== src/Local/Folders.antt =====
-- src/client.py: the folders that hold games, the manifests in them, and `local_games_list`.
-- `load_vdf`, `glob`, `os.path` and `winreg` are what the machine gives.
use galaxy_integration_steam.Prelude.{
  ℕ, zero, suc, ◌-◌, List, [], ◌∷◌, ◌++◌, Option, none, some, filter, map, length, take, drop, not,
  Result, ok, err, ◌>>=◌, or_raise,
}
use galaxy_integration_steam.Prelude.Keys.{nat_eq}
use galaxy_integration_steam.Prelude.Text.{Text, codes, list_eq}
use galaxy_integration_steam.Prelude.Dict.{Dict, get, put}
use galaxy_integration_steam.UserInfo.Decimal.{str}
use galaxy_integration_steam.Friends.Defs.{is_empty}
use galaxy_integration_steam.Local.Defs.{
  LocalGameStates, LocalGame, RegistryValue, unlike, local_games, get_app_states_from_registry,
  lower,
}

-- A file of Valve's format: texts, and dictionaries whose keys are in lower case, as
-- `CaseInsensitiveDict` stores them.
mutual
  pub data Vdf : Type 0 where
    text : Text → Vdf
    node : Entries → Vdf

  pub data Entries : Type 0 where
    nil : Entries
    entry : Text → Vdf → Entries → Entries

abbrev pub items : Entries → Dict Text Vdf
items nil = []
items (entry k v d) = (k, v) ∷ items d

-- The exceptions that these functions meet.
pub data ClientError : Type 0 where
  os_error syntax_error key_error attribute_error type_error value_error runtime_error : ClientError

pub data Platform : Type 0 where
  windows darwin other : Platform

-- `apps` are the subkeys of Steam's key in their order, each with its values if it can be opened;
-- `steam_path` and `steam_exe` are values of that key.
pub record Machine : Type 0 where
  pub platform : Platform
  pub apps : Option (List (Text × Option (Dict Text RegistryValue)))
  pub steam_path : Option Text
  pub steam_exe : Option Text
  pub expanduser : Text → Text
  pub load_vdf : Text → Result ClientError Vdf
  pub acf_files : Text → List Text
  pub join : Text → Text → Text
  pub basename : Text → Text

-- `d[k]` on a `CaseInsensitiveDict`, or on a text.
abbrev pub item : Text → Vdf → Result ClientError Vdf
item k (text t) = err type_error
item k (node d) = or_raise (get (lower k) (items d)) key_error

-- `d.get(k)`
abbrev pub get_item : Text → Vdf → Result ClientError (Option Vdf)
get_item k (text t) = err attribute_error
get_item k (node d) = ok (get k (items d))

-- The Windows registry. The values of a subkey are written one by one.
abbrev put_values : Dict Text RegistryValue → Dict Text RegistryValue → Dict Text RegistryValue
put_values [] d = d
put_values ((k, v) ∷ vs) d = put_values vs (put k v d)

abbrev enumerate_apps :
    List (Text × Option (Dict Text RegistryValue))
    → Dict Text (Dict Text RegistryValue)
    → Dict Text (Dict Text RegistryValue)
enumerate_apps [] apps_dict = apps_dict
enumerate_apps ((name, none) ∷ rest) apps_dict = apps_dict
enumerate_apps ((name, some values) ∷ rest) apps_dict =
    enumerate_apps rest (put name (put_values values []) apps_dict)

unfoldable pub windows_apps :
    Option (List (Text × Option (Dict Text RegistryValue))) → Dict Text (Dict Text RegistryValue)
windows_apps none = []
windows_apps (some subkeys) = enumerate_apps subkeys []

-- The Mac's registry.vdf. `items()` of a text is an AttributeError, met when the states are read.
abbrev registry_value : Vdf → RegistryValue
registry_value (text t) = RegistryValue.text t
registry_value (node d) = unlike

abbrev value_dict : Entries → Dict Text RegistryValue
value_dict nil = []
value_dict (entry k v d) = (k, registry_value v) ∷ value_dict d

abbrev app_values : Vdf → Result ClientError (Dict Text RegistryValue)
app_values (text t) = err attribute_error
app_values (node d) = ok (value_dict d)

abbrev app_dict : Entries → Result ClientError (Dict Text (Dict Text RegistryValue))
app_dict nil = ok []
app_dict (entry k v d) = do values ← app_values v; rest ← app_dict d; ok ((k, values) ∷ rest)

abbrev apps_of : Vdf → Result ClientError (Dict Text (Dict Text RegistryValue))
apps_of (text t) = err attribute_error
apps_of (node d) = app_dict d

abbrev apps_path : Vdf → Result ClientError Vdf
apps_path registry = do
  r ← item (codes "Registry") registry
  u ← item (codes "HKCU") r
  s ← item (codes "Software") u
  v ← item (codes "Valve") s
  t ← item (codes "Steam") v
  item (codes "Apps") t

-- The two `except` clauses: a missing file and a missing key are an empty registry.
abbrev read_apps : Result ClientError Vdf → Result ClientError (Dict Text (Dict Text RegistryValue))
read_apps (ok v) = apps_of v
read_apps (err key_error) = ok []
read_apps (err e) = err e

abbrev loaded_apps :
    Result ClientError Vdf → Result ClientError (Dict Text (Dict Text RegistryValue))
loaded_apps (ok registry) = read_apps (apps_path registry)
loaded_apps (err os_error) = ok []
loaded_apps (err e) = err e

abbrev mac_registry_file : Text
mac_registry_file = codes "~/Library/Application Support/Steam/registry.vdf"

abbrev apps_on : Platform → Machine → Result ClientError (Dict Text (Dict Text RegistryValue))
apps_on windows m = ok (windows_apps m.apps)
apps_on darwin m = loaded_apps (m.load_vdf (m.expanduser mac_registry_file))
apps_on other m = ok []

unfoldable pub registry_apps_as_dict :
    Machine → Result ClientError (Dict Text (Dict Text RegistryValue))
unfolding windows_apps
registry_apps_as_dict m = apps_on m.platform m

abbrev steam_mac_folder : Text
steam_mac_folder = codes "~/Library/Application Support/Steam"

-- A path that is not there, and the empty path, are false.
abbrev configuration_on : Platform → Machine → Result ClientError (Option Text)
configuration_on windows m = ok m.steam_path
configuration_on darwin m = ok (some (m.expanduser steam_mac_folder))
configuration_on other m = err runtime_error

unfoldable pub get_configuration_folder : Machine → Result ClientError (Option Text)
get_configuration_folder m = configuration_on m.platform m

abbrev executable_on : Platform → Machine → Result ClientError (Option Text)
executable_on windows m = ok m.steam_exe
executable_on darwin m = ok (some (codes "/Applications/Steam.app/Contents/MacOS/steam_osx"))
executable_on other m = err runtime_error

unfoldable pub get_client_executable : Machine → Result ClientError (Option Text)
get_client_executable m = executable_on m.platform m

-- `library_folder["path"]`, or the folder's text itself.
abbrev pub library_path : Vdf → Result ClientError Vdf
library_path (text t) = ok (text t)
library_path (node d) = or_raise (get (codes "path") (items d)) key_error

abbrev pub join_steamapps : Machine → Vdf → Result ClientError Text
join_steamapps m (text t) = ok (m.join t (codes "steamapps"))
join_steamapps m (node d) = err type_error

-- The path that a numbered entry stands for.
unfoldable pub folder_path : Machine → Vdf → Result ClientError Text
folder_path m v = library_path v >>= join_steamapps m

-- The loop over `itertools.count(1)`; `none` means that the fuel ran out.
abbrev pub then_folder :
    Result ClientError Text
    → Option (Result ClientError (List Text))
    → Option (Result ClientError (List Text))
then_folder (err e) rest = some (err e)
then_folder (ok path) none = none
then_folder (ok path) (some (err e)) = some (err e)
then_folder (ok path) (some (ok paths)) = some (ok (path ∷ paths))

abbrev pub after_get :
    Machine
    → Result ClientError (Option Vdf)
    → Option (Result ClientError (List Text))
    → Option (Result ClientError (List Text))
after_get m (err e) rest = some (err e)
after_get m (ok none) rest = some (ok [])
after_get m (ok (some v)) rest = then_folder (folder_path m v) rest

unfoldable pub folders_from : Machine → ℕ → ℕ → Vdf → Option (Result ClientError (List Text))
folders_from m zero i config = none
folders_from m (suc fuel) i config =
    after_get m (item (codes "LibraryFolders") config >>= get_item (str i))
      (folders_from m fuel (suc i) config)

abbrev entry_count : Vdf → ℕ
entry_count (text t) = 0
entry_count (node d) = length (items d)

abbrev pub folder_count : Result ClientError Vdf → ℕ
folder_count (ok v) = entry_count v
folder_count (err e) = 0

-- One round for each entry of the dictionary, and one to find the next number missing.
unfoldable pub read_folders : Machine → Vdf → Option (Result ClientError (List Text))
unfolding folders_from
read_folders m config =
    folders_from m (suc (folder_count (item (codes "LibraryFolders") config))) 1 config

-- `except (OSError, SyntaxError, KeyError)`
abbrev none_if_unread {ℓ} : {A : Type ℓ} → Result ClientError A → Result ClientError (Option A)
none_if_unread (ok a) = ok (some a)
none_if_unread (err os_error) = ok none
none_if_unread (err syntax_error) = ok none
none_if_unread (err key_error) = ok none
none_if_unread (err e) = err e

abbrev read_config : Machine → Result ClientError Vdf → Option (Result ClientError (List Text))
read_config m (err e) = some (err e)
read_config m (ok config) = read_folders m config

unfoldable pub get_custom_library_folders :
    Machine → Text → Option (Result ClientError (Option (List Text)))
unfolding read_folders
get_custom_library_folders m config_path = elim (read_config m (m.load_vdf config_path)) [
  | none ↦ none
  | some r ↦ some (none_if_unread r)
]

-- `[steam_apps_folder] + (library_folders or [])`
abbrev with_default : Text → Option (List Text) → List Text
with_default folder none = folder ∷ []
with_default folder (some folders) = folder ∷ folders

abbrev all_folders :
    Text
    → Option (Result ClientError (Option (List Text)))
    → Option (Result ClientError (List Text))
all_folders folder none = none
all_folders folder (some (err e)) = some (err e)
all_folders folder (some (ok custom)) = some (ok (with_default folder custom))

abbrev folders_under :
    Machine → Result ClientError (Option Text) → Option (Result ClientError (List Text))
folders_under m (err e) = some (err e)
folders_under m (ok none) = some (ok [])
folders_under m (ok (some [])) = some (ok [])
folders_under m (ok (some (c ∷ cs))) =
    let folder = m.join (c ∷ cs) (codes "steamapps") in
    all_folders folder (get_custom_library_folders m (m.join folder (codes "libraryfolders.vdf")))

unfoldable pub get_library_folders : Machine → Option (Result ClientError (List Text))
unfolding get_configuration_folder get_custom_library_folders
get_library_folders m = folders_under m (get_configuration_folder m)

unfoldable pub get_app_manifests : Machine → List Text → List Text
get_app_manifests m [] = []
get_app_manifests m (folder ∷ folders) = m.acf_files folder ++ get_app_manifests m folders

-- `os.path.basename(path)[len('appmanifest_'):-4]`
unfoldable pub app_id_from_manifest_path : Machine → Text → Text
app_id_from_manifest_path m path =
    let name = m.basename path in
    let prefix = length (codes "appmanifest_") in take (length name - 4 - prefix) (drop prefix name)

unfoldable pub get_installed_games : Machine → List Text → List Text
unfolding get_app_manifests app_id_from_manifest_path
get_installed_games m folders =
    filter (λ (i : Text). not (is_empty i))
      (map (app_id_from_manifest_path m) (get_app_manifests m folders))

module _ {S : Type 0} (F : LocalGameStates S) where
  abbrev list_games :
      Machine
      → List Text
      → Result ClientError (Dict Text (Dict Text RegistryValue))
      → List (LocalGame S)
  list_games m folders (err e) = []
  list_games m folders (ok apps) =
      local_games (get_app_states_from_registry F apps) (get_installed_games m folders)

  -- The bare `except` leaves the list that there is, which is empty before the loop.
  unfoldable pub local_games_list : Machine → Option (List (LocalGame S))
  unfolding get_library_folders registry_apps_as_dict get_installed_games
      get_app_states_from_registry
  local_games_list m = elim (get_library_folders m) [
    | none ↦ none
    | some (err e) ↦ some []
    | some (ok folders) ↦ some (list_games m folders (registry_apps_as_dict m))
  ]
