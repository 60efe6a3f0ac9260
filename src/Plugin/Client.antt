-- ===== src/Plugin/Client.antt =====
-- What the plugin asks of the Steam client, the version that it keeps in the cache, and the features that
-- it offers: src/plugin.py and src/backend_interface.py. `Feature` is an enum of Galaxy's API.
use galaxy_integration_steam.Prelude.{
  ℕ, suc, ◌+◌, Bool, true, false, not, ◌&&◌, List, [], ◌∷◌, ◌++◌, Option, none, some, ltb,
  if◌then◌else◌, String, Result, ok, err, filter,
}
use galaxy_integration_steam.Prelude.Keys.{◌=?◌, nat_eq, string_eq, contains, set_add}
use galaxy_integration_steam.Prelude.Text.{Text, codes, list_eq}
use galaxy_integration_steam.Prelude.Dict.{Dict, get, put, keys}
use galaxy_integration_steam.UserInfo.Defs.{differ}
use galaxy_integration_steam.Local.Folders.{
  Machine, Platform, windows, ClientError, get_client_executable,
}
use galaxy_integration_steam.Plugin.Defs.{Plugin}

-- What `shutdown_platform_client` comes to: the command that is run, if one is.
pub data Shutdown : Type 0 where
  ignored no_client : Shutdown
  runs : Text → Shutdown

abbrev pub shut_down : Option Text → Shutdown
shut_down none = no_client
shut_down (some exe) = runs (codes "\"" ++ exe ++ codes "\" -shutdown -silent")

abbrev pub is_windows : Platform → Bool
is_windows windows = true
is_windows _ = false

abbrev pub launch_debounce_time : ℕ
launch_debounce_time = 30

abbrev pub shutdown_command : Machine → Result ClientError Shutdown
unfolding get_client_executable
shutdown_command m =
    if is_windows m.platform
    then (elim (get_client_executable m) [ ok exe ↦ ok (shut_down exe) | err e ↦ err e ])
    else ok (runs (codes "osascript -e 'quit app \"Steam\"'"))

unfoldable pub shutdown_platform_client :
    {S : Type 0} → Machine → ℕ → Plugin S → Result ClientError Shutdown
unfolding shutdown_command
shutdown_platform_client m now p =
    if ltb now (p.last_launch + launch_debounce_time) then ok ignored else shutdown_command m

-- `_steam_command`: the address that the browser is given; whether "steam://" has a handler is what
-- `is_uri_handler_installed` says.
unfoldable pub steam_command : Bool → Text → Text → Text
steam_command has_handler command game_id =
    let game = if game_id =? codes "499450" then codes "292030" else game_id in
    if has_handler
    then codes "steam://" ++ command ++ codes "/" ++ game
    else codes "https://store.steampowered.com/about/"

abbrev pub launch_game : Bool → Text → Text
unfolding steam_command
launch_game has_handler = steam_command has_handler (codes "launch")

abbrev pub install_game : Bool → Text → Text
unfolding steam_command
install_game has_handler = steam_command has_handler (codes "install")

abbrev pub uninstall_game : Bool → Text → Text
unfolding steam_command
uninstall_game has_handler = steam_command has_handler (codes "uninstall")

-- `__store_current_version_in_cache`: the cache, and how often it has been pushed.
unfoldable pub store_current_version : String → Text → Dict String Text × ℕ → Dict String Text × ℕ
store_current_version key version (cache, pushed) =
    if differ (get key cache) (some version)
    then (put key version cache, suc pushed)
    else (cache, pushed)

-- `pass_login_credentials`, from the backend's result: an exception passes before anything is stored.
unfoldable pub pass_login_credentials :
    {E A : Type 0} → Text → Result E A → Dict String Text × ℕ → Result E A × (Dict String Text × ℕ)
unfolding store_current_version
pass_login_credentials version (ok a) c =
    (ok a, store_current_version "auth_setup_on_version" version c)
pass_login_credentials version (err e) c = (err e, c)

-- POSSIBLE_FEATURES and PREPARE_CONTEXT_METHODS
abbrev pub possible_features : Dict String String
possible_features =
    ("ImportOwnedGames", "get_owned_games")
    ∷ ("ImportAchievements", "get_unlocked_achievements")
    ∷ ("ImportGameTime", "get_game_time")
    ∷ ("ImportFriends", "get_friends")
    ∷ ("ImportGameLibrarySettings", "get_game_library_settings")
    ∷ ("ImportUserPresence", "get_user_presence")
    ∷ ("ImportSubscriptions", "get_subscriptions")
    ∷ ("ImportSubscriptionGames", "get_subscription_games")
    ∷ []

abbrev pub prepare_context_methods : Dict String String
prepare_context_methods =
    ("prepare_achievements_context", "ImportAchievements")
    ∷ ("prepare_game_times_context", "ImportGameTime")
    ∷ ("prepare_game_library_settings_context", "ImportGameLibrarySettings")
    ∷ ("prepare_user_presence_context", "ImportUserPresence")
    ∷ ("prepare_subscription_games_context", "ImportSubscriptionGames")
    ∷ ("prepare_local_size_context", "ImportLocalSize")
    ∷ ("prepare_os_compatibility_context", "ImportOSCompatibility")
    ∷ []

-- The features of a class that defines the methods, over the table of the possible ones.
abbrev pub features_in : List String → Dict String String → List String
features_in methods [] = []
features_in methods ((feat, method) ∷ table) =
    let rest = features_in methods table in if contains method methods then feat ∷ rest else rest

-- BackendInterface.features
unfoldable pub backend_features : List String → List String
backend_features methods = features_in methods possible_features

abbrev pub union : List String → List String → List String
union [] ys = ys
union (x ∷ xs) ys = set_add x (union xs ys)

-- SteamPlugin.features
unfoldable pub features : List String → List String → List String
unfolding backend_features
features super methods =
    union (filter (λ (f : String). not (contains f (keys possible_features))) super)
      (backend_features methods)

-- What `BackendInterface.__getattr__` gives for a name that the class itself does not have.
pub data Attribute : Type 0 where
  inherited not_implemented attribute_error : Attribute

abbrev starts_underscored : Text → Bool
starts_underscored [] = false
starts_underscored (c ∷ cs) = c =? 95

abbrev plugin_attribute : String → List String → Attribute
plugin_attribute name plugin_attrs =
    if not (starts_underscored (codes name)) && contains name plugin_attrs
    then inherited
    else attribute_error

abbrev is_unsupported : List String → Option String → Bool
unfolding backend_features
is_unsupported methods none = false
is_unsupported methods (some feature) = not (contains feature (backend_features methods))

unfoldable pub getattr : List String → List String → String → Attribute
unfolding is_unsupported
getattr methods plugin_attrs name =
    if is_unsupported methods (get name prepare_context_methods)
    then not_implemented
    else plugin_attribute name plugin_attrs
