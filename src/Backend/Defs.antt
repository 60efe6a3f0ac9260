-- ===== src/Backend/Defs.antt =====
-- `tick` and `_update_owned_games` of src/backend_steam_network.py, with `dump` and `loads` of
-- src/steam_network/games_cache.py. JSON is a parameter: J is the type of its texts.
use galaxy_integration_steam.Prelude.{
  ℕ, ◌+◌, ◌%◌, Bool, true, false, ◌&&◌, List, [], ◌∷◌, ◌++◌, Option, none, some, String,
  if◌then◌else◌, ◌==◌,
}
use galaxy_integration_steam.Prelude.Keys.{◌=?◌, string_eq}
use galaxy_integration_steam.Prelude.Dict.{Dict}
use galaxy_integration_steam.UserInfo.Defs.{UserInfo, read_changed}
use galaxy_integration_steam.UserInfo.Stored.{Credentials, to_dict}
use galaxy_integration_steam.Games.Defs.{
  App, License, GamesCache, consume_added_games, update_app_title, get_owned_games,
}

-- The licenses and apps of `LicensesCache`.
pub record LicensesCache : Type 0 where
  pub licenses : List License
  pub apps : Dict ℕ App

-- The object that `dump` writes; a field may be missing in a text that is read.
pub record Dumped (J : Type 0) : Type 0 where
  pub licenses : Option J
  pub version : Option String

-- `to_json`, `from_json`, `json.dumps` and `json.loads`; `none` is an exception.
pub record Json (J : Type 0) : Type 0 where
  pub to_json : LicensesCache → J
  pub from_json : J → Option LicensesCache
  pub dumps : Dumped J → J
  pub loads : J → Option (Dumped J)

-- `_VERSION`
abbrev pub version : String
version = "1.0.0"

-- The task: it has ended, it has not started yet, or it sleeps before the rest of the games, of which
-- the first has the given index.
pub data Task : Type 0 where
  done created : Task
  sleeping : ℕ → List App → Task

-- What the backend has told Galaxy so far is in `games_told` and `credentials_told`.
pub record Backend (J : Type 0) : Type 0 where
  pub games : GamesCache
  pub user_info : UserInfo
  pub owned_games_parsed : Bool
  pub task : Task
  pub persistent_games : Option J
  pub modified : Bool
  pub games_told : List App
  pub credentials_told : List Credentials

abbrev pub is_done : Task → Bool
is_done done = true
is_done created = false
is_done (sleeping i games) = false

abbrev pub is_version : Option String → Bool
is_version none = false
is_version (some v) = v =? version

abbrev pub with_licenses : GamesCache → Option LicensesCache → Option GamesCache
with_licenses c none = none
with_licenses c (some l) = some (record c { licenses = l.licenses; apps = l.apps })

module _ {J : Type 0} (json : Json J) where
  unfoldable pub dump : GamesCache → J
  dump c = json.dumps record {
    licenses = some (json.to_json (record { licenses = c.licenses; apps = c.apps }));
    version = some version;
  }

  abbrev pub load_licenses : Option J → GamesCache → Option GamesCache
  load_licenses none c = none
  load_licenses (some j) c = with_licenses c (json.from_json j)

  abbrev pub load_dumped : Option (Dumped J) → GamesCache → Option GamesCache
  load_dumped none c = none
  load_dumped (some d) c = if is_version d.version then load_licenses d.licenses c else some c

  -- `loads`; a dump of another version is left aside.
  unfoldable pub loads : J → GamesCache → Option GamesCache
  loads j c = load_dumped (json.loads j) c

  -- `_load_persistent_cache`
  unfoldable pub load_persistent_cache : Option J → GamesCache → Option GamesCache
  unfolding loads
  load_persistent_cache none c = some c
  load_persistent_cache (some j) c = loads j c

  -- The loop from an index on: the task sleeps after each fifty games.
  unfoldable pub add_games : ℕ → List App → Backend J → Backend J
  add_games i [] b = record b { task = done }
  add_games i (game ∷ games) b =
      let told : Backend J = record b { games_told = b.games_told ++ game ∷ [] } in
      let next = add_games (i + 1) games told in
      if i % 50 == 49 then record told { task = sleeping (i + 1) games } else next

  abbrev pub tell_games : List App → Backend J → Backend J
  tell_games [] b = record b { task = done }
  tell_games (game ∷ games) b =
      add_games 0 (game ∷ games)
        (record b { persistent_games = some (dump b.games); modified = true })

  -- `_update_owned_games`, up to its first sleep
  unfoldable pub update_owned_games : Backend J → Backend J
  unfolding add_games consume_added_games
  update_owned_games b =
      tell_games (consume_added_games b.games).1
        (record b { games = (consume_added_games b.games).0 })

  -- The event loop goes on with the task.
  unfoldable pub resume : Task → Backend J → Backend J
  unfolding update_owned_games
  resume done b = b
  resume created b = update_owned_games b
  resume (sleeping i games) b = add_games i games b

  -- `tick`
  unfoldable pub tick : Backend J → Backend J
  tick b =
      let (user_info, changed) = read_changed b.user_info in
      record b {
        task = if is_done b.task && b.owned_games_parsed then created else b.task;
        user_info = user_info;
        credentials_told =
            if changed then b.credentials_told ++ to_dict user_info ∷ [] else b.credentials_told;
      }

-- What happens to the backend: a tick of Galaxy, the event loop, the title of an app, the import of the
-- owned games with which Galaxy starts, and a login that writes the user's info.
pub data Event : Type 0 where
  ticking resuming importing : Event
  titled : ℕ → String → String → Option ℕ → Event
  writing : UserInfo → Event

abbrev pub or_same : {J : Type 0} → Backend J → Option GamesCache → Backend J
or_same b none = b
or_same b (some c) = record b { games = c }

module _ {J : Type 0} (json : Json J) where
  unfoldable pub step : Event → Backend J → Backend J
  unfolding tick resume get_owned_games
  step ticking b = tick json b
  step resuming b = resume json b.task b
  step importing b = record b {
    games = (get_owned_games (record b.games { add_game_lever = true })).0;
    owned_games_parsed = true;
  }
  step (titled appid title type_ parent) b =
      or_same b (update_app_title appid title type_ parent b.games)
  step (writing user_info) b = record b { user_info = user_info }

  unfoldable pub run : List Event → Backend J → Backend J
  unfolding step
  run [] b = b
  run (e ∷ es) b = run es (step e b)
