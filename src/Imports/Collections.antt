-- ===== src/Imports/Collections.antt =====
-- The collections that Steam keeps in its cloud, `_process_collections_response` of
-- src/steam_network/protocol/protobuf_client.py, with `retrieve_collections` of protocol_client.py; and the
-- library settings and play times that src/backend_steam_network.py answers with. Ids of games are
-- numbers; `lower` is Python's.
use galaxy_integration_steam.Prelude.{
  ℕ, Bool, true, false, List, [], ◌∷◌, Option, none, some, if◌then◌else◌, ◌==◌,
}
use galaxy_integration_steam.Prelude.Keys.{◌=?◌, nat_eq, contains}
use galaxy_integration_steam.Prelude.Text.{Text, codes, list_eq}
use galaxy_integration_steam.Prelude.Dict.{Dict, get, put}
use galaxy_integration_steam.Imports.Defs.{GameTime, TimesCache, update_time, times_import_finished}

-- What `json.loads` finds in an entry: the name of a collection and the games in it. `none` is whatever
-- goes wrong, which the bare `except` passes over.
abbrev pub Loads : Type 0
Loads = Text → Option (Text × List ℕ)

-- `ProtobufClient.collections`: the dictionary, and the event.
pub record Collections : Type 0 where
  pub collections : Dict Text (List ℕ)
  pub event : Bool

abbrev pub put_collection : Option (Text × List ℕ) → Dict Text (List ℕ) → Dict Text (List ℕ)
put_collection none d = d
put_collection (some (name, added)) d = put name added d

abbrev pub put_entries : Loads → List Text → Dict Text (List ℕ) → Dict Text (List ℕ)
put_entries loads [] d = d
put_entries loads (e ∷ es) d = put_entries loads es (put_collection (loads e) d)

-- The entries of each `data` of the message.
abbrev pub put_data : Loads → List (List Text) → Dict Text (List ℕ) → Dict Text (List ℕ)
put_data loads [] d = d
put_data loads (es ∷ data_) d = put_data loads data_ (put_entries loads es d)

unfoldable pub process_collections_response : Loads → List (List Text) → Collections → Collections
process_collections_response loads data_ c = record {
  collections = put_data loads data_ c.collections;
  event = true;
}

-- `retrieve_collections` once the event is set: the collections, and what stays.
unfoldable pub retrieve_collections : Collections → Dict Text (List ℕ) × Collections
retrieve_collections c = (c.collections, record { collections = []; event = false })

-- GameLibrarySettings
pub record Settings : Type 0 where
  pub tags : Option (List Text)
  pub hidden : Option Bool

module _ (lower : Text → Text) where
  abbrev pub is_hidden : Text → Bool
  is_hidden name = lower name =? codes "hidden"

  -- The loop over the collections: the tags, and whether the game is hidden.
  abbrev pub settings_from : ℕ → Dict Text (List ℕ) → List Text × Bool
  settings_from game [] = ([], false)
  settings_from game ((name, added) ∷ d) =
      let (tags, hidden) = settings_from game d in
      if contains game added
      then (if is_hidden name then (tags, true) else (name ∷ tags, hidden))
      else (tags, hidden)

  unfoldable pub get_game_library_settings : ℕ → Dict Text (List ℕ) → Settings
  get_game_library_settings game [] = record { tags = none; hidden = none }
  get_game_library_settings game ((name, added) ∷ d) =
      let (tags, hidden) = settings_from game ((name, added) ∷ d) in
      record { tags = some tags; hidden = some hidden }

-- `_process_user_time_response` with `_times_handler` and `_times_import_finished_handler`.
pub record Played : Type 0 where
  pub appid : ℕ
  pub playtime_forever : ℕ
  pub last_playtime : ℕ

abbrev pub put_times : List Played → TimesCache → TimesCache
unfolding update_time
put_times [] c = c
put_times (g ∷ gs) c =
    put_times gs (update_time g.appid g.playtime_forever (some g.last_playtime) c)

unfoldable pub process_user_time_response : List Played → TimesCache → TimesCache
unfolding put_times times_import_finished
process_user_time_response gs c = times_import_finished true (put_times gs c)

-- GAME_DOES_NOT_SUPPORT_LAST_PLAYED_VALUE
abbrev pub does_not_support_last_played : ℕ
does_not_support_last_played = 86400

abbrev pub or_unsupported : Option ℕ → Option ℕ
or_unsupported none = none
or_unsupported (some t) = if t == does_not_support_last_played then none else some t

abbrev pub as_time : Option GameTime → Option ℕ × Option ℕ
as_time none = (none, none)
as_time (some t) = (some t.time_played, or_unsupported t.last_played)

-- The time played and the last time, of a game.
unfoldable pub get_game_time : ℕ → TimesCache → Option ℕ × Option ℕ
get_game_time game c = as_time (get game c.times)
