-- ===== src/Friends/Persona.antt =====
-- `_process_client_persona_state` and `_process_rich_presence_translations` of
-- src/steam_network/protocol/protobuf_client.py, with `_user_info_handler` and `_translations_handler` of
-- src/steam_network/protocol_client.py. A field of a message that is not set is `none`; T is the type of
-- the lists of tokens.
use galaxy_integration_steam.Prelude.{
  ℕ, Bool, true, not, ◌&&◌, List, [], ◌∷◌, ◌++◌, Option, none, some, if◌then◌else◌, ◌==◌, leb,
  Result, ok, err, map,
}
use galaxy_integration_steam.Prelude.Keys.{◌=?◌, nat_eq, contains}
use galaxy_integration_steam.Prelude.Text.{Text, codes, list_eq}
use galaxy_integration_steam.Prelude.Dict.{Dict, has, put}
use galaxy_integration_steam.Friends.Defs.{FriendsCache, Event, update}
use galaxy_integration_steam.Friends.Messages.{FriendsError, value_error}
use galaxy_integration_steam.Friends.Presence.{hash}

pub data Value : Type 0 where
  text bytes : Text → Value

-- A friend of CMsgClientPersonaState.
pub record Friend : Type 0 where
  pub friendid : ℕ
  pub game_played_app_id : ℕ
  pub player_name : Option Text
  pub avatar_hash : Option Text
  pub persona_state : Option ℕ
  pub gameid : Option ℕ
  pub rich_presence : List (Text × Value)
  pub game_name : Option Text

-- The cache of friends with what it reports, the translations by game, and the requests that are sent:
-- for the infos of apps, and for the translations of a game.
pub record Client (T : Type 0) : Type 0 where
  pub friends : FriendsCache
  pub events : List Event
  pub translations : Dict ℕ (Option T)
  pub apps_asked : List ℕ
  pub translations_asked : List ℕ

-- The two tests on an element of the rich presence.
abbrev pub asks : Text → Text → Text → Bool
asks name key value = (key =? name) && contains hash value

abbrev pub as_pairs : Dict Text Text → List (List Text)
as_pairs = map (λ (p : Text × Text). p.0 ∷ p.1 ∷ [])

abbrev pub is_app : ℕ → Bool
is_app app = not (app == 0)

-- `EPersonaState(n)` raises on a number above 7.
abbrev pub valid_state : Option ℕ → Bool
valid_state none = true
valid_state (some n) = leb n 7

module _ {T : Type 0} where
  -- `_translations_handler`
  unfoldable pub translations_handler : ℕ → List T → Client T → Client T
  translations_handler appid [] c = if has appid c.translations then c else record c {
    translations = put appid none c.translations;
    translations_asked = c.translations_asked ++ (appid ∷ []);
  }
  translations_handler appid (t ∷ ts) c =
      if appid == 0
      then (if has appid c.translations then c else record c {
        translations = put appid none c.translations;
        translations_asked = c.translations_asked ++ (appid ∷ []);
      })
      else record c { translations = put appid (some t) c.translations }

  unfoldable pub ask_for : Text → ℕ → Text → Text → Client T → Client T
  unfolding translations_handler
  ask_for name gameid key value c =
      if asks name key value then translations_handler gameid [] c else c

  -- The loop over the elements; bytes end it with no rich presence at all.
  unfoldable pub read_rich_presence :
      ℕ → List (Text × Value) → Dict Text Text → Client T → Dict Text Text × Client T
  unfolding ask_for
  read_rich_presence gameid [] d c = (d, c)
  read_rich_presence gameid ((key, bytes b) ∷ es) d c = ([], c)
  read_rich_presence gameid ((key, text v) ∷ es) d c =
      read_rich_presence gameid es (put key v d)
        (ask_for (codes "steam_display") gameid key v (ask_for (codes "status") gameid key v c))

  unfoldable pub read_game :
      Option ℕ → List (Text × Value) → Client T → Option (List (List Text)) × Client T
  unfolding read_rich_presence
  read_game none elements c = (none, c)
  read_game (some gameid) elements c =
      let (d, c') = read_rich_presence gameid elements [] c in (some (as_pairs d), c')

  abbrev pub ask_for_app : Option ℕ → ℕ → ℕ → Client T → Client T
  ask_for_app none friendid app c = c
  ask_for_app (some me) friendid app c =
      if friendid == me && is_app app
      then record c { apps_asked = c.apps_asked ++ (app ∷ []) }
      else c

  -- `_user_info_handler`, with the info of a friend.
  unfoldable pub user_info_handler : Friend → Client T → Client T
  unfolding read_game update
  user_info_handler f c =
      let (pairs, c') = read_game f.gameid f.rich_presence c in
      let (friends, events) =
        update f.friendid
          record {
            name = f.player_name;
            avatar_hash = f.avatar_hash;
            state = f.persona_state;
            game_id = f.gameid;
            game_name = f.game_name;
            rich_presence = pairs;
          }
          c'.friends in
      record c' { friends = friends; events = c'.events ++ events }

  unfoldable pub process_client_persona_state :
      Option ℕ → List Friend → Client T → Client T × Result FriendsError (Unit {0})
  unfolding user_info_handler
  process_client_persona_state confirmed [] c = (c, ok tt)
  process_client_persona_state confirmed (f ∷ fs) c =
      let asked = ask_for_app confirmed f.friendid f.game_played_app_id c in
      let rest = process_client_persona_state confirmed fs (user_info_handler f asked) in
      if valid_state f.persona_state then rest else (asked, err value_error)

-- A message about friends, or the translations of a game.
pub data Message (T : Type 0) : Type 0 where
  persona : List Friend → Message T
  translated : ℕ → List T → Message T

unfoldable pub handle : {T : Type 0} → Option ℕ → Message T → Client T → Client T
unfolding process_client_persona_state translations_handler
handle confirmed (persona fs) c = (process_client_persona_state confirmed fs c).0
handle confirmed (translated appid tokens) c = translations_handler appid tokens c

unfoldable pub handle_all : {T : Type 0} → Option ℕ → List (Message T) → Client T → Client T
unfolding handle
handle_all confirmed [] c = c
handle_all confirmed (m ∷ ms) c = handle_all confirmed ms (handle confirmed m c)
