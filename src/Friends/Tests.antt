-- ===== src/Friends/Tests.antt =====
-- Runs of the friends cache.
use galaxy_integration_steam.Prelude.{
  ℕ, ◌≡◌, refl, true, false, List, [], ◌∷◌, ◌++◌, ◌>>=◌, map, Option, none, some, ok, arith,
}
use galaxy_integration_steam.Prelude.Keys.{◌=?◌, nat_eq}
use galaxy_integration_steam.Prelude.Dict.{Dict}
use galaxy_integration_steam.Prelude.Text.{Text, codes, list_eq}
use galaxy_integration_steam.Friends.Defs.{FriendsCache, ProtoUserInfo, no_info}
use galaxy_integration_steam.Friends.Tracking.{IsTracked, change, resetting, change-IsTracked}
use galaxy_integration_steam.Friends.Presence.{Token, Patterns, Shown, presence_from_user_info}
use galaxy_integration_steam.Friends.Status.{IsResolved, presence_from_user_info-IsResolved}
use galaxy_integration_steam.Friends.Persona.{
  text, Friend, Client, Message, persona, translated, handle_all,
}
use galaxy_integration_steam.Friends.Translations.{IsAskedOnce, handle_all-IsAskedOnce}
use galaxy_integration_steam.UserInfo.Decimal.{str}
use galaxy_integration_steam.Friends.Listing.{GalaxyUser, get_friends, user_nicknames}
use galaxy_integration_steam.Friends.Listed.{shown, get_friends-shown}
use galaxy_integration_steam.Friends.Context.{
  prepare_user_presence_context, get_user_presence, presence_of, get_user_presence-prepared,
}

abbrev alice : ProtoUserInfo
alice = record no_info { name = some (codes "alice"); state = some 1 }

abbrev two_friends : FriendsCache
two_friends = record {
  pending = (8, record { personal_info = true; state = false }) ∷ [];
  info = (7, alice) ∷ (8, no_info) ∷ [];
  ready = false;
  nicknames = [];
  nicknames_parsed = false;
}

two_friends-IsTracked : IsTracked two_friends
two_friends-IsTracked = record { tracks = λ k p. ground (arith, p); settled = λ p. p }

change-IsTracked_example : IsTracked (change (resetting (7 ∷ 9 ∷ [])) two_friends)
change-IsTracked_example =
    change-IsTracked (resetting (7 ∷ 9 ∷ [])) two_friends two_friends-IsTracked

abbrev whole_list : Dict ℕ ℕ
whole_list = (9, 3) ∷ (10, 1) ∷ []

abbrev changed_list : Dict ℕ ℕ
changed_list = (7, 0) ∷ (9, 3) ∷ []

-- `#in_lobby` is a token, `%map%` a parameter, each alone in the status.
abbrev whole_texts : Patterns
whole_texts = record {
  has_param = λ p t. (codes "%" ++ p ++ codes "%") =? t;
  sub_param = λ p v t. some v;
  has_token = λ k t. some (k =? t);
  sub_token = λ k v t. some v;
}

abbrev in_lobby : Dict ℕ (Option (List Token))
in_lobby = (570, some (record { name = codes "#in_lobby"; value = codes "%map%" } ∷ [])) ∷ []

abbrev on_map : Dict Text Text
on_map = (codes "steam_display", codes "#in_lobby") ∷ (codes "map", codes "{Dust}") ∷ []

abbrev player : Shown
player = record {
  state = some 1;
  game_id = some 570;
  game_name = some (codes "Dota 2");
  rich_presence = some on_map;
}

-- The token gives the parameter, the parameter its value, and the braces are blanked.
player_shown :
    (presence_from_user_info whole_texts in_lobby player).in_game_status ≡ some (codes " Dust ")
unfolding presence_from_user_info
player_shown = refl

presence_from_user_info-IsResolved_example :
    IsResolved whole_texts in_lobby (some 570) on_map (codes " Dust ")
presence_from_user_info-IsResolved_example =
    presence_from_user_info-IsResolved whole_texts in_lobby player on_map (codes " Dust ") refl
      player_shown

abbrev empty_client : Client Token
empty_client = record {
  friends = two_friends;
  events = [];
  translations = [];
  apps_asked = [];
  translations_asked = [];
}

abbrev bob : Friend
bob = record {
  friendid = 8;
  game_played_app_id = 570;
  player_name = some (codes "bob");
  avatar_hash = none;
  persona_state = some 1;
  gameid = some 570;
  rich_presence =
      (codes "status", text (codes "#a")) ∷ (codes "steam_display", text (codes "#b")) ∷ [];
  game_name = none;
}

abbrev messages : List (Message Token)
messages = persona (bob ∷ []) ∷ translated 570 [] ∷ persona (bob ∷ bob ∷ []) ∷ []

messages_ask : (handle_all (some 8) messages empty_client).translations_asked ≡ 570 ∷ []
unfolding handle_all
messages_ask = refl

handle_all-IsAskedOnce_example : IsAskedOnce 570 (handle_all (some 8) messages empty_client)
handle_all-IsAskedOnce_example =
    handle_all-IsAskedOnce 570 (some 8) messages empty_client (omega arith)

abbrev known_friends : FriendsCache
known_friends = record two_friends {
  info =
      (7, record alice { avatar_hash = some (254 ∷ 15 ∷ []) })
      ∷ (8, record alice { avatar_hash = some (0 ∷ []) })
      ∷ [];
  nicknames = (codes "8", codes "ace") ∷ [];
}

nicknames_read : user_nicknames ((8, codes "ace") ∷ []) [] ≡ known_friends.nicknames
unfolding user_nicknames str
nicknames_read = refl

get_friends-shown_example :
    get_friends (some 1) known_friends ≡ ok (map (shown known_friends.nicknames) known_friends.info)
get_friends-shown_example =
    get_friends-shown 1 known_friends (refl, (refl, tt)) ((refl, refl), ((refl, refl), tt))

names_shown :
    map (λ (u : GalaxyUser). u.user_name) (map (shown known_friends.nicknames) known_friends.info)
    ≡ some (codes "alice") ∷ some (codes "alice (ace)") ∷ []
unfolding str
names_shown = refl

get_user_presence-prepared_example :
    (prepare_user_presence_context known_friends (map str (8 ∷ 9 ∷ []))
      >>= get_user_presence whole_texts in_lobby (str 8))
    ≡ presence_of whole_texts in_lobby (some (record alice { avatar_hash = some (0 ∷ []) }))
get_user_presence-prepared_example =
    get_user_presence-prepared whole_texts in_lobby known_friends (8 ∷ 9 ∷ []) 8
