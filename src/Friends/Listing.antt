-- ===== src/Friends/Listing.antt =====
-- The friends as Galaxy gets them: `_process_user_nicknames` of
-- src/steam_network/protocol/protobuf_client.py, `get_friends` and `get_friends_info` of
-- src/steam_network/websocket_client.py, and of src/backend_steam_network.py `get_friends` with the
-- user of Galaxy. The caches that they wait for are ready.
use galaxy_integration_steam.Prelude.{
  ℕ, ◌+◌, ◌/◌, ◌%◌, List, [], ◌∷◌, ◌++◌, Option, none, some, if◌then◌else◌, ltb, Result, ok, err,
  ◌>>=◌, map,
}
use galaxy_integration_steam.Prelude.Keys.{◌=?◌, nat_eq}
use galaxy_integration_steam.Prelude.Text.{Text, codes, list_eq}
use galaxy_integration_steam.Prelude.Dict.{Dict, get, put, keys}
use galaxy_integration_steam.UserInfo.Decimal.{str, int}
use galaxy_integration_steam.Friends.Defs.{ProtoUserInfo, FriendsCache}

pub data ListingError : Type 0 where
  authentication_required unknown_user value_error attribute_error type_error : ListingError

-- An id and a nickname for each user.
unfoldable pub user_nicknames : List (ℕ × Text) → Dict Text Text → Dict Text Text
user_nicknames [] d = d
user_nicknames ((steamid, nickname) ∷ ns) d = user_nicknames ns (put (str steamid) nickname d)

-- `get_friends` of the client
abbrev pub friend_ids : FriendsCache → List Text
friend_ids c = map str (keys c.info)

abbrev pub put_info :
    Text → Option ProtoUserInfo → Dict Text ProtoUserInfo → Dict Text ProtoUserInfo
put_info user_id none d = d
put_info user_id (some info) d = put user_id info d

-- `get_friends_info`, with the dictionary `result`
unfoldable pub get_friends_info :
    FriendsCache
    → List Text
    → Dict Text ProtoUserInfo
    → Result ListingError (Dict Text ProtoUserInfo)
get_friends_info c [] d = ok d
get_friends_info c (user_id ∷ users) d =
    let next = get_friends_info c users in
    elim (int user_id) [
      | none ↦ err value_error
      | some i ↦ next (put_info user_id (get i c.info) d)
    ]

abbrev pub hex_digit : ℕ → ℕ
hex_digit n = if ltb n 10 then n + 48 else n + 87

-- `bytes.hex()`
abbrev pub hex : List ℕ → Text
hex [] = []
hex (b ∷ bs) = hex_digit (b / 16) ∷ hex_digit (b % 16) ∷ hex bs

abbrev pub no_avatar_set : Text
no_avatar_set = codes "0000000000000000000000000000000000000000"

abbrev pub default_avatar_hash : Text
default_avatar_hash = codes "fef49e7fa7e1997310d705b2a6158ff8dc1cdfeb"

abbrev pub first_two : Text → Text
first_two [] = []
first_two (a ∷ []) = a ∷ []
first_two (a ∷ b ∷ t) = a ∷ b ∷ []

abbrev pub avatar_url : Text → Text
avatar_url h =
    codes "https://steamcdn-a.akamaihd.net/steamcommunity/public/images/avatars/"
    ++ first_two h
    ++ codes "/"
    ++ h
    ++ codes "_full.jpg"

unfoldable pub avatar_url_from_avatar_hash : Text → Text
avatar_url_from_avatar_hash h = avatar_url (if h =? no_avatar_set then default_avatar_hash else h)

-- `UserInfo` of Galaxy's API
pub record GalaxyUser : Type 0 where
  pub user_id : Text
  pub user_name : Option Text
  pub avatar_url : Text
  pub profile_url : Text

-- `_galaxy_user_info_from_user_info`; with no hash `None.hex()` raises.
unfoldable pub galaxy_user_info :
    Text → Option Text → Option (List ℕ) → Result ListingError GalaxyUser
unfolding avatar_url_from_avatar_hash
galaxy_user_info user_id name none = err attribute_error
galaxy_user_info user_id name (some avatar_hash) = ok record {
  user_id = user_id;
  user_name = name;
  avatar_url = avatar_url_from_avatar_hash (hex avatar_hash);
  profile_url = codes "https://steamcommunity.com/profiles/" ++ user_id;
}

-- `+=` on a name that is None raises.
unfoldable pub add_nickname :
    Option Text → GalaxyUser → Option Text → Result ListingError GalaxyUser
add_nickname none user name = ok user
add_nickname (some nickname) user none = err type_error
add_nickname (some nickname) user (some name) =
    ok (record user { user_name = some (name ++ codes " (" ++ nickname ++ codes ")") })

-- The loop over the infos.
unfoldable pub galaxy_users :
    Dict Text Text → Dict Text ProtoUserInfo → Result ListingError (List GalaxyUser)
unfolding galaxy_user_info add_nickname
galaxy_users nicknames [] = ok []
galaxy_users nicknames ((friend_id, info) ∷ d) = do
  user ← galaxy_user_info friend_id info.name info.avatar_hash
  named ← add_nickname (get friend_id nicknames) user user.user_name
  rest ← galaxy_users nicknames d
  ok (named ∷ rest)

-- `get_friends` of the backend
unfoldable pub get_friends : Option ℕ → FriendsCache → Result ListingError (List GalaxyUser)
unfolding get_friends_info galaxy_users
get_friends none c = err authentication_required
get_friends (some me) c = do
  infos ← get_friends_info c (friend_ids c) []
  galaxy_users c.nicknames infos
