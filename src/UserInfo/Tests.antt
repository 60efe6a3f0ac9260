-- ===== src/UserInfo/Tests.antt =====
-- Runs of the user info cache.
use galaxy_integration_steam.Prelude.{◌≡◌, refl, true, false, List, [], ◌∷◌, none, some, arith}
use galaxy_integration_steam.Prelude.Keys.{nat_eq}
use galaxy_integration_steam.Prelude.Text.{list_eq}
use galaxy_integration_steam.UserInfo.Defs.{
  UserInfo, is_initialized, set_account_username, read_changed, new_cache, set_steam_id,
  set_persona_name, set_refresh_token, after_write, check_initialized,
}
use galaxy_integration_steam.UserInfo.Stored.{to_dict, from_dict, from_dict-to_dict}
use galaxy_integration_steam.UserInfo.Changes.{
  Write, steam_id, account_username, persona_name, refresh_token, write_all, read_changed-write_all,
}

abbrev alice : UserInfo
alice = record {
  steam_id = some 76561;
  account_username = some (97 ∷ 108 ∷ []);
  persona_name = some (65 ∷ []);
  refresh_token = some (101 ∷ 121 ∷ 74 ∷ []);
  access_token = none;
  changed = false;
  initialized = true;
}

from_dict-to_dict_example :
    from_dict (to_dict alice) new_cache
    ≡ some (record new_cache {
      steam_id = some 76561;
      account_username = some (97 ∷ 108 ∷ []);
      persona_name = some (65 ∷ []);
      refresh_token = some (101 ∷ 121 ∷ 74 ∷ []);
    })
unfolding is_initialized
from_dict-to_dict_example =
    from_dict-to_dict alice new_cache
      record {
        username_bytes = ground arith;
        persona_bytes = ground arith;
        token_bytes = ground arith;
      }
      refl

abbrev login : List Write
login =
    steam_id (some 76561)
    ∷ account_username (some (97 ∷ []))
    ∷ refresh_token (some (101 ∷ []))
    ∷ persona_name (some (65 ∷ []))
    ∷ []

read_changed-write_all_example :
    ((write_all login new_cache).initialized ≡ true)
    × ((read_changed (write_all login new_cache)).1 ≡ true)
unfolding is_initialized new_cache set_account_username set_steam_id set_persona_name
    set_refresh_token after_write check_initialized
read_changed-write_all_example = read_changed-write_all login refl
