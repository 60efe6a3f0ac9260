-- ===== src/UserInfo/Changes.antt =====
-- When the backend is told to store the credentials anew: the flag behind the property `changed`.
use galaxy_integration_steam.Prelude.{ℕ, ◌≡◌, Bool, true, List, [], ◌∷◌, arith, Option, some}
use galaxy_integration_steam.Prelude.Keys.{nat_eq}
use galaxy_integration_steam.Prelude.Text.{Text, list_eq}
use galaxy_integration_steam.UserInfo.Defs.{
  UserInfo, is_initialized, check_initialized, after_write, differ, set_steam_id,
  set_account_username, set_persona_name, set_access_token, set_refresh_token, read_changed, clear,
  new_cache,
}
use galaxy_integration_steam.UserInfo.Stored.{to_dict, no_credentials}

-- The writes that the login makes to the cache.
pub data Write : Type 0 where
  steam_id : Option ℕ → Write
  account_username persona_name access_token refresh_token : Option Text → Write

abbrev pub write : Write → UserInfo → UserInfo
write (steam_id v) = set_steam_id v
write (account_username v) = set_account_username v
write (persona_name v) = set_persona_name v
write (access_token v) = set_access_token v
write (refresh_token v) = set_refresh_token v

abbrev pub write_all : List Write → UserInfo → UserInfo
write_all [] u = u
write_all (w ∷ ws) u = write_all ws (write w u)

-- A complete cache has its event set, and a set event has the flag with it.
abbrev pub IsNoted : UserInfo → Type 0
IsNoted u =
    ((is_initialized u ≡ true) → u.initialized ≡ true) × ((u.initialized ≡ true) → u.changed ≡ true)

after_write-IsNoted :
    (differs : Bool) (u : UserInfo)
    → (u.initialized ≡ true → u.changed ≡ true)
    → IsNoted (after_write differs u)
unfolding after_write check_initialized is_initialized
after_write-IsNoted differs u h = (ground arith, ground arith)

write-IsNoted : (w : Write) (u : UserInfo) → IsNoted u → IsNoted (write w u)
unfolding set_steam_id set_account_username set_persona_name set_access_token set_refresh_token
write-IsNoted (steam_id v) u h =
    after_write-IsNoted (differ u.steam_id v) (record u { steam_id = v }) h.1
write-IsNoted (account_username v) u h =
    after_write-IsNoted (differ u.account_username v) (record u { account_username = v }) h.1
write-IsNoted (persona_name v) u h =
    after_write-IsNoted (differ u.persona_name v) (record u { persona_name = v }) h.1
write-IsNoted (access_token v) u h =
    after_write-IsNoted (differ u.access_token v) (record u { access_token = v }) h.1
write-IsNoted (refresh_token v) u h =
    after_write-IsNoted (differ u.refresh_token v) (record u { refresh_token = v }) h.1

write_all-IsNoted : (ws : List Write) (u : UserInfo) → IsNoted u → IsNoted (write_all ws u)
write_all-IsNoted [] u h = h
write_all-IsNoted (w ∷ ws) u h = write_all-IsNoted ws (write w u) (write-IsNoted w u h)

-- Whatever a login writes to a new cache, in whatever order: once the four parts are there, the event
-- is set and the first reading of `changed` says that the credentials are to be stored.
pub read_changed-write_all :
    (ws : List Write)
    → is_initialized (write_all ws new_cache) ≡ true
    → ((write_all ws new_cache).initialized ≡ true)
      × ((read_changed (write_all ws new_cache)).1 ≡ true)
unfolding read_changed new_cache is_initialized
read_changed-write_all ws h =
    let (event, flag) = write_all-IsNoted ws new_cache (ground arith, ground arith) in
    (event h, ground (arith, flag (event h)))

-- A cache whose event is set, once cleared, is told by the next write of a text that it changed, while
-- it has nothing to store: what the backend stores is then the empty dictionary.
pub to_dict-cleared :
    (name : Text) (u : UserInfo)
    → u.initialized ≡ true
    → ((read_changed (set_account_username (some name) (clear u))).1 ≡ true)
      × (to_dict (set_account_username (some name) (clear u)) ≡ no_credentials)
unfolding read_changed set_account_username clear to_dict is_initialized after_write
to_dict-cleared name u h = (ground arith, ground arith)
