-- ===== src/UserInfo/Defs.antt =====
-- The fields, the properties with their setters, and `Clear`.
use galaxy_integration_steam.Prelude.{
  ℕ, Bool, true, false, not, ◌&&◌, ◌∷◌, Option, none, some, if◌then◌else◌,
}
use galaxy_integration_steam.Prelude.Keys.{Eq, ◌=?◌, nat_eq}
use galaxy_integration_steam.Prelude.Text.{Text, list_eq}

-- `changed` is `_changed`, and `initialized` whether the event is set.
pub record UserInfo : Type 0 where
  pub steam_id : Option ℕ
  pub account_username : Option Text
  pub persona_name : Option Text
  pub refresh_token : Option Text
  pub access_token : Option Text
  pub changed : Bool
  pub initialized : Bool

unfoldable pub new_cache : UserInfo
new_cache = record {
  steam_id = none;
  account_username = none;
  persona_name = none;
  refresh_token = none;
  access_token = none;
  changed = false;
  initialized = false;
}

-- Neither None nor empty.
abbrev pub truthy : Option Text → Bool
truthy (some (c ∷ t)) = true
truthy _ = false

abbrev pub is_some {ℓ} : {A : Type ℓ} → Option A → Bool
is_some none = false
is_some (some _) = true

unfoldable pub is_initialized : UserInfo → Bool
is_initialized u =
    is_some u.steam_id
    && truthy u.account_username
    && truthy u.persona_name
    && truthy u.refresh_token

unfoldable pub check_initialized : UserInfo → UserInfo
check_initialized u =
    if is_initialized u then record u { initialized = true; changed = true } else u

-- `a != b` on values that may be None.
abbrev pub differ {ℓ} : {A : Type ℓ} ⦃e : Eq A⦄ → Option A → Option A → Bool
differ none none = false
differ (some a) (some b) = not (a =? b)
differ _ _ = true

-- What the setters share: the change is noted once the cache is initialized; until then each write
-- checks whether it is now. `written` is the cache with the new value.
unfoldable pub after_write : Bool → UserInfo → UserInfo
unfolding check_initialized
after_write differs written =
    if written.initialized
    then (if differs then record written { changed = true } else written)
    else check_initialized written

unfoldable pub set_steam_id : Option ℕ → UserInfo → UserInfo
set_steam_id v u = after_write (differ u.steam_id v) (record u { steam_id = v })

unfoldable pub set_account_username : Option Text → UserInfo → UserInfo
set_account_username v u =
    after_write (differ u.account_username v) (record u { account_username = v })

unfoldable pub set_persona_name : Option Text → UserInfo → UserInfo
set_persona_name v u = after_write (differ u.persona_name v) (record u { persona_name = v })

unfoldable pub set_access_token : Option Text → UserInfo → UserInfo
set_access_token v u = after_write (differ u.access_token v) (record u { access_token = v })

unfoldable pub set_refresh_token : Option Text → UserInfo → UserInfo
set_refresh_token v u = after_write (differ u.refresh_token v) (record u { refresh_token = v })

-- Reading the property `changed` resets it.
unfoldable pub read_changed : UserInfo → UserInfo × Bool
read_changed u = if u.changed then (record u { changed = false }, true) else (u, false)

-- `Clear` leaves `_changed` and the event as they are.
unfoldable pub clear : UserInfo → UserInfo
clear u = record u {
  refresh_token = none;
  steam_id = none;
  account_username = none;
  persona_name = none;
  access_token = none;
}
