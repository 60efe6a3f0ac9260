-- ===== src/UserInfo.antt =====
-- `UserInfoCache` of src/steam_network/user_info_cache.py: who is logged in, and with which tokens.
-- Texts are their UTF-8 bytes, so `encode` and `decode` change nothing.
pub mod Base64
pub mod Decimal
pub mod Stored
pub mod Changes
mod Tests
pub mod Defs
pub use Defs.{UserInfo, truthy}
unfoldable pub use Defs.{
  is_initialized, check_initialized, set_steam_id, set_account_username, set_persona_name,
  set_access_token, set_refresh_token, read_changed, clear, new_cache,
}
