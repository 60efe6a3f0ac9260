-- ===== src/Auth/Protocol.antt =====
-- The requests of src/steam_network/protocol_client.py that a login makes, each from the reply it
-- awaits. `Replies` is what Steam answers to the messages of one request.
use galaxy_integration_steam.Prelude.{
  ℕ, Bool, true, false, ◌||◌, List, [], ◌∷◌, Option, none, some, ◌==◌, if◌then◌else◌, Result, ok,
  err,
}
use galaxy_integration_steam.Prelude.Keys.{nat_eq, contains}
use galaxy_integration_steam.Prelude.Text.{Text}
use galaxy_integration_steam.Prelude.Dict.{Dict}
use galaxy_integration_steam.UserInfo.Defs.{
  UserInfo, set_steam_id, set_refresh_token, set_persona_name, set_access_token, differ,
}
use galaxy_integration_steam.Auth.EResult
use galaxy_integration_steam.Auth.Results.{Raised, raised_by}
use galaxy_integration_steam.Auth.Methods.{
  TwoFactorMethod, UserActionRequired, no_action_required, no_action_confirm_token,
  no_action_confirm_login, two_factor_expired, invalid_auth_data, AuthenticationCache,
  confirmations, method_eq,
}

-- CAuthentication_BeginAuthSessionViaCredentials_Response
pub record LoginMessage : Type 0 where
  pub client_id : ℕ
  pub steamid : ℕ
  pub request_id : Text
  pub allowed_confirmations : List (ℕ × Text)
  pub extended_error_message : Text

-- CAuthentication_PollAuthSessionStatus_Response
pub record StatusMessage : Type 0 where
  pub new_client_id : ℕ
  pub refresh_token : Text
  pub access_token : Text
  pub account_name : Text

pub record Replies : Type 0 where
  pub rsa : ℕ
  pub login : ℕ
  pub message : LoginMessage
  pub two_factor : ℕ
  pub poll : ℕ
  pub status : StatusMessage
  pub token : ℕ
  pub token_steam_id : Option ℕ

-- src/steam_network/steam_auth_polling_data.py, less the interval, which nothing reads.
pub record SteamPollingData : Type 0 where
  pub client_id : ℕ
  pub steam_id : ℕ
  pub request_id : Text
  pub allowed_confirmations : Dict TwoFactorMethod Text
  pub extended_error_message : Text

-- What a login changes: the caches that the backend shares with the socket, the polling data, and
-- whether the client has a handler for the loss of the login.
pub record Session : Type 0 where
  pub user_info : UserInfo
  pub authentication : AuthenticationCache
  pub polling : Option SteamPollingData
  pub auth_lost_handler : Bool

abbrev pub Reply : Type 0 → Type 0
Reply A = Session × Result Raised A

abbrev pub handled : Session → Session
handled s = record s { auth_lost_handler = true }

unfoldable pub get_rsa_public_key : Replies → Session → Session × Bool
get_rsa_public_key r s = if r.rsa == EResult.ok_result then (handled s, true) else (s, false)

-- `if user_info_cache.steam_id != i: user_info_cache.steam_id = i`
abbrev pub note_steam_id : ℕ → Session → Session
note_steam_id i s =
    if differ s.user_info.steam_id (some i)
    then record s { user_info = set_steam_id (some i) s.user_info }
    else s

unfoldable pub login_handler : Replies → Session → Session × Option SteamPollingData
login_handler r s =
    if r.login == EResult.ok_result
    then (
      note_steam_id r.message.steamid s,
      some record {
        client_id = r.message.client_id;
        steam_id = r.message.steamid;
        request_id = r.message.request_id;
        allowed_confirmations = confirmations r.message.allowed_confirmations [];
        extended_error_message = r.message.extended_error_message;
      },
    )
    else (s, none)

unfoldable pub authenticate_password : Replies → Session → Reply (Option SteamPollingData)
authenticate_password r s =
    let (s', polled) = login_handler r s in
    if r.login == EResult.ok_result
    then (handled s', ok polled)
    else if contains r.login (
        EResult.invalid_password ∷ EResult.invalid_param ∷ EResult.invalid_steam_id
        ∷ EResult.account_not_found ∷ EResult.invalid_login_auth_code ∷ [])
    then (handled s', ok polled)
    else (s', err (raised_by r.login))

unfoldable pub update_two_factor : Replies → Session → Reply UserActionRequired
update_two_factor r s =
    if (r.two_factor == EResult.ok_result) || (r.two_factor == EResult.duplicate_request)
    then (handled s, ok no_action_confirm_login)
    else if r.two_factor == EResult.expired
    then (handled s, ok two_factor_expired)
    else if (r.two_factor == EResult.invalid_login_auth_code)
        || (r.two_factor == EResult.two_factor_code_mismatch)
    then (handled s, ok invalid_auth_data)
    else (s, err (raised_by r.two_factor))

abbrev pub store_tokens : StatusMessage → UserInfo → UserInfo
store_tokens m u =
    set_access_token (some m.access_token)
      (set_persona_name (some m.account_name) (set_refresh_token (some m.refresh_token) u))

unfoldable pub check_auth_status : Replies → Bool → Session → Reply (UserActionRequired × ℕ)
check_auth_status r two_factor_is_confirm s =
    if r.poll == EResult.ok_result
    then (elim r.status.refresh_token [
      | [] ↦ (s, ok (no_action_confirm_login, r.status.new_client_id))
      | _ ∷ _ ↦ (
        record s { auth_lost_handler = true; user_info = store_tokens r.status s.user_info },
        ok (no_action_confirm_token, r.status.new_client_id),
      )
    ])
    else if r.poll == EResult.expired
    then (handled s, ok (two_factor_expired, r.status.new_client_id))
    else if r.poll == EResult.file_not_found
    then (
      handled s,
      ok (
        (if two_factor_is_confirm then no_action_confirm_login else two_factor_expired),
        r.status.new_client_id,
      ),
    )
    else (s, err (raised_by r.poll))

abbrev note_some_id : Option ℕ → Session → Session
note_some_id none s = s
note_some_id (some i) s = note_steam_id i s

unfoldable pub finalize_login : Replies → Session → Reply UserActionRequired
finalize_login r s =
    let s' = note_some_id r.token_steam_id s in
    if r.token == EResult.ok_result
    then (handled s', ok no_action_required)
    else if r.token == EResult.access_denied
    then (s', ok invalid_auth_data)
    else (s', err (raised_by r.token))
