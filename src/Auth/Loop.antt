-- ===== src/Auth/Loop.antt =====
-- `_all_auth_calls` of src/steam_network/websocket_client.py: the task that answers the backend.
use galaxy_integration_steam.Prelude.{
  ℕ, Bool, false, not, ◌&&◌, List, [], ◌∷◌, Option, none, some, if◌then◌else◌, Result, ok, err,
}
use galaxy_integration_steam.Prelude.Keys.{◌=?◌, nat_eq}
use galaxy_integration_steam.Prelude.Text.{Text}
use galaxy_integration_steam.UserInfo.Defs.{set_account_username, truthy}
use galaxy_integration_steam.Auth.Results.{Raised, attribute_error}
use galaxy_integration_steam.Auth.Methods.{
  TwoFactorMethod, nothing, UserActionRequired, invalid_auth_data, method_eq, pair, to_user_action,
  update_authentication_cache, has_valid_confirmation_method,
}
use galaxy_integration_steam.Auth.Protocol.{
  Replies, Session, Reply, SteamPollingData, get_rsa_public_key, authenticate_password,
  update_two_factor, check_auth_status, finalize_login,
}

-- What the backend puts into the queue `websocket`, by its mode.
pub data Request : Type 0 where
  rsa_and_login : (username password : Option Text) → Request
  update_two_factor_code : (code : Option Text) (m : Option TwoFactorMethod) → Request
  poll_two_factor : (is_confirm : Bool) → Request
  token : Request
  other_mode : Request

-- `to_UserAction(two_factor_allowed_methods[0])`: the element is a pair.
abbrev pub first_action : List (TwoFactorMethod × Text) → UserActionRequired
first_action [] = invalid_auth_data
first_action ((m, msg) ∷ _) = to_user_action (pair m msg)

-- The polling data that came back is stored whatever it is.
unfoldable pub after_password :
    Text → Session × Result Raised (Option SteamPollingData) → Reply UserActionRequired
after_password username (s, err e) = (s, err e)
after_password username (s, ok none) = (record s { polling = none }, ok invalid_auth_data)
after_password username (s, ok (some polled)) =
    let known =
      update_authentication_cache polled.allowed_confirmations polled.extended_error_message
        s.authentication in
    if has_valid_confirmation_method polled.allowed_confirmations
    then (
      record s {
        polling = some polled;
        user_info = set_account_username (some username) s.user_info;
        authentication = known;
      },
      ok (first_action known.two_factor_allowed_methods),
    )
    else (record s { polling = some polled }, ok invalid_auth_data)

-- The branch RSA_AND_LOGIN. The password is enciphered with the key by a library.
unfoldable pub rsa_login : Replies → Option Text → Option Text → Session → Reply UserActionRequired
rsa_login r none password s = (s, ok invalid_auth_data)
rsa_login r (some username) password s =
    let (s', successful) = get_rsa_public_key r s in
    if truthy (some username) && truthy password
    then (if successful
        then after_password username (authenticate_password r s')
        else (s', ok invalid_auth_data))
    else (s, ok invalid_auth_data)

-- `not method` holds of None and of the method with value 0.
abbrev pub usable : Option TwoFactorMethod → Bool
usable none = false
usable (some m) = not (m =? nothing)

unfoldable pub two_factor_login :
    Replies → Option Text → Option TwoFactorMethod → Session → Reply UserActionRequired
two_factor_login r code m s = elim s.polling [
  | none ↦ (s, ok invalid_auth_data)
  | some polled ↦
      if has_valid_confirmation_method polled.allowed_confirmations && truthy code && usable m
      then update_two_factor r s
      else (s, ok invalid_auth_data)
]

abbrev renew_client_id : ℕ → Option SteamPollingData → Option SteamPollingData
renew_client_id i none = none
renew_client_id i (some polled) = some (record polled { client_id = i })

abbrev after_poll : Session × Result Raised (UserActionRequired × ℕ) → Reply UserActionRequired
after_poll (s, err e) = (s, err e)
after_poll (s, ok (action, i)) = (record s { polling = renew_client_id i s.polling }, ok action)

-- With no polling data, reading its client id raises.
unfoldable pub poll_login : Replies → Bool → Session → Reply UserActionRequired
poll_login r is_confirm s = elim s.polling [
  | none ↦ (s, err attribute_error)
  | some polled ↦ after_poll (check_auth_status r is_confirm s)
]

-- One round of the loop.
unfoldable pub auth_call : Replies → Request → Session → Reply UserActionRequired
auth_call r (rsa_and_login username password) s = rsa_login r username password s
auth_call r (update_two_factor_code code m) s = two_factor_login r code m s
auth_call r (poll_two_factor is_confirm) s = poll_login r is_confirm s
auth_call r token s = finalize_login r s
auth_call r other_mode s = (s, ok invalid_auth_data)
