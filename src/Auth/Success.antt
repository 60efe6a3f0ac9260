-- ===== src/Auth/Success.antt =====
-- A login with nothing in its way ends with the user logged in.
use galaxy_integration_steam.Prelude.{ℕ, ◌≡◌, refl, Bool, true, List, [], ◌∷◌, arith, some, ok}
use galaxy_integration_steam.Prelude.Keys.{nat_eq}
use galaxy_integration_steam.Prelude.Text.{Text, list_eq}
use galaxy_integration_steam.UserInfo.Defs.{
  UserInfo, check_initialized, after_write, set_steam_id, set_account_username, set_persona_name,
  set_access_token, set_refresh_token, truthy, is_some,
}
use galaxy_integration_steam.Auth.EResult
use galaxy_integration_steam.Auth.Methods.{
  TwoFactorMethod, no_action_required, no_action_confirm_token, two_factor_required, by_priority,
  confirmations, has_valid_confirmation_method, update_authentication_cache, to_user_action,
}
use galaxy_integration_steam.Auth.Protocol.{
  Replies, Session, LoginMessage, handled, SteamPollingData, note_steam_id, store_tokens,
  check_auth_status, finalize_login, login_handler, authenticate_password, get_rsa_public_key,
}
use galaxy_integration_steam.Auth.Loop.{
  poll_two_factor, token, auth_call, rsa_login, poll_login, after_password, first_action,
}

-- A write changes its field alone, less the flag and the event.
pub record SameUser (u v : UserInfo) : Type 0 where
  pub same_id : u.steam_id ≡ v.steam_id
  pub same_username : u.account_username ≡ v.account_username
  pub same_persona : u.persona_name ≡ v.persona_name
  pub same_refresh : u.refresh_token ≡ v.refresh_token

pub after_write-SameUser : (b : Bool) (u : UserInfo) → SameUser (after_write b u) u
unfolding after_write check_initialized
after_write-SameUser b u = record {
  same_id = ground arith;
  same_username = ground arith;
  same_persona = ground arith;
  same_refresh = ground arith;
}

pub store_tokens-SameUser :
    (refresh access name : Text) (u : UserInfo)
    → SameUser
        (set_access_token
          (some access)
          (set_persona_name (some name) (set_refresh_token (some refresh) u)))
        (record u {
          refresh_token = some refresh;
          persona_name = some name;
          access_token = some access;
        })
unfolding set_access_token set_persona_name set_refresh_token after_write check_initialized
store_tokens-SameUser refresh access name u = record {
  same_id = ground arith;
  same_username = ground arith;
  same_persona = ground arith;
  same_refresh = ground arith;
}

pub note_steam_id-SameUser :
    (i : ℕ) (s : Session)
    → SameUser (note_steam_id i s).user_info (record s.user_info { steam_id = some i })
unfolding set_steam_id after_write check_initialized
note_steam_id-SameUser i s = record {
  same_id = ground (arith, nat_eq.beq_iff);
  same_username = ground arith;
  same_persona = ground arith;
  same_refresh = ground arith;
}

-- The round of a poll that brings the tokens.
pub poll_login-tokens :
    (r : Replies) (is_confirm : Bool) (polled : SteamPollingData) (s : Session)
    → s.polling ≡ some polled
    → r.poll ≡ EResult.ok_result
    → truthy (some r.status.refresh_token) ≡ true
    → ((auth_call r (poll_two_factor is_confirm) s).1 ≡ ok no_action_confirm_token)
      × ((auth_call r (poll_two_factor is_confirm) s).0.user_info
          ≡ store_tokens r.status s.user_info)
unfolding auth_call poll_login check_auth_status
poll_login-tokens r is_confirm polled s known success tokens =
    (ground (arith, known, success, tokens), ground (arith, known, success, tokens))

-- The round of the token that Steam lets in.
pub finalize_login-admitted :
    (r : Replies) (s : Session) (i : ℕ)
    → r.token ≡ EResult.ok_result
    → r.token_steam_id ≡ some i
    → ((auth_call r token s).1 ≡ ok no_action_required)
      × ((auth_call r token s).0.user_info.persona_name ≡ s.user_info.persona_name)
      × ((auth_call r token s).0.user_info.steam_id ≡ some i)
unfolding auth_call finalize_login set_steam_id after_write check_initialized
finalize_login-admitted r s i admitted id_ = (
  ground (arith, admitted),
  ground (arith, admitted),
  ground (arith, admitted, id_, nat_eq.beq_iff),
)

-- The session after the password is accepted.
abbrev pub polled_by : LoginMessage → SteamPollingData
polled_by m = record {
  client_id = m.client_id;
  steam_id = m.steamid;
  request_id = m.request_id;
  allowed_confirmations = confirmations m.allowed_confirmations [];
  extended_error_message = m.extended_error_message;
}

abbrev pub accepted : LoginMessage → Text → Session → Session
accepted m username s =
    let noted = note_steam_id m.steamid (handled s) in
    record noted {
      auth_lost_handler = true;
      polling = some (polled_by m);
      user_info = set_account_username (some username) noted.user_info;
      authentication =
          update_authentication_cache (confirmations m.allowed_confirmations [])
            m.extended_error_message noted.authentication;
    }

abbrev pub methods_of : LoginMessage → List (TwoFactorMethod × Text)
methods_of m = by_priority (confirmations m.allowed_confirmations [])

pub first_action-nonempty :
    (ms rest : List (TwoFactorMethod × Text)) (x : TwoFactorMethod × Text)
    → ms ≡ x ∷ rest
    → first_action ms ≡ two_factor_required
unfolding to_user_action
first_action-nonempty [] rest x p = ground (arith, p)
first_action-nonempty ((m, msg) ∷ ms) rest x p = refl

pub rsa_login-accepted :
    (r : Replies) (c d : ℕ) (u p : Text) (s : Session)
    → r.rsa ≡ EResult.ok_result
    → r.login ≡ EResult.ok_result
    → has_valid_confirmation_method (confirmations r.message.allowed_confirmations []) ≡ true
    → rsa_login r (some (c ∷ u)) (some (d ∷ p)) s
      ≡ (accepted r.message (c ∷ u) s, ok (first_action (methods_of r.message)))
unfolding rsa_login get_rsa_public_key authenticate_password after_password login_handler
    update_authentication_cache
rsa_login-accepted r c d u p s key login valid = ground (arith, key, login, valid)

pub accepted-user :
    (m : LoginMessage) (c : ℕ) (u : Text) (s : Session)
    → (is_some (accepted m (c ∷ u) s).user_info.steam_id ≡ true)
      × (truthy (accepted m (c ∷ u) s).user_info.account_username ≡ true)
unfolding set_account_username set_steam_id after_write check_initialized
accepted-user m c u s = (ground (arith, nat_eq.beq_iff), ground (arith, nat_eq.beq_iff))
