-- ===== src/Auth/Login.antt =====
-- What a round of the authentication loop answers, on its branches.
use galaxy_integration_steam.Prelude.{
  ◌≡◌, ◌∙◌, if_intro, Bool, true, ◌&&◌, List, [], ◌∷◌, arith, Option, none, some, Result, ok, err,
}
use galaxy_integration_steam.Prelude.Text.{Text}
use galaxy_integration_steam.UserInfo.Defs.{truthy}
use galaxy_integration_steam.Auth.EResult
use galaxy_integration_steam.Auth.Results.{Raised}
use galaxy_integration_steam.Auth.Methods.{
  TwoFactorMethod, UserActionRequired, two_factor_required, invalid_auth_data, to_user_action,
  update_authentication_cache, has_valid_confirmation_method, by_priority,
}
use galaxy_integration_steam.Auth.Protocol.{
  Replies, Session, Reply, SteamPollingData, check_auth_status, get_rsa_public_key,
}
use galaxy_integration_steam.Auth.Loop.{
  auth_call, poll_two_factor, rsa_and_login, rsa_login, after_password, poll_login, first_action,
}
use galaxy_integration_steam.Auth.Factors.{starts_known, starts_known-by_priority}

-- What a login by password answers: refused, or a second factor with a known first method.
abbrev pub IsPasswordAction : UserActionRequired → List (TwoFactorMethod × Text) → Type 0
IsPasswordAction invalid_auth_data ms = Unit
IsPasswordAction two_factor_required ms = starts_known ms ≡ true
IsPasswordAction _ ms = ⊥

abbrev pub IsTwoFactorOrRefused : Reply UserActionRequired → Type 0
IsTwoFactorOrRefused (s, ok a) = IsPasswordAction a s.authentication.two_factor_allowed_methods
IsTwoFactorOrRefused (s, err e) = Unit

first_action-IsPasswordAction :
    (ms : List (TwoFactorMethod × Text))
    → starts_known ms ≡ true
    → IsPasswordAction (first_action ms) ms
unfolding to_user_action
first_action-IsPasswordAction [] h = ground arith
first_action-IsPasswordAction ((m, msg) ∷ ms) h = h

after_password-IsTwoFactorOrRefused :
    (username : Text) (m : Session × Result Raised (Option SteamPollingData))
    → IsTwoFactorOrRefused (after_password username m)
unfolding after_password to_user_action update_authentication_cache
after_password-IsTwoFactorOrRefused username (s, err e) = tt
after_password-IsTwoFactorOrRefused username (s, ok none) = tt
after_password-IsTwoFactorOrRefused username (s, ok (some polled)) =
    if_intro IsTwoFactorOrRefused (has_valid_confirmation_method polled.allowed_confirmations)
      (λ valid.
        first_action-IsPasswordAction (by_priority polled.allowed_confirmations)
          (starts_known-by_priority polled.allowed_confirmations ∙ valid))
      (λ _. tt)

-- A login by password is refused, raises, or asks for a second factor whose first method is known. It
-- never answers that no factor is wanted, though Steam says so: the loop compares a pair of a method
-- and a message with the method.
pub rsa_login-IsTwoFactorOrRefused :
    (r : Replies) (username password : Option Text) (s : Session)
    → IsTwoFactorOrRefused (auth_call r (rsa_and_login username password) s)
unfolding auth_call rsa_login
rsa_login-IsTwoFactorOrRefused r none password s = tt
rsa_login-IsTwoFactorOrRefused r (some username) password s =
    if_intro IsTwoFactorOrRefused (truthy (some username) && truthy password)
      (λ _.
        if_intro IsTwoFactorOrRefused (get_rsa_public_key r s).1
          (λ _. after_password-IsTwoFactorOrRefused username _) (λ _. tt))
      (λ _. tt)

-- Where Steam answers a poll with no new client id, which reads as 0, the id that the login was given
-- is lost: the next poll, or the next code, is sent with the client id 0.
pub poll_login-client_id :
    (r : Replies) (is_confirm : Bool) (polled : SteamPollingData) (s : Session)
    → s.polling ≡ some polled
    → r.poll ≡ EResult.ok_result
    → r.status.new_client_id ≡ 0
    → (auth_call r (poll_two_factor is_confirm) s).0.polling
      ≡ some (record polled { client_id = 0 })
unfolding auth_call poll_login check_auth_status
poll_login-client_id r is_confirm polled s known success absent =
    ground (arith, known, success, absent)
