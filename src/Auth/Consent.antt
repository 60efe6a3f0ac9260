-- ===== src/Auth/Consent.antt =====
-- Every handler of the login's pages waits for Steam's consent.
use galaxy_integration_steam.Prelude.{
  ◌≡◌, ◌≢◌, refl, String, Bool, true, false, List, [], ◌∷◌, arith, Option, none, some,
  if◌then◌else◌,
}
use galaxy_integration_steam.Prelude.Text.{Text}
use galaxy_integration_steam.Prelude.Dict.{Dict}
use galaxy_integration_steam.UserInfo.Defs.{UserInfo, is_initialized}
use galaxy_integration_steam.UserInfo.Stored.{Credentials, from_dict}
use galaxy_integration_steam.Auth.Methods.{
  UserActionRequired, no_action_required, no_action_confirm_token, no_action_confirm_login,
  two_factor_required, two_factor_expired, invalid_auth_data, TwoFactorMethod, nothing, phone_code,
  email_code, phone_confirm, unknown,
}
use galaxy_integration_steam.Auth.Protocol.{Replies, Session}
use galaxy_integration_steam.Auth.Pages.{
  DisplayUriHelper, login, two_factor_mail, two_factor_mobile, two_factor_confirm,
  next_step_response_simple,
}
use galaxy_integration_steam.Auth.Backend.{
  Dialogue, EndAddress, pass_login_credentials, handle_login_finished, handle_steam_guard,
  handle_steam_guard_check, handle_steam_guard_none, finish_auth_process, after_token,
  after_none_poll, after_check_poll, after_code, after_login, second_factor, page, run_dialogue,
  authenticate, authenticate_with_stored_credentials, after_stored, login_from, is_end,
  mobile_confirm_kwargs,
}
use galaxy_integration_steam.Auth.Safety.{
  IsGuarded, page_only, failing, asking, forgetting, is_login, admits, run_dialogue-IsGuarded,
}

page-IsGuarded : (d : DisplayUriHelper) (b : Bool) (a : Dict String Text) → IsGuarded (page d b a)
unfolding next_step_response_simple
page-IsGuarded d b a = page_only

if-IsGuarded :
    (b : Bool) {d e : Dialogue} → IsGuarded d → IsGuarded e → IsGuarded (if b then d else e)
if-IsGuarded true g h = g
if-IsGuarded false g h = h

elim-IsGuarded :
    (o : Option Text) {d : Dialogue} {k : Text → Dialogue}
    → IsGuarded d
    → ((t : Text) → IsGuarded (k t))
    → IsGuarded (elim o [ none ↦ d | some t ↦ k t ])
elim-IsGuarded none g h = g
elim-IsGuarded (some t) g h = h t

after_token-IsGuarded :
    (a : UserActionRequired) (s : Session) → a ≢ no_action_required → IsGuarded (after_token a s)
after_token-IsGuarded no_action_required s ne = elim (ne refl) [ ]
after_token-IsGuarded _ s ne = failing

finish_auth_process-IsGuarded : (s : Session) → IsGuarded (finish_auth_process s)
unfolding finish_auth_process
finish_auth_process-IsGuarded s =
    if-IsGuarded (is_initialized s.user_info) (asking after_token-IsGuarded) failing

after_none_poll-IsGuarded :
    (a : UserActionRequired) (s : Session)
    → a ≢ no_action_required
    → IsGuarded (after_none_poll a s)
after_none_poll-IsGuarded no_action_required s ne = elim (ne refl) [ ]
after_none_poll-IsGuarded no_action_confirm_token s ne = finish_auth_process-IsGuarded s
after_none_poll-IsGuarded _ s ne = failing

handle_steam_guard_none-IsGuarded : IsGuarded handle_steam_guard_none
unfolding handle_steam_guard_none
handle_steam_guard_none-IsGuarded = asking after_none_poll-IsGuarded

module _ (fallback : DisplayUriHelper) (kwargs : Dict String Text) where
  after_check_poll-IsGuarded :
      (a : UserActionRequired) (s : Session)
      → a ≢ no_action_required
      → IsGuarded (after_check_poll fallback kwargs a s)
  after_check_poll-IsGuarded no_action_required s ne = elim (ne refl) [ ]
  after_check_poll-IsGuarded no_action_confirm_token s ne = finish_auth_process-IsGuarded s
  after_check_poll-IsGuarded no_action_confirm_login s ne = page-IsGuarded fallback true kwargs
  after_check_poll-IsGuarded two_factor_required s ne = page-IsGuarded fallback true kwargs
  after_check_poll-IsGuarded two_factor_expired s ne = page-IsGuarded _ true _
  after_check_poll-IsGuarded invalid_auth_data s ne = failing

  handle_steam_guard_check-IsGuarded :
      (is_confirm : Bool) → IsGuarded (handle_steam_guard_check fallback is_confirm kwargs)
  unfolding handle_steam_guard_check
  handle_steam_guard_check-IsGuarded is_confirm = asking after_check_poll-IsGuarded

after_code-IsGuarded :
    (fallback : DisplayUriHelper) (a : UserActionRequired) (s : Session)
    → a ≢ no_action_required
    → IsGuarded (after_code fallback a s)
after_code-IsGuarded fallback no_action_required s ne = failing
after_code-IsGuarded fallback no_action_confirm_token s ne = failing
after_code-IsGuarded fallback no_action_confirm_login s ne =
    handle_steam_guard_check-IsGuarded fallback [] false
after_code-IsGuarded fallback two_factor_required s ne = failing
after_code-IsGuarded fallback two_factor_expired s ne = page-IsGuarded _ true _
after_code-IsGuarded fallback invalid_auth_data s ne = page-IsGuarded fallback true []

handle_steam_guard-IsGuarded :
    (c : EndAddress) (m : TwoFactorMethod) (fallback : DisplayUriHelper)
    → IsGuarded (handle_steam_guard c m fallback)
unfolding handle_steam_guard
handle_steam_guard-IsGuarded c m fallback =
    elim-IsGuarded c.code (page-IsGuarded fallback true [])
      (λ code. asking (after_code-IsGuarded fallback))

second_factor-IsGuarded : (ms : List (TwoFactorMethod × Text)) → IsGuarded (second_factor ms)
second_factor-IsGuarded [] = failing
second_factor-IsGuarded ((nothing, msg) ∷ ms) = handle_steam_guard_none-IsGuarded
second_factor-IsGuarded ((phone_code, msg) ∷ ms) = page-IsGuarded _ false []
second_factor-IsGuarded ((email_code, msg) ∷ ms) = page-IsGuarded _ false []
second_factor-IsGuarded ((phone_confirm, msg) ∷ ms) = page-IsGuarded _ false _
second_factor-IsGuarded ((unknown, msg) ∷ ms) = failing

after_login-IsGuarded :
    (a : UserActionRequired) (s : Session) → a ≢ no_action_required → IsGuarded (after_login a s)
after_login-IsGuarded no_action_required s ne = page-IsGuarded _ true []
after_login-IsGuarded no_action_confirm_token s ne = page-IsGuarded _ true []
after_login-IsGuarded no_action_confirm_login s ne = handle_steam_guard_none-IsGuarded
after_login-IsGuarded two_factor_required s ne =
    second_factor-IsGuarded s.authentication.two_factor_allowed_methods
after_login-IsGuarded two_factor_expired s ne = page-IsGuarded _ true []
after_login-IsGuarded invalid_auth_data s ne = page-IsGuarded _ true []

handle_login_finished-IsGuarded : (c : EndAddress) → IsGuarded (handle_login_finished c)
unfolding handle_login_finished
handle_login_finished-IsGuarded c =
    elim-IsGuarded c.password (page-IsGuarded login true []) (λ password.
      elim-IsGuarded c.username (page-IsGuarded login true [])
        (λ username. asking after_login-IsGuarded))

pass_login_credentials-IsGuarded :
    (c : EndAddress) (s : Session) → IsGuarded (pass_login_credentials c s)
unfolding pass_login_credentials
pass_login_credentials-IsGuarded c s =
    if-IsGuarded (is_end login c) (handle_login_finished-IsGuarded c) (
      if-IsGuarded (is_end two_factor_mail c) (handle_steam_guard-IsGuarded c _ _) (
        if-IsGuarded (is_end two_factor_mobile c) (handle_steam_guard-IsGuarded c _ _) (
          if-IsGuarded (is_end two_factor_confirm c)
            (handle_steam_guard_check-IsGuarded two_factor_confirm
              (mobile_confirm_kwargs s.authentication.two_factor_allowed_methods) true)
            failing)))

-- Whatever address a page ends with, whatever the caches hold and whatever Steam replies: Galaxy is
-- told that a user is logged in only if Steam answered a log-on by token with the result OK.
pub pass_login_credentials-admits :
    (c : EndAddress) (s : Session) (rs : List Replies)
    → is_login (run_dialogue (pass_login_credentials c s) rs s).1 ≡ true
    → admits rs ≡ true
pass_login_credentials-admits c s rs h =
    run_dialogue-IsGuarded (pass_login_credentials c s) rs s (pass_login_credentials-IsGuarded c s)
      h

after_stored-IsGuarded :
    (a : UserActionRequired) (s : Session) → a ≢ no_action_required → IsGuarded (after_stored a s)
after_stored-IsGuarded no_action_required s ne = elim (ne refl) [ ]
after_stored-IsGuarded _ s ne = forgetting (page-IsGuarded login false [])

authenticate_with_stored_credentials-IsGuarded :
    (s : Session) → IsGuarded (authenticate_with_stored_credentials s)
unfolding authenticate_with_stored_credentials
authenticate_with_stored_credentials-IsGuarded s =
    if-IsGuarded (is_initialized s.user_info) (asking after_stored-IsGuarded)
      (page-IsGuarded login false [])

login_from-admits :
    (o : Option UserInfo) (rs : List Replies) (s : Session)
    → is_login (login_from o rs s).1 ≡ true
    → admits rs ≡ true
login_from-admits none rs s h = ground arith
login_from-admits (some u) rs s h =
    let known = record s { user_info = u } in
    run_dialogue-IsGuarded (authenticate_with_stored_credentials known) rs known
      (authenticate_with_stored_credentials-IsGuarded known) h

-- Whatever credentials are stored, or none, and whatever the caches hold: at the start Galaxy is told
-- that a user is logged in only if Steam answered a log-on by token with the result OK.
pub authenticate-admits :
    (stored : Option Credentials) (rs : List Replies) (s : Session)
    → is_login (authenticate stored rs s).1 ≡ true
    → admits rs ≡ true
unfolding authenticate
authenticate-admits none rs s h =
    run_dialogue-IsGuarded (page login false []) rs s (page-IsGuarded login false []) h
authenticate-admits (some stored) rs s h = login_from-admits (from_dict stored s.user_info) rs s h
