-- ===== src/Auth/Backend.antt =====
-- The login of `SteamNetworkBackend`, src/backend_steam_network.py: what each page does with its end
-- address. A handler is a dialogue: it asks the authentication loop and goes on with the answer and
-- the caches that it then finds.
use galaxy_integration_steam.Prelude.{
  String, Bool, true, false, List, [], ◌∷◌, Option, none, some, if◌then◌else◌, Result, ok, err,
}
use galaxy_integration_steam.Prelude.Text.{Text, codes}
use galaxy_integration_steam.Prelude.Dict.{Dict}
use galaxy_integration_steam.UserInfo.Defs.{UserInfo, is_initialized, clear}
use galaxy_integration_steam.UserInfo.Stored.{Credentials, from_dict}
use galaxy_integration_steam.Auth.Results.{
  Raised, unknown_backend_response, backend_timeout, value_error, index_error,
}
use galaxy_integration_steam.Auth.Methods.{
  TwoFactorMethod, nothing, phone_code, email_code, phone_confirm, unknown, UserActionRequired,
  no_action_required, no_action_confirm_token, no_action_confirm_login, two_factor_required,
  two_factor_expired, invalid_auth_data,
}
use galaxy_integration_steam.Auth.Protocol.{Replies, Session}
use galaxy_integration_steam.Auth.Loop.{
  Request, rsa_and_login, update_two_factor_code, poll_two_factor, token, auth_call,
}
use galaxy_integration_steam.Auth.Pages.{
  DisplayUriHelper, login, two_factor_mail, two_factor_mobile, two_factor_confirm, Answer,
  authentication, next_step_response_simple, to_view_string, occurs, sanitize_string, strip,
}
use galaxy_integration_steam.Auth.Pages

pub data Dialogue : Type 0 where
  done : Answer → Dialogue
  fail : Raised → Dialogue
  ask : Request → (UserActionRequired → Session → Dialogue) → Dialogue
  -- `self._user_info_cache.Clear()`
  forget : Dialogue → Dialogue

-- The dialogue against the loop and what Steam replies in each of its rounds. A round that raises ends
-- the loop, and one with no reply does not end: either way no answer comes, and after a minute
-- `_get_websocket_auth_step` raises `BackendTimeout`.
unfoldable pub run_dialogue : Dialogue → List Replies → Session → Session × Result Raised Answer
run_dialogue (done a) rs s = (s, ok a)
run_dialogue (fail e) rs s = (s, err e)
run_dialogue (ask q k) [] s = (s, err backend_timeout)
run_dialogue (ask q k) (r ∷ rs) s =
    let (s', result) = auth_call r q s in
    elim result [ ok action ↦ run_dialogue (k action s') rs s' | err e ↦ (s', err backend_timeout) ]
run_dialogue (forget d) rs s = run_dialogue d rs (record s { user_info = clear s.user_info })

abbrev pub page : DisplayUriHelper → Bool → Dict String Text → Dialogue
page d errored kwargs = done (next_step_response_simple d errored kwargs)

-- `Authentication(self._user_info_cache.steam_id, self._user_info_cache.persona_name)`
abbrev pub logged_in : Session → Dialogue
logged_in s = done (authentication s.user_info.steam_id s.user_info.persona_name)

abbrev expired_arg : Dict String Text
expired_arg = ("expired", codes "true") ∷ []

unfoldable pub mobile_confirm_kwargs : List (TwoFactorMethod × Text) → Dict String Text
mobile_confirm_kwargs (_ ∷ (phone_code, msg) ∷ _) =
    ("fallbackMethod", codes (to_view_string two_factor_mobile)) ∷ ("fallbackMsg", msg) ∷ []
mobile_confirm_kwargs (_ ∷ (email_code, msg) ∷ _) =
    ("fallbackMethod", codes (to_view_string two_factor_mail)) ∷ ("fallbackMsg", msg) ∷ []
mobile_confirm_kwargs _ = []

-- _finish_auth_process, from the caches it finds
abbrev pub after_token : UserActionRequired → Session → Dialogue
after_token no_action_required s = logged_in s
after_token _ s = fail unknown_backend_response

unfoldable pub finish_auth_process : Session → Dialogue
finish_auth_process s =
    if is_initialized s.user_info then ask token after_token else fail unknown_backend_response

abbrev pub after_none_poll : UserActionRequired → Session → Dialogue
after_none_poll no_action_required s = logged_in s
after_none_poll no_action_confirm_token s = finish_auth_process s
after_none_poll _ s = fail unknown_backend_response

unfoldable pub handle_steam_guard_none : Dialogue
handle_steam_guard_none = ask (poll_two_factor false) after_none_poll

abbrev pub after_check_poll :
    DisplayUriHelper → Dict String Text → UserActionRequired → Session → Dialogue
after_check_poll fallback kwargs no_action_required s = logged_in s
after_check_poll fallback kwargs no_action_confirm_token s = finish_auth_process s
after_check_poll fallback kwargs no_action_confirm_login s = page fallback true kwargs
after_check_poll fallback kwargs two_factor_required s = page fallback true kwargs
after_check_poll fallback kwargs two_factor_expired s =
    page login true (("expired", codes "true") ∷ kwargs)
after_check_poll fallback kwargs invalid_auth_data s = fail unknown_backend_response

unfoldable pub handle_steam_guard_check : DisplayUriHelper → Bool → Dict String Text → Dialogue
handle_steam_guard_check fallback is_confirm kwargs =
    ask (poll_two_factor is_confirm) (after_check_poll fallback kwargs)

abbrev pub after_code : DisplayUriHelper → UserActionRequired → Session → Dialogue
after_code fallback no_action_confirm_login s = handle_steam_guard_check fallback false []
after_code fallback two_factor_expired s = page login true expired_arg
after_code fallback invalid_auth_data s = page fallback true []
after_code fallback _ s = fail unknown_backend_response

-- The end address of a page, and the first value of each query parameter that it has.
pub record EndAddress : Type 0 where
  pub address : Text
  pub username : Option Text
  pub password : Option Text
  pub code : Option Text

unfoldable pub handle_steam_guard : EndAddress → TwoFactorMethod → DisplayUriHelper → Dialogue
handle_steam_guard c method fallback = elim c.code [
  | none ↦ page fallback true []
  | some code ↦ ask (update_two_factor_code (some (strip code)) (some method)) (after_code fallback)
]

-- The page for the preferred method; an empty list raises `IndexError`, which the loop rules out.
abbrev pub second_factor : List (TwoFactorMethod × Text) → Dialogue
second_factor [] = fail index_error
second_factor ((nothing, msg) ∷ ms) = handle_steam_guard_none
second_factor ((phone_code, msg) ∷ ms) = page two_factor_mobile false []
second_factor ((email_code, msg) ∷ ms) = page two_factor_mail false []
second_factor ((phone_confirm, msg) ∷ ms) =
    page two_factor_confirm false
      (("message", msg) ∷ mobile_confirm_kwargs ((phone_confirm, msg) ∷ ms))
second_factor ((unknown, msg) ∷ ms) = fail unknown_backend_response

abbrev pub after_login : UserActionRequired → Session → Dialogue
after_login no_action_confirm_login s = handle_steam_guard_none
after_login two_factor_required s = second_factor s.authentication.two_factor_allowed_methods
after_login _ s = page login true []

unfoldable pub handle_login_finished : EndAddress → Dialogue
handle_login_finished c = elim c.password [
  | none ↦ page login true []
  | some password ↦ elim c.username [
    | none ↦ page login true []
    | some username ↦
        ask (rsa_and_login (some username) (some (sanitize_string password))) after_login
  ]
]

abbrev pub is_end : DisplayUriHelper → EndAddress → Bool
is_end d c = occurs (codes (Pages.end_uri d)) c.address

unfoldable pub pass_login_credentials : EndAddress → Session → Dialogue
pass_login_credentials c s =
    if is_end login c
    then handle_login_finished c
    else if is_end two_factor_mail c
    then handle_steam_guard c email_code two_factor_mail
    else if is_end two_factor_mobile c
    then handle_steam_guard c phone_code two_factor_mobile
    else if is_end two_factor_confirm c
    then handle_steam_guard_check two_factor_confirm true
        (mobile_confirm_kwargs s.authentication.two_factor_allowed_methods)
    else fail unknown_backend_response

abbrev pub after_stored : UserActionRequired → Session → Dialogue
after_stored no_action_required s = logged_in s
after_stored _ s = forget (page login false [])

unfoldable pub authenticate_with_stored_credentials : Session → Dialogue
authenticate_with_stored_credentials s =
    if is_initialized s.user_info then ask token after_stored else page login false []

-- From what `from_dict` made of the cache. Where it raises on a text that does not decode, what it
-- wrote before that is not modelled.
abbrev pub login_from : Option UserInfo → List Replies → Session → Session × Result Raised Answer
login_from none rs s = (s, err value_error)
login_from (some u) rs s =
    let known = record s { user_info = u } in
    run_dialogue (authenticate_with_stored_credentials known) rs known

unfoldable pub authenticate :
    Option Credentials → List Replies → Session → Session × Result Raised Answer
authenticate none rs s = run_dialogue (page login false []) rs s
authenticate (some stored) rs s = login_from (from_dict stored s.user_info) rs s
