-- ===== src/Auth/Tests.antt =====
-- Runs of the login.
use galaxy_integration_steam.Prelude.{
  ◌≡◌, ◌≤◌, refl, ap, not, Bool, true, false, List, [], ◌∷◌, none, some, ok, arith, ◌==◌, ◌&&◌,
  length, if◌then◌else◌, take, ◌++◌,
}
use galaxy_integration_steam.Prelude.Keys.{nat_eq, string_eq, ◌=?◌}
use galaxy_integration_steam.Prelude.Text.{Text, codes}
use galaxy_integration_steam.UserInfo.Defs.{
  UserInfo, new_cache, clear, is_initialized, set_steam_id, set_account_username, set_persona_name,
  set_access_token, set_refresh_token, after_write, check_initialized,
}
use galaxy_integration_steam.UserInfo.Stored.{to_dict, from_dict-to_dict}
use galaxy_integration_steam.Auth.EResult
use galaxy_integration_steam.Auth.Results.{backend_not_available}
use galaxy_integration_steam.Auth.Methods.{
  TwoFactorMethod, email_code, phone_confirm, unknown, by_priority, to_two_factor_method,
  has_valid_confirmation_method, method_eq, confirmations, to_two_factor_with_message,
  update_authentication_cache, to_user_action,
}
use galaxy_integration_steam.Auth.Protocol.{
  Replies, Session, SteamPollingData, get_rsa_public_key, authenticate_password, login_handler,
  check_auth_status, finalize_login,
}
use galaxy_integration_steam.Auth.Loop.{auth_call, rsa_login, after_password, poll_login}
use galaxy_integration_steam.Auth.Pages.{authentication, sanitize_string, end_uri, occurs}
use galaxy_integration_steam.Auth.Backend.{
  EndAddress, run_dialogue, pass_login_credentials, handle_login_finished, authenticate, login_from,
  handle_steam_guard_none, finish_auth_process, authenticate_with_stored_credentials,
}
use galaxy_integration_steam.Auth.Safety.{is_login, admits}
use galaxy_integration_steam.Auth.Consent.{pass_login_credentials-admits, authenticate-admits}
use galaxy_integration_steam.Auth.Texts.{IsAscii, sanitize_string-IsAscii}
use galaxy_integration_steam.Auth.Route.{handle_login_finished-logs_in, outcome}
use galaxy_integration_steam.Auth.Servers.{Visit}
use galaxy_integration_steam.Auth.Run.{
  Connection, Attempt, connects, refuses, list_ends, attempts, ensure_connected, after_round,
  run_raises, log_off, after_log_off, log_off-clears, ensure_connected-after_round,
  is_network_error, handle,
}

abbrev replies : Replies
replies = record {
  rsa = 1;
  login = 1;
  message = record {
    client_id = 11;
    steamid = 76561;
    request_id = 1 ∷ 2 ∷ [];
    allowed_confirmations = (1, []) ∷ [];
    extended_error_message = [];
  };
  two_factor = 1;
  poll = 1;
  status = record {
    new_client_id = 0;
    refresh_token = 101 ∷ [];
    access_token = 97 ∷ [];
    account_name = 65 ∷ [];
  };
  token = 1;
  token_steam_id = some 76561;
}

abbrev new_session : Session
new_session = record {
  user_info = new_cache;
  authentication = record { two_factor_allowed_methods = []; error_message = none };
  polling = none;
  auth_lost_handler = false;
}

abbrev login_page : EndAddress
login_page = record {
  address = codes "steam://login_finished?";
  username = some (codes "bob");
  password = some (codes "pass");
  code = none;
}

abbrev three : List Replies
three = replies ∷ replies ∷ replies ∷ []

handle_login_finished-logs_in_example :
    outcome (handle_login_finished login_page) three new_session
    ≡ ok (authentication (some 76561) (some (65 ∷ [])))
unfolding sanitize_string by_priority confirmations to_two_factor_with_message to_two_factor_method
handle_login_finished-logs_in_example =
    handle_login_finished-logs_in login_page 98 112 (codes "ob") (codes "ass") (codes "pass") []
      (65 ∷ []) [] replies replies replies new_session 76561 refl refl refl refl refl refl
      record { polled_ok = refl; refresh_there = refl; account_is = refl; account_there = refl }
      refl refl

login_page-logs_in :
    is_login (run_dialogue (pass_login_credentials login_page new_session) three new_session).1
    ≡ true
unfolding run_dialogue pass_login_credentials handle_login_finished handle_steam_guard_none
    finish_auth_process auth_call rsa_login get_rsa_public_key authenticate_password login_handler
    after_password poll_login check_auth_status finalize_login confirmations by_priority
    to_two_factor_with_message to_two_factor_method has_valid_confirmation_method
    update_authentication_cache to_user_action is_initialized set_steam_id set_account_username
    set_persona_name set_access_token set_refresh_token after_write check_initialized new_cache
    sanitize_string end_uri occurs
login_page-logs_in = refl

pass_login_credentials-admits_example : admits three ≡ true
pass_login_credentials-admits_example =
    pass_login_credentials-admits login_page new_session three login_page-logs_in

abbrev known_user : UserInfo
known_user = record {
  steam_id = some 76561;
  account_username = some (97 ∷ []);
  persona_name = some (65 ∷ []);
  refresh_token = some (101 ∷ []);
  access_token = none;
  changed = false;
  initialized = false;
}

stored-logs_in :
    is_login (authenticate (some (to_dict known_user)) (replies ∷ []) new_session).1 ≡ true
unfolding authenticate authenticate_with_stored_credentials run_dialogue auth_call finalize_login
    is_initialized new_cache set_steam_id
stored-logs_in =
    ap (λ o. is_login (login_from o (replies ∷ []) new_session).1)
      (from_dict-to_dict known_user new_cache
        record {
          username_bytes = ground arith;
          persona_bytes = ground arith;
          token_bytes = ground arith;
        }
        refl)

authenticate-admits_example : admits (replies ∷ []) ≡ true
authenticate-admits_example =
    authenticate-admits (some (to_dict known_user)) (replies ∷ []) new_session stored-logs_in

abbrev waiting : SteamPollingData
waiting = record {
  client_id = 11;
  steam_id = 76561;
  request_id = 1 ∷ 2 ∷ [];
  allowed_confirmations = (phone_confirm, []) ∷ [];
  extended_error_message = [];
}

abbrev allowed : List (TwoFactorMethod × Text)
allowed = (unknown, []) ∷ (email_code, codes "mail") ∷ (phone_confirm, []) ∷ []

abbrev starts_before : TwoFactorMethod × Text → Bool
starts_before x = not (x.0 =? unknown)

sanitize_string-IsAscii_example :
    IsAscii (sanitize_string (codes "pa€"))
    × (length (sanitize_string (codes "pa€")) ≤ 64)
    × (sanitize_string (codes "pa€" ++ (8364 ∷ codes "ss"))
        ≡ sanitize_string (codes "pa€" ++ codes "ss"))
    × (sanitize_string (codes "pass") ≡ codes "pass")
    × (take (length (codes "pass")) (sanitize_string (codes "pass" ++ codes "ss")) ≡ codes "pass")
sanitize_string-IsAscii_example =
    sanitize_string-IsAscii (codes "pa€") (codes "pass") (codes "ss") 8364 (omega arith)
      (omega arith, (omega arith, (omega arith, (omega arith, tt)))) (omega arith)

abbrev connection : Connection
connection = record {
  websocket = true;
  protocol_client = true;
  current = some 5;
  ignored = 3 ∷ [];
  sleeps = 0;
  user_info = known_user;
}

abbrev connected : Connection
connected = record connection { current = some 9; ignored = 7 ∷ 3 ∷ []; sleeps = 1 }

abbrev tries : List Attempt
tries = refuses 7 ∷ list_ends ∷ connects 9 ∷ []

ensure_connected-after_round_example :
    ensure_connected tries (after_round (run_raises backend_not_available) connection).1 ≡ (
      if is_network_error (run_raises backend_not_available) && connection.protocol_client
      then some ((after_round (run_raises backend_not_available) connection).1, ok tt)
      else attempts tries (after_round (run_raises backend_not_available) connection).1)
unfolding after_round handle
ensure_connected-after_round_example =
    ensure_connected-after_round (run_raises backend_not_available) tries connection refl

log_off-clears_example : (after_log_off (log_off true 6) connection).user_info ≡ (
    if true && 6 == EResult.logged_in_elsewhere
    then clear connection.user_info
    else connection.user_info)
log_off-clears_example = log_off-clears true 6 connection

abbrev visits : List Visit
visits =
    record { time = 1000; host = 7; connects = false }
    ∷ record { time = 1020; host = 7; connects = true }
    ∷ record { time = 1400; host = 7; connects = true }
    ∷ []
