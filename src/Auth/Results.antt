-- ===== src/Auth/Results.antt =====
-- `translate_error` of src/steam_network/utils.py: from a result of Steam to an exception.
use galaxy_integration_steam.Prelude.{ℕ, List, [], ◌∷◌, ◌==◌, if◌then◌else◌, Result, ok, err}
use galaxy_integration_steam.Prelude.Keys.{contains, nat_eq}
use galaxy_integration_steam.Auth.EResult
use galaxy_integration_steam.Auth.EResult.{is_result}

-- The exceptions of `galaxy.api.errors` that the code makes or catches, and Python's own. None is a
-- subclass of another. `invalid_state` is that of the socket, `invalid_state_error` that of a future.
pub data Raised : Type 0 where
  authentication_required invalid_credentials network_error backend_not_available : Raised
  backend_timeout temporary_blocked banned access_denied backend_error unknown_error : Raised
  unknown_backend_response value_error index_error assertion_error attribute_error : Raised
  connection_closed invalid_state invalid_state_error cancelled : Raised

abbrev credentials_results : List ℕ
credentials_results =
    EResult.invalid_password ∷ EResult.account_not_found ∷ EResult.invalid_steam_id
    ∷ EResult.invalid_login_auth_code ∷ EResult.account_logon_denied_no_mail_sent
    ∷ EResult.account_login_denied_need_two_factor ∷ EResult.two_factor_code_mismatch
    ∷ EResult.two_factor_activation_code_mismatch ∷ []

abbrev network_results : List ℕ
network_results = EResult.connect_failed ∷ EResult.io_failure ∷ EResult.remote_disconnect ∷ []

abbrev pub unavailable_results : List ℕ
unavailable_results =
    EResult.busy ∷ EResult.service_unavailable ∷ EResult.pending ∷ EResult.ip_not_found
    ∷ EResult.try_another_cm ∷ EResult.cancelled ∷ []

abbrev blocked_results : List ℕ
blocked_results =
    EResult.rate_limit_exceeded ∷ EResult.limit_exceeded ∷ EResult.suspended
    ∷ EResult.account_locked ∷ EResult.account_logon_denied_verified_email_required ∷ []

abbrev denied_results : List ℕ
denied_results =
    EResult.access_denied ∷ EResult.insufficient_privilege ∷ EResult.logon_session_replaced
    ∷ EResult.blocked ∷ EResult.ignored ∷ EResult.account_disabled ∷ EResult.account_not_featured
    ∷ []

abbrev pub backend_results : List ℕ
backend_results =
    EResult.data_corruption ∷ EResult.disk_full ∷ EResult.remote_call_failed
    ∷ EResult.remote_file_conflict ∷ EResult.bad_response ∷ []

unfoldable pub error_of : ℕ → Raised
error_of r =
    if r == EResult.logged_in_elsewhere
    then authentication_required
    else if contains r credentials_results
    then invalid_credentials
    else if contains r network_results
    then network_error
    else if contains r unavailable_results
    then backend_not_available
    else if r == EResult.timeout
    then backend_timeout
    else if contains r blocked_results
    then temporary_blocked
    else if r == EResult.banned
    then banned
    else if contains r denied_results
    then access_denied
    else if contains r backend_results
    then backend_error
    else unknown_error

-- The exception that is returned, or the one that making it raises.
unfoldable pub translate_error : ℕ → Result Raised Raised
translate_error r =
    if is_result r
    then (if r == EResult.ok_result then err assertion_error else ok (error_of r))
    else err value_error

-- `raise translate_error(r)`
unfoldable pub raised_by : ℕ → Raised
raised_by r = elim (translate_error r) [ ok e ↦ e | err e ↦ e ]
