-- ===== src/Auth/EResult.antt =====
-- `EResult` of src/steam_network/protocol/consts.py: the numbers of the results that the code names.
use galaxy_integration_steam.Prelude.{ℕ, Bool, not, ◌&&◌, leb, ◌==◌}

abbrev pub ok_result : ℕ
ok_result = 1

abbrev pub invalid_password : ℕ
invalid_password = 5

abbrev pub logged_in_elsewhere : ℕ
logged_in_elsewhere = 6

abbrev pub invalid_param : ℕ
invalid_param = 8

abbrev pub file_not_found : ℕ
file_not_found = 9

abbrev pub busy : ℕ
busy = 10

abbrev pub access_denied : ℕ
access_denied = 15

abbrev pub timeout : ℕ
timeout = 16

abbrev pub banned : ℕ
banned = 17

abbrev pub account_not_found : ℕ
account_not_found = 18

abbrev pub invalid_steam_id : ℕ
invalid_steam_id = 19

abbrev pub service_unavailable : ℕ
service_unavailable = 20

abbrev pub pending : ℕ
pending = 22

abbrev pub insufficient_privilege : ℕ
insufficient_privilege = 24

abbrev pub limit_exceeded : ℕ
limit_exceeded = 25

abbrev pub expired : ℕ
expired = 27

abbrev pub duplicate_request : ℕ
duplicate_request = 29

abbrev pub ip_not_found : ℕ
ip_not_found = 31

abbrev pub logon_session_replaced : ℕ
logon_session_replaced = 34

abbrev pub connect_failed : ℕ
connect_failed = 35

abbrev pub io_failure : ℕ
io_failure = 37

abbrev pub remote_disconnect : ℕ
remote_disconnect = 38

abbrev pub blocked : ℕ
blocked = 40

abbrev pub ignored : ℕ
ignored = 41

abbrev pub account_disabled : ℕ
account_disabled = 43

abbrev pub account_not_featured : ℕ
account_not_featured = 45

abbrev pub try_another_cm : ℕ
try_another_cm = 48

abbrev pub suspended : ℕ
suspended = 51

abbrev pub cancelled : ℕ
cancelled = 52

abbrev pub data_corruption : ℕ
data_corruption = 53

abbrev pub disk_full : ℕ
disk_full = 54

abbrev pub remote_call_failed : ℕ
remote_call_failed = 55

abbrev pub remote_file_conflict : ℕ
remote_file_conflict = 60

abbrev pub invalid_login_auth_code : ℕ
invalid_login_auth_code = 65

abbrev pub account_logon_denied_no_mail_sent : ℕ
account_logon_denied_no_mail_sent = 66

abbrev pub account_locked : ℕ
account_locked = 73

abbrev pub account_logon_denied_verified_email_required : ℕ
account_logon_denied_verified_email_required = 74

abbrev pub bad_response : ℕ
bad_response = 76

abbrev pub rate_limit_exceeded : ℕ
rate_limit_exceeded = 84

abbrev pub account_login_denied_need_two_factor : ℕ
account_login_denied_need_two_factor = 85

abbrev pub two_factor_code_mismatch : ℕ
two_factor_code_mismatch = 88

abbrev pub two_factor_activation_code_mismatch : ℕ
two_factor_activation_code_mismatch = 89

-- `EResult(n)` raises `ValueError` unless this holds: 4 is left out, and 115 is the last.
unfoldable pub is_result : ℕ → Bool
is_result n = leb n 115 && not (n == 4)
