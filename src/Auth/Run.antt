-- ===== src/Auth/Run.antt =====
-- `run` and `_ensure_connected` of src/steam_network/websocket_client.py: what the client does when
-- the connection or the login is lost.
use galaxy_integration_steam.Prelude.{
  refl, Result, ℕ, ok, err, ◌∙◌, ◌≡◌, ◌↔◌, Bool, true, false, ◌||◌, ◌&&◌, List, [], ◌∷◌, arith,
  Option, none, some, if◌then◌else◌, ◌==◌, suc,
}
use galaxy_integration_steam.Prelude.Keys.{contains, nat_eq, set_add, contains-set_add}
use galaxy_integration_steam.UserInfo.Defs.{UserInfo, clear}
use galaxy_integration_steam.Auth.EResult
use galaxy_integration_steam.Auth.EResult.{is_result}
use galaxy_integration_steam.Auth.Results.{
  Raised, authentication_required, invalid_credentials, network_error, backend_not_available,
  backend_timeout, backend_error, access_denied, connection_closed, invalid_state, cancelled,
  raised_by, translate_error, error_of,
}

-- Addresses are numbers; `ignored` are the ones on the blacklist, and `sleeps` counts the waits of
-- RECONNECT_INTERVAL_SECONDS.
pub record Connection : Type 0 where
  pub websocket : Bool
  pub protocol_client : Bool
  pub current : Option ℕ
  pub ignored : List ℕ
  pub sleeps : ℕ
  pub user_info : UserInfo

-- What an address of the list comes to, and the end of the list. An exception that is not caught is
-- raised by the connecting, or by the handshake, when the client is already there.
pub data Attempt : Type 0 where
  connects : ℕ → Attempt
  refuses : ℕ → Attempt
  connect_raises handshake_raises : ℕ → Raised → Attempt
  list_ends : Attempt

abbrev ignore : Option ℕ → List ℕ → List ℕ
ignore none xs = xs
ignore (some a) xs = set_add a xs

-- The loops of `_ensure_connected` from the attempts it makes; `none` where they end first.
unfoldable pub attempts : List Attempt → Connection → Option (Connection × Result Raised (Unit {0}))
attempts [] c = none
attempts (connects a ∷ _) c =
    some (record c { current = some a; websocket = true; protocol_client = true }, ok tt)
attempts (connect_raises a e ∷ _) c = some (record c { current = some a }, err e)
attempts (handshake_raises a e ∷ _) c =
    some (record c { current = some a; websocket = true; protocol_client = true }, err e)
attempts (refuses a ∷ tries) c =
    attempts tries (record c { current = some a; ignored = ignore (some a) c.ignored })
attempts (list_ends ∷ tries) c = attempts tries (record c { sleeps = suc c.sleeps })

unfoldable pub ensure_connected :
    List Attempt → Connection → Option (Connection × Result Raised (Unit {0}))
ensure_connected tries c = if c.protocol_client then some (c, ok tt) else attempts tries c

-- _close_socket and _close_protocol_client
unfoldable pub closed : Connection → Connection
closed c = record c { websocket = false; protocol_client = false }

pub data Next : Type 0 where
  stop again : Next
  raise : Raised → Next

-- The `except` clauses of the loop, in their order.
unfoldable pub handle : Raised → Connection → Next × Connection
handle cancelled c = (raise cancelled, c)
handle connection_closed c = (again, closed c)
handle invalid_state c = (again, closed c)
handle backend_not_available c = (again, closed (record c { ignored = ignore c.current c.ignored }))
handle backend_timeout c = (again, closed (record c { ignored = ignore c.current c.ignored }))
handle backend_error c = (again, closed (record c { ignored = ignore c.current c.ignored }))
handle network_error c = (again, record c { sleeps = suc c.sleeps })
handle authentication_required c = (again, closed (record c { user_info = clear c.user_info }))
handle e c = (raise e, c)

-- How a round of the loop ends: the task that reads the socket returns or raises, the task that logs
-- in raises, or the future of a lost login gets an exception.
pub data Round : Type 0 where
  run_returns : Round
  run_raises auth_raises auth_lost : Raised → Round

unfoldable pub after_round : Round → Connection → Next × Connection
after_round run_returns c = (stop, c)
after_round (run_raises e) c = handle e c
after_round (auth_raises e) c = handle e c
after_round (auth_lost invalid_credentials) c = (stop, closed c)
after_round (auth_lost access_denied) c = (stop, closed c)
after_round (auth_lost e) c = handle e c

-- `_log_off_handler` of protocol_client.py, given whether `_auth_lost_handler` is set: without it the
-- round goes on, which is `none`; where `translate_error` raises, the task that reads the socket does.
unfoldable pub log_off : Bool → ℕ → Option Round
log_off false r = none
log_off true r = some (elim (translate_error r) [ ok e ↦ auth_lost e | err e ↦ run_raises e ])

abbrev pub after_log_off : Option Round → Connection → Connection
after_log_off none c = c
after_log_off (some r) c = (after_round r c).1

abbrev pub is_again : Next → Bool
is_again again = true
is_again _ = false

abbrev pub is_network_error : Round → Bool
is_network_error (run_raises network_error) = true
is_network_error (auth_raises network_error) = true
is_network_error (auth_lost network_error) = true
is_network_error _ = false

handle-closed :
    (e : Raised) (c : Connection)
    → is_again (handle e c).0 ≡ true
    → is_network_error (run_raises e) ≡ false
    → (handle e c).1.protocol_client ≡ false
unfolding handle closed
handle-closed e c h other = ground arith

-- A round that ends with another exception than NetworkError and does not end the loop is followed by
-- new attempts to connect: nothing of the old connection is used. After a NetworkError the client that there is, if
-- any, is used again.
pub ensure_connected-after_round :
    (round : Round) (tries : List Attempt) (c : Connection)
    → is_again (after_round round c).0 ≡ true
    → ensure_connected tries (after_round round c).1 ≡ (
        if is_network_error round && c.protocol_client
        then some ((after_round round c).1, ok tt)
        else attempts tries (after_round round c).1)
unfolding ensure_connected after_round handle closed
ensure_connected-after_round run_returns tries c h = ground arith
ensure_connected-after_round (run_raises e) tries c h = ground arith
ensure_connected-after_round (auth_raises e) tries c h = ground arith
ensure_connected-after_round (auth_lost e) tries c h = ground arith

error_of-authentication :
    (r : ℕ) → (raised_by r ≡ authentication_required) ↔ (r ≡ EResult.logged_in_elsewhere)
unfolding raised_by translate_error error_of is_result
error_of-authentication r = (λ p. ground (arith, p), λ p. ground (arith, p))

abbrev is_relogin : Raised → Bool
is_relogin authentication_required = true
is_relogin _ = false

auth_lost-user_info :
    (e : Raised) (c : Connection)
    → (after_round (auth_lost e) c).1.user_info
      ≡ (if is_relogin e then clear c.user_info else c.user_info)
unfolding after_round handle closed
auth_lost-user_info e c = ground arith

is_relogin_iff : (e : Raised) → (is_relogin e ≡ true) ↔ (e ≡ authentication_required)
is_relogin_iff e = (λ h. ground arith, λ p. ground (arith, p))

-- Neither does an exception of `translate_error` itself.
log_off-user_info :
    (r : ℕ) (c : Connection)
    → (after_log_off (log_off true r) c).user_info
      ≡ (after_round (auth_lost (raised_by r)) c).1.user_info
unfolding log_off raised_by translate_error after_round handle is_result
log_off-user_info r c = ground arith

-- A log-off clears what is known of the user exactly if the client has a handler for a lost login (the
-- requests of a login set it) and the result is LoggedInElsewhere: then the user has to log in again. With
-- no handler, or with any other result, the info stays.
pub log_off-clears :
    (is_set : Bool) (r : ℕ) (c : Connection)
    → (after_log_off (log_off is_set r) c).user_info
      ≡ (if is_set && r == EResult.logged_in_elsewhere then clear c.user_info else c.user_info)
unfolding log_off
log_off-clears false r c = refl
log_off-clears true r c =
    let (to, from) = error_of-authentication r in
    let (known, met) = is_relogin_iff (raised_by r) in
    log_off-user_info r c
    ∙ auth_lost-user_info (raised_by r) c
    ∙ ground (arith, to, from, known, met)

-- The addresses that refuse before one connects.
abbrev pub refused : List Attempt → List ℕ
refused [] = []
refused (connects a ∷ _) = []
refused (connect_raises a e ∷ _) = []
refused (handshake_raises a e ∷ _) = []
refused (refuses a ∷ tries) = a ∷ refused tries
refused (list_ends ∷ tries) = refused tries

-- A connection that is made is whole, and by then exactly the addresses that refused were added to the
-- blacklist.
pub attempts-ignored :
    (tries : List Attempt) (c d : Connection) (a : ℕ)
    → attempts tries c ≡ some (d, ok tt)
    → (d.protocol_client ≡ true)
      × (d.websocket ≡ true)
      × (contains a d.ignored ≡ (contains a (refused tries) || contains a c.ignored))
unfolding attempts
attempts-ignored [] c d a h = ground (arith, h)
attempts-ignored (connects b ∷ tries) c d a h = ground (arith, h)
attempts-ignored (connect_raises b e ∷ tries) c d a h = ground (arith, h)
attempts-ignored (handshake_raises b e ∷ tries) c d a h = ground (arith, h)
attempts-ignored (refuses b ∷ tries) c d a h =
    let next = record c { current = some b; ignored = ignore (some b) c.ignored } in
    ground (arith, attempts-ignored tries next d a h, contains-set_add b a c.ignored)
attempts-ignored (list_ends ∷ tries) c d a h =
    attempts-ignored tries (record c { sleeps = suc c.sleeps }) d a h
