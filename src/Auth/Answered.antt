-- ===== src/Auth/Answered.antt =====
-- A request of the login gets the answer of its own response.
use galaxy_integration_steam.Prelude.{
  ℕ, ◌≡◌, refl, ap, [], none, some, arith, Result, ok, err, if◌then◌else◌, ◌==◌,
}
use galaxy_integration_steam.Prelude.Keys.{nat_eq}
use galaxy_integration_steam.Prelude.Text.{Text}
use galaxy_integration_steam.Auth.EResult
use galaxy_integration_steam.Auth.Results.{Raised, invalid_state_error, value_error, raised_by}
use galaxy_integration_steam.Auth.Protocol.{
  Replies, Session, get_rsa_public_key, login_handler, authenticate_password, update_two_factor,
  check_auth_status, finalize_login, note_steam_id,
}
use galaxy_integration_steam.Auth.Replies.{
  Pending, set_result, int_16, Response, receive, process_rsa, two_factor_update_handler,
  poll_handler, rsa_handler, receive_login, login_token_handler, Asked, for_key, for_login,
  for_two_factor, for_token, for_status, Answer, key, polled, action, status, ask, answer_with,
  after_login, forget, settled, resume,
}

-- What Steam answers, with the texts of its key, the time of the key, and the id with a log-on.
abbrev pub response : Asked → Replies → Text → Text → ℕ → ℕ → Response
response for_key r modulus exponent timestamp i = Response.rsa r.rsa modulus exponent timestamp
response for_login r modulus exponent timestamp i = Response.login r.login r.message
response for_two_factor r modulus exponent timestamp i = Response.two_factor r.two_factor
response for_token r modulus exponent timestamp i = Response.token r.token i
response (for_status confirm) r modulus exponent timestamp i = Response.poll r.poll r.status

-- The request with the reply at hand.
unfoldable pub with_reply : Asked → Replies → Session → Session × Result Raised Answer
with_reply for_key r s = let (s', known) = get_rsa_public_key r s in (s', ok (key known))
with_reply for_login r s = answer_with polled (authenticate_password r s)
with_reply for_two_factor r s = answer_with action (update_two_factor r s)
with_reply for_token r s = answer_with action (finalize_login r s)
with_reply (for_status confirm) r s = answer_with status (check_auth_status r confirm s)

after_login-login_handler :
    (r : Replies) (s : Session)
    → after_login (login_handler r s).0 r.login (login_handler r s).1
      ≡ answer_with polled (authenticate_password r s)
unfolding after_login authenticate_password
after_login-login_handler r s = ground arith

module _ (modulus exponent : Text) (m e timestamp i : ℕ) (r : Replies)
    (modulus_read : int_16 modulus ≡ some m) (exponent_read : int_16 exponent ≡ some e)
    (with_id : r.token_steam_id ≡ some i) where
  -- Whatever the futures held before: the response to a request of the login is taken without an
  -- exception, and the request goes on with the answer that `with_reply` gives for it on the session of
  -- the time of the request, and leaves its own future None and the others as they were. The key's
  -- numbers are texts of hexadecimal digits, and the response to a log-on has an id.
  pub resume-receive-ask :
      (q : Asked) (p : Pending)
      → ((receive (response q r modulus exponent timestamp i) (ask q p)).1 ≡ ok tt)
        × (resume q (receive (response q r modulus exponent timestamp i) (ask q p)).0
            ≡ some (settled q p (with_reply q r p.session)))
  unfolding resume receive process_rsa two_factor_update_handler poll_handler ask with_reply
      rsa_handler receive_login login_token_handler set_result forget get_rsa_public_key after_login
      update_two_factor check_auth_status finalize_login authenticate_password login_handler
  resume-receive-ask for_key p =
      (rw modulus_read rw exponent_read refl, rw modulus_read rw exponent_read refl)
  resume-receive-ask for_login p =
      (refl, ap (λ x. some (settled for_login p x)) (after_login-login_handler r p.session))
  resume-receive-ask for_two_factor p = (refl, refl)
  resume-receive-ask for_token p = (refl, rw with_id refl)
  resume-receive-ask (for_status confirm) p = (refl, refl)

-- The exception for a response that nobody waits for.
abbrev pub unasked : Asked → Replies → Result Raised (Unit {0})
unasked for_token r = err (raised_by r.token)
unasked _ r = ok tt

-- What such a response leaves in the session: the id of a login that is OK.
abbrev pub unasked_session : Asked → Replies → Session → Session
unasked_session for_login r s =
    if r.login == EResult.ok_result then note_steam_id r.message.steamid s else s
unasked_session _ r s = s

abbrev pub not_asked : Asked → Pending → Pending
not_asked q p = record p { futures = forget q p.futures }

session-login_handler :
    (r : Replies) (s : Session) → (login_handler r s).0 ≡ unasked_session for_login r s
unfolding login_handler
session-login_handler r s = ground arith

module _ (modulus exponent : Text) (m e timestamp i : ℕ) (modulus_read : int_16 modulus ≡ some m)
    (exponent_read : int_16 exponent ≡ some e) where
  -- A response that no request waits for is taken without an exception, but for a response to a log-on,
  -- which raises what its result is translated to. It changes the session only as a login that is OK
  -- does, which writes the id of the user. A second response to a request, before the request goes on,
  -- raises InvalidStateError. Neither changes a future, so that the request keeps its first answer. The
  -- numbers of a key are texts of hexadecimal digits.
  pub receive-unasked_or_twice :
      (q : Asked) (r r' : Replies) (p : Pending)
      → ((receive (response q r modulus exponent timestamp i) (not_asked q p)).1 ≡ unasked q r)
        × ((receive (response q r modulus exponent timestamp i) (not_asked q p)).0.futures
            ≡ forget q p.futures)
        × ((receive (response q r modulus exponent timestamp i) (not_asked q p)).0.session
            ≡ unasked_session q r p.session)
        × ((receive
              (response q r' modulus exponent timestamp i)
              (receive (response q r modulus exponent timestamp i) (ask q p)).0).1
            ≡ err invalid_state_error)
        × ((receive
              (response q r' modulus exponent timestamp i)
              (receive (response q r modulus exponent timestamp i) (ask q p)).0).0.futures
            ≡ (receive (response q r modulus exponent timestamp i) (ask q p)).0.futures)
  unfolding receive process_rsa two_factor_update_handler poll_handler ask rsa_handler receive_login
      login_token_handler set_result forget
  receive-unasked_or_twice for_key r r' p = (
    rw modulus_read rw exponent_read refl,
    rw modulus_read rw exponent_read refl,
    rw modulus_read rw exponent_read refl,
    rw modulus_read rw exponent_read refl,
    rw modulus_read rw exponent_read refl,
  )
  receive-unasked_or_twice for_login r r' p =
      (refl, refl, session-login_handler r p.session, refl, refl)
  receive-unasked_or_twice for_two_factor r r' p = (refl, refl, refl, refl, refl)
  receive-unasked_or_twice for_token r r' p = (refl, refl, refl, refl, refl)
  receive-unasked_or_twice (for_status confirm) r r' p = (refl, refl, refl, refl, refl)

-- A response without the texts of a key, as one with an error has, is never answered: it raises ValueError,
-- and the request goes on waiting, whatever the result.
pub receive-no_key :
    (result timestamp : ℕ) (exponent : Text) (p : Pending)
    → (receive (Response.rsa result [] exponent timestamp) (ask for_key p)
        ≡ (ask for_key p, err value_error))
      × (resume for_key (receive (Response.rsa result [] exponent timestamp) (ask for_key p)).0
          ≡ none)
unfolding receive process_rsa two_factor_update_handler poll_handler ask rsa_handler resume int_16
receive-no_key result timestamp exponent p = (refl, refl)
