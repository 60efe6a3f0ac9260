-- ===== src/Auth/Replies.antt =====
-- The futures of src/steam_network/protocol_client.py: the handlers of the login's responses set them, and
-- the requests await them. With the methods of src/steam_network/protocol/protobuf_client.py that hand
-- the responses on.
use galaxy_integration_steam.Prelude.{
  ℕ, ◌+◌, ◌-◌, ◌*◌, Bool, ◌&&◌, [], ◌∷◌, Option, none, some, ◌==◌, leb, if◌then◌else◌, Result, ok,
  err,
}
use galaxy_integration_steam.Prelude.Keys.{nat_eq, contains}
use galaxy_integration_steam.Prelude.Text.{Text}
use galaxy_integration_steam.Auth.EResult
use galaxy_integration_steam.Auth.Results.{Raised, invalid_state_error, value_error, raised_by}
use galaxy_integration_steam.Auth.Methods.{UserActionRequired}
use galaxy_integration_steam.Auth.Protocol.{
  LoginMessage, StatusMessage, Replies, SteamPollingData, Session, handled, get_rsa_public_key,
  login_handler, update_two_factor, check_auth_status, finalize_login,
}

-- A future, of which `idle` is None.
pub data Future (A : Type 0) : Type 0 where
  idle waiting : Future A
  answered : A → Future A

-- `SteamPublicKey`
pub record PublicKey : Type 0 where
  pub modulus : ℕ
  pub exponent : ℕ
  pub timestamp : ℕ

pub record Futures : Type 0 where
  pub rsa : Future (ℕ × Option PublicKey)
  pub login : Future (ℕ × Option SteamPollingData)
  pub two_factor : Future ℕ
  pub poll : Future (ℕ × StatusMessage)
  pub token : Future (ℕ × Option ℕ)

pub record Pending : Type 0 where
  pub session : Session
  pub futures : Futures

-- `set_result`, where there is a future
unfoldable pub set_result : {A : Type 0} → A → Future A → Future A × Result Raised (Unit {0})
set_result a idle = (idle, ok tt)
set_result a waiting = (answered a, ok tt)
set_result a (answered b) = (answered b, err invalid_state_error)

-- The digits of `int(text, 16)`; what else it accepts is taken for an error.
abbrev pub hex_value : ℕ → Option ℕ
hex_value c =
    if leb 48 c && leb c 57
    then some (c - 48)
    else if leb 97 c && leb c 102
    then some (c - 87)
    else if leb 65 c && leb c 70
    then some (c - 55)
    else none

abbrev pub read_hex : ℕ → Text → Option ℕ
read_hex n [] = some n
read_hex n (c ∷ cs) =
    let more = λ (v : ℕ). read_hex (n * 16 + v) cs in
    elim (hex_value c) [ none ↦ none | some v ↦ more v ]

unfoldable pub int_16 : Text → Option ℕ
int_16 [] = none
int_16 (c ∷ cs) = read_hex 0 (c ∷ cs)

-- The responses to the login's requests, the first with the two numbers of its key in hexadecimal.
pub data Response : Type 0 where
  rsa : ℕ → Text → Text → ℕ → Response
  login : ℕ → LoginMessage → Response
  two_factor : ℕ → Response
  poll : ℕ → StatusMessage → Response
  token : ℕ → ℕ → Response

abbrev pub key_of : ℕ → ℕ → ℕ → ℕ → ℕ × Option PublicKey
key_of result modulus exponent timestamp = (
  result,
  if result == EResult.ok_result
      then some (record { modulus = modulus; exponent = exponent; timestamp = timestamp })
      else none,
)

abbrev pub empty_message : LoginMessage
empty_message = record {
  client_id = 0;
  steamid = 0;
  request_id = [];
  allowed_confirmations = [];
  extended_error_message = [];
}

abbrev pub empty_status : StatusMessage
empty_status = record {
  new_client_id = 0;
  refresh_token = [];
  access_token = [];
  account_name = [];
}

-- No replies yet.
abbrev pub silence : Replies
silence = record {
  rsa = 0;
  login = 0;
  message = empty_message;
  two_factor = 0;
  poll = 0;
  status = empty_status;
  token = 0;
  token_steam_id = none;
}

abbrev pub Received : Type 0
Received = Pending × Result Raised (Unit {0})

-- `_rsa_handler`, with the numbers that `_process_rsa` reads
unfoldable pub rsa_handler : ℕ → Option ℕ → Option ℕ → ℕ → Pending → Received
unfolding set_result
rsa_handler result none exponent timestamp p = (p, err value_error)
rsa_handler result (some m) none timestamp p = (p, err value_error)
rsa_handler result (some m) (some e) timestamp p =
    let (f, res) = set_result (key_of result m e timestamp) p.futures.rsa in
    (record p { futures = record p.futures { rsa = f } }, res)

-- `_login_handler` writes the user's id before it sets the result.
unfoldable pub receive_login : ℕ → LoginMessage → Pending → Received
unfolding set_result login_handler
receive_login result m p =
    let (s, polled) = login_handler (record silence { login = result; message = m }) p.session in
    let (f, res) = set_result (result, polled) p.futures.login in
    (record { session = s; futures = record p.futures { login = f } }, res)

-- `_login_token_handler`: a response that nothing awaits raises.
unfoldable pub login_token_handler : ℕ → ℕ → Pending → Future (ℕ × Option ℕ) → Received
unfolding set_result
login_token_handler result steam_id p idle = (p, err (raised_by result))
login_token_handler result steam_id p waiting =
    (record p { futures = record p.futures { token = answered (result, some steam_id) } }, ok tt)
login_token_handler result steam_id p (answered a) = (p, err invalid_state_error)

-- `_process_rsa`
unfoldable pub process_rsa : ℕ → Text → Text → ℕ → Pending → Received
unfolding rsa_handler
process_rsa result modulus exponent timestamp p =
    rsa_handler result (int_16 modulus) (int_16 exponent) timestamp p

-- `_two_factor_update_handler`
unfoldable pub two_factor_update_handler : ℕ → Pending → Received
unfolding set_result
two_factor_update_handler result p =
    let (f, res) = set_result result p.futures.two_factor in
    (record p { futures = record p.futures { two_factor = f } }, res)

-- `_poll_handler`
unfoldable pub poll_handler : ℕ → StatusMessage → Pending → Received
unfolding set_result
poll_handler result m p =
    let (f, res) = set_result (result, m) p.futures.poll in
    (record p { futures = record p.futures { poll = f } }, res)

unfoldable pub receive : Response → Pending → Received
unfolding process_rsa receive_login two_factor_update_handler poll_handler login_token_handler
receive (rsa result modulus exponent timestamp) p = process_rsa result modulus exponent timestamp p
receive (login result m) p = receive_login result m p
receive (two_factor result) p = two_factor_update_handler result p
receive (poll result m) p = poll_handler result m p
receive (token result steam_id) p = login_token_handler result steam_id p p.futures.token

-- A request of the authentication loop.
pub data Asked : Type 0 where
  for_key for_login for_two_factor for_token : Asked
  for_status : Bool → Asked

pub data Answer : Type 0 where
  key : Bool → Answer
  polled : Option SteamPollingData → Answer
  action : UserActionRequired → Answer
  status : UserActionRequired × ℕ → Answer

-- Up to the `await`: a new future takes the place of what was there.
unfoldable pub ask : Asked → Pending → Pending
ask for_key p = record p { futures = record p.futures { rsa = waiting } }
ask for_login p = record p { futures = record p.futures { login = waiting } }
ask for_two_factor p = record p { futures = record p.futures { two_factor = waiting } }
ask for_token p = record p { futures = record p.futures { token = waiting } }
ask (for_status confirm) p = record p { futures = record p.futures { poll = waiting } }

abbrev pub answer_with :
    {A : Type 0} → (A → Answer) → Session × Result Raised A → Session × Result Raised Answer
answer_with f (s, ok a) = (s, ok (f a))
answer_with f (s, err e) = (s, err e)

-- `authenticate_password` from its answer on
unfoldable pub after_login : Session → ℕ → Option SteamPollingData → Session × Result Raised Answer
after_login s result found =
    if result == EResult.ok_result
    then (handled s, ok (polled found))
    else if contains result (
        EResult.invalid_password ∷ EResult.invalid_param ∷ EResult.invalid_steam_id
        ∷ EResult.account_not_found ∷ EResult.invalid_login_auth_code ∷ [])
    then (handled s, ok (polled found))
    else (s, err (raised_by result))

-- The future is None again.
unfoldable pub forget : Asked → Futures → Futures
forget for_key f = record f { rsa = idle }
forget for_login f = record f { login = idle }
forget for_two_factor f = record f { two_factor = idle }
forget for_token f = record f { token = idle }
forget (for_status confirm) f = record f { poll = idle }

abbrev pub settled :
    Asked → Pending → Session × Result Raised Answer → Pending × Result Raised Answer
settled q p (s, res) = (record { session = s; futures = forget q p.futures }, res)

abbrev pub found_key : Session → ℕ → Session × Result Raised Answer
found_key s result =
    let (s', known) = get_rsa_public_key (record silence { rsa = result }) s in (s', ok (key known))

-- From the `await` on; `none` while there is no answer.
unfoldable pub resume : Asked → Pending → Option (Pending × Result Raised Answer)
unfolding forget get_rsa_public_key after_login update_two_factor check_auth_status finalize_login
resume for_key p = elim p.futures.rsa [
  | answered (result, found) ↦ some (settled for_key p (found_key p.session result))
  | _ ↦ none
]
resume for_login p = elim p.futures.login [
  | answered (result, found) ↦ some (settled for_login p (after_login p.session result found))
  | _ ↦ none
]
resume for_two_factor p = elim p.futures.two_factor [
  | answered result ↦ some (
      settled for_two_factor p
        (answer_with action (update_two_factor (record silence { two_factor = result }) p.session)))
  | _ ↦ none
]
resume for_token p = elim p.futures.token [
  | answered (result, steam_id) ↦ some (
      settled for_token p (
        answer_with action (
          finalize_login (record silence { token = result; token_steam_id = steam_id }) p.session)))
  | _ ↦ none
]
resume (for_status confirm) p = elim p.futures.poll [
  | answered (result, m) ↦ some (
      settled (for_status confirm) p (
        answer_with status
          (check_auth_status (record silence { poll = result; status = m }) confirm p.session)))
  | _ ↦ none
]
