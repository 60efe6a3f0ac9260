-- ===== src/Auth/AnsweredTests.antt =====
-- Runs of the login's futures.
use galaxy_integration_steam.Prelude.{◌≡◌, refl, false, [], none, some, ok, err}
use galaxy_integration_steam.Prelude.Text.{codes}
use galaxy_integration_steam.UserInfo.Defs.{new_cache}
use galaxy_integration_steam.Auth.Results.{invalid_state_error}
use galaxy_integration_steam.Auth.Protocol.{Replies, Session}
use galaxy_integration_steam.Auth.Replies.{
  idle, waiting, answered, Pending, int_16, receive, for_token, ask, forget, settled, resume,
  silence,
}
use galaxy_integration_steam.Auth.Answered.{
  response, with_reply, unasked, unasked_session, not_asked, resume-receive-ask,
  receive-unasked_or_twice,
}

key_read : int_16 (codes "fF0a") ≡ some 65290
unfolding int_16
key_read = refl

c0_read : int_16 (codes "c0") ≡ some 192
unfolding int_16
c0_read = refl

e_read : int_16 (codes "11") ≡ some 17
unfolding int_16
e_read = refl

abbrev new_session : Session
new_session = record {
  user_info = new_cache;
  authentication = record { two_factor_allowed_methods = []; error_message = none };
  polling = none;
  auth_lost_handler = false;
}

-- A response of an earlier request has come; a log-on is awaited.
abbrev after_key : Pending
after_key = record {
  session = new_session;
  futures = record {
    rsa = answered (1, none);
    login = idle;
    two_factor = idle;
    poll = idle;
    token = waiting;
  };
}

abbrev granted : Replies
granted = record silence { rsa = 1; token = 1; token_steam_id = some 76561 }

resume-receive-ask_example :
    ((receive
        (response for_token granted (codes "c0") (codes "11") 9 76561)
        (ask for_token after_key)).1
      ≡ ok tt)
    × (resume for_token
          (receive
            (response for_token granted (codes "c0") (codes "11") 9 76561)
            (ask for_token after_key)).0
        ≡ some (settled for_token after_key (with_reply for_token granted new_session)))
resume-receive-ask_example =
    resume-receive-ask (codes "c0") (codes "11") 192 17 9 76561 granted c0_read e_read refl
      for_token after_key

receive-unasked_or_twice_example :
    ((receive
        (response for_token granted (codes "c0") (codes "11") 9 76561)
        (not_asked for_token after_key)).1
      ≡ unasked for_token granted)
    × ((receive
          (response for_token granted (codes "c0") (codes "11") 9 76561)
          (not_asked for_token after_key)).0.futures
        ≡ forget for_token after_key.futures)
    × ((receive
          (response for_token granted (codes "c0") (codes "11") 9 76561)
          (not_asked for_token after_key)).0.session
        ≡ unasked_session for_token granted after_key.session)
    × ((receive
          (response for_token silence (codes "c0") (codes "11") 9 76561)
          (receive
            (response for_token granted (codes "c0") (codes "11") 9 76561)
            (ask for_token after_key)).0).1
        ≡ err invalid_state_error)
    × ((receive
          (response for_token silence (codes "c0") (codes "11") 9 76561)
          (receive
            (response for_token granted (codes "c0") (codes "11") 9 76561)
            (ask for_token after_key)).0).0.futures
        ≡ (receive
            (response for_token granted (codes "c0") (codes "11") 9 76561)
            (ask for_token after_key)).0.futures)
receive-unasked_or_twice_example =
    receive-unasked_or_twice (codes "c0") (codes "11") 192 17 9 76561 c0_read e_read for_token
      granted silence after_key
