-- ===== src/Wire/Session/Tests.antt =====
-- Sessions of a few seconds.
use galaxy_integration_steam.Prelude.{
  ◌+◌, ◌*◌, ◌≡◌, refl, true, false, List, [], ◌∷◌, none, some, arith,
}
use galaxy_integration_steam.Wire.Requests.{heart_beat, log_off}
use galaxy_integration_steam.Wire.Session.{
  asleep, ProtobufClient, Event, logged_on, logged_off, socket_closes, closes, step, run, beat,
  beat_all, second, process_client_log_on_response, process_client_logged_off, close,
}
use galaxy_integration_steam.Wire.Session.Beats.{seconds, run-logged_on-beats}
use galaxy_integration_steam.Wire.Session.Silence.{heart_beats}
use galaxy_integration_steam.Wire.Session.Single.{run-end-silent}

abbrev connected : ProtobufClient
connected = record {
  confirmed_steam_id = none;
  receiving = true;
  heartbeat_task = none;
  left_behind = [];
  socket_open = true;
  now = 5;
  sent = [];
}

run-logged_on-beats_example :
    ((run (logged_on 1 76561197960265729 9 ∷ seconds (2 * 9 + 3)) connected).sent
      ≡ (14, heart_beat) ∷ (23, heart_beat) ∷ [])
    × ((run (logged_on 1 76561197960265729 9 ∷ seconds (2 * 9 + 3)) connected).heartbeat_task
        ≡ some (asleep 9 6))
    × ((run (logged_on 1 76561197960265729 9 ∷ seconds (2 * 9 + 3)) connected).now ≡ 26)
run-logged_on-beats_example =
    run-logged_on-beats connected 76561197960265729 8 2 3 refl refl refl refl (omega arith)

run-end-silent_example :
    heart_beats
      (run
        (seconds 20)
        (step (closes true) (run (logged_on 1 76561197960265729 9 ∷ seconds 10) connected))).sent
    ≡ heart_beats (run (logged_on 1 76561197960265729 9 ∷ seconds 10) connected).sent
run-end-silent_example =
    run-end-silent (logged_on 1 76561197960265729 9 ∷ seconds 10) (seconds 20) (closes true)
      connected refl refl refl (omega arith) tt

-- A second log-on leaves the task of the first behind, and the closing does not end it.
abbrev twice : List Event
twice = logged_on 1 7 9 ∷ logged_on 1 7 9 ∷ closes true ∷ seconds 9

left_behind_beats : (run twice connected).sent ≡ (5, log_off) ∷ (14, heart_beat) ∷ []
unfolding run step process_client_log_on_response close second beat_all beat
left_behind_beats = refl

-- A log-off before the log-on ends the loop.
logged_off_early : (run (logged_off 1 ∷ []) connected).receiving ≡ false
unfolding run step process_client_logged_off
logged_off_early = refl

-- On a closed socket the task ends with its first heartbeat.
abbrev cut : List Event
cut = logged_on 1 7 9 ∷ socket_closes ∷ seconds 30

cut_is_silent : (run cut connected).sent ≡ []
unfolding run step process_client_log_on_response second beat_all beat
cut_is_silent = refl
