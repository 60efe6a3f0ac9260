-- ===== src/Wire/Session.antt =====
-- The session of `ProtobufClient` in src/steam_network/protocol/protobuf_client.py: the task that sends
-- heartbeats, from the log-on to the log-off or the closing.
use galaxy_integration_steam.Prelude.{
  ℕ, zero, suc, Bool, true, false, List, [], ◌∷◌, ◌++◌, Option, none, some, ◌==◌, if◌then◌else◌,
  Result, ok, err,
}
use galaxy_integration_steam.Prelude.Keys.{nat_eq}
use galaxy_integration_steam.Prelude.Int.{ℤ, pos, ◌-ℤ◌}
use galaxy_integration_steam.Auth.EResult
use galaxy_integration_steam.Wire.Packet.{account_id_mask}
use galaxy_integration_steam.Wire.Requests.{Request, heart_beat, log_off}
pub mod Beats
pub mod Silence
pub mod Single
mod Tests

pub data SessionError : Type 0 where
  assertion_error connection_closed : SessionError

-- A task of `_heartbeat`: asleep, with the interval and the seconds that are left of the sleep, or ended
-- by a cancel or by an exception.
pub data Heartbeat : Type 0 where
  asleep : ℕ → ℕ → Heartbeat
  ended : Heartbeat

-- `receiving` is whether the loop of `run` waits for a packet; `left_behind` are tasks that no attribute
-- holds any more. What is sent has the second in which it is.
pub record ProtobufClient : Type 0 where
  pub confirmed_steam_id : Option ℕ
  pub receiving : Bool
  pub heartbeat_task : Option Heartbeat
  pub left_behind : List Heartbeat
  pub socket_open : Bool
  pub now : ℕ
  pub sent : List (ℕ × Request)

-- `_send` on the socket, which raises when it is closed.
abbrev pub send : Request → ProtobufClient → ProtobufClient × Result SessionError (Unit {0})
send m c =
    if c.socket_open
    then (record c { sent = c.sent ++ ((c.now, m) ∷ []) }, ok tt)
    else (c, err connection_closed)

-- The loop of `_heartbeat` goes on unless `_send` raised.
abbrev pub sleep_again :
    ℕ → ProtobufClient × Result SessionError (Unit {0}) → Heartbeat × ProtobufClient
sleep_again interval (c, ok _) = (asleep interval interval, c)
sleep_again interval (c, err _) = (ended, c)

-- A second of the task. An interval of 0 sends at each turn of the event loop, which is read as each
-- second.
unfoldable pub beat : Heartbeat → ProtobufClient → Heartbeat × ProtobufClient
beat ended c = (ended, c)
beat (asleep interval (suc (suc n))) c = (asleep interval (suc n), c)
beat (asleep interval _) c = sleep_again interval (send heart_beat c)

abbrev pub beat_task : Option Heartbeat → ProtobufClient → ProtobufClient
unfolding beat
beat_task none c = c
beat_task (some h) c = let (h', c') = beat h c in record c' { heartbeat_task = some h' }

unfoldable pub beat_all : List Heartbeat → ProtobufClient → List Heartbeat × ProtobufClient
unfolding beat
beat_all [] c = ([], c)
beat_all (h ∷ hs) c = let (h', c') = beat h c in let (hs', c'') = beat_all hs c' in (h' ∷ hs', c'')

-- A second passes.
unfoldable pub second : ProtobufClient → ProtobufClient
unfolding beat_all beat_task
second c =
    let later = record c { now = suc c.now } in
    let (hs, c') = beat_all c.left_behind (beat_task c.heartbeat_task later) in
    record c' { left_behind = hs }

abbrev pub held : Option Heartbeat → List Heartbeat
held none = []
held (some h) = h ∷ []

-- `_process_client_log_on_response`, with what the handler is told: the result, the user's id and the
-- account's id.
abbrev account_id_of : ℕ → Option ℤ
account_id_of zero = none
account_id_of (suc n) = some (pos (suc n) -ℤ pos account_id_mask)

unfoldable pub process_client_log_on_response :
    ℕ → ℕ → ℕ → ProtobufClient → ProtobufClient × (ℕ × ℕ × Option ℤ)
process_client_log_on_response result steam_id interval c =
    let told : ℕ × ℕ × Option ℤ = (result, steam_id, account_id_of steam_id) in
    if result == EResult.ok_result
    then (
      record c {
        confirmed_steam_id = some steam_id;
        heartbeat_task = some (asleep interval interval);
        left_behind = held c.heartbeat_task ++ c.left_behind;
      },
      told,
    )
    else (c, told)

-- `_process_client_logged_off`, with the result that the handler is told.
unfoldable pub process_client_logged_off :
    ℕ → Option Heartbeat → ProtobufClient → ProtobufClient × Result SessionError ℕ
process_client_logged_off result none c = (c, err assertion_error)
process_client_logged_off result (some h) c = (record c { heartbeat_task = some ended }, ok result)

abbrev pub cancel : Option Heartbeat → Option Heartbeat
cancel none = none
cancel (some h) = some ended

-- `send_log_off_message`, which logs what is raised, and `close`.
abbrev pub send_log_off_message : ProtobufClient → ProtobufClient
send_log_off_message c = (send log_off c).0

unfoldable pub close : Bool → ProtobufClient → ProtobufClient
close send_log_off c =
    let stopped = record c { receiving = false } in
    let c' = if send_log_off then send_log_off_message stopped else stopped in
    record c' { heartbeat_task = cancel c'.heartbeat_task }

pub data Event : Type 0 where
  logged_on : (result steam_id interval : ℕ) → Event
  logged_off : (result : ℕ) → Event
  second_passes socket_closes : Event
  closes : (send_log_off : Bool) → Event

-- An exception of a message's method ends the loop.
abbrev pub stop_if : ProtobufClient × Result SessionError ℕ → ProtobufClient
stop_if (c, ok _) = c
stop_if (c, err _) = record c { receiving = false }

-- Messages are received while the loop waits for them.
unfoldable pub step : Event → ProtobufClient → ProtobufClient
unfolding process_client_log_on_response process_client_logged_off second close
step (logged_on result steam_id interval) c =
    if c.receiving then (process_client_log_on_response result steam_id interval c).0 else c
step (logged_off result) c =
    if c.receiving then stop_if (process_client_logged_off result c.heartbeat_task c) else c
step second_passes c = second c
step socket_closes c = record c { socket_open = false }
step (closes send_log_off) c = close send_log_off c

unfoldable pub run : List Event → ProtobufClient → ProtobufClient
unfolding step
run [] c = c
run (e ∷ es) c = run es (step e c)
