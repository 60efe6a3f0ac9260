-- ===== src/Wire/Receive/Defs.antt =====
-- What each received message is handed to. The handlers, the generated parsers and gzip are
-- parameters, in `Receiver`.
use galaxy_integration_steam.Prelude.{
  ℕ, zero, suc, List, [], ◌∷◌, Result, ok, err, Option, none, some, ◌==◌, if◌then◌else◌, length,
}
use galaxy_integration_steam.Prelude.Keys.{◌=?◌, nat_eq}
use galaxy_integration_steam.Prelude.Text.{Text, codes, list_eq}
use galaxy_integration_steam.Wire.Bytes.{
  Bytes, WireError, decode_error, value_error, gzip_error, recursion_error,
}
use galaxy_integration_steam.Wire.EMsg
use galaxy_integration_steam.Wire.Packet.{Header, Codec, Client, read_packet, note_session}
use galaxy_integration_steam.Wire.Multi.{frames}

-- The methods that a message may go to, by the message's number and, for service methods, by
-- `target_job_name`.
pub data Route : Type 0 where
  log_on_response logged_off friends_list persona_state license_list product_info : Route
  user_stats account_info nicknames ignored : Route
  rich_presence user_time collections unparsed : Route
  rsa login steamguard_update auth_poll_status : ℕ → Route

-- The names of protobuf_client.py for the service methods, tested in its order. The four methods
-- of the login are given the header's eresult too.
unfoldable pub service : Text → ℕ → Route
service name eresult =
    if name =? codes "Community.GetAppRichPresenceLocalization#1"
    then rich_presence
    else if name =? codes "Player.ClientGetLastPlayedTimes#1"
    then user_time
    else if name =? codes "CloudConfigStore.Download#1"
    then collections
    else if name =? codes "Authentication.GetPasswordRSAPublicKey#1"
    then rsa eresult
    else if name =? codes "Authentication.BeginAuthSessionViaCredentials#1"
    then login eresult
    else if name =? codes "Authentication.UpdateAuthSessionWithSteamGuardCode#1"
    then steamguard_update eresult
    else if name =? codes "Authentication.PollAuthSessionStatus#1"
    then auth_poll_status eresult
    else unparsed

-- An unset name reads as the empty text, an unset eresult as 2 (steammessages_base.proto).
abbrev service_of : Header → Route
service_of h =
    service (elim h.target_job_name [ none ↦ [] | some s ↦ s ])
      (elim h.eresult [ none ↦ 2 | some e ↦ e ])

-- The `elif` ladder of `_process_message` behind the test for a bundle.
unfoldable pub route : ℕ → Header → Route
route emsg h =
    if emsg == EMsg.client_log_on_response
    then log_on_response
    else if emsg == EMsg.client_logged_off
    then logged_off
    else if emsg == EMsg.client_friends_list
    then friends_list
    else if emsg == EMsg.client_persona_state
    then persona_state
    else if emsg == EMsg.client_license_list
    then license_list
    else if emsg == EMsg.client_pics_product_info_response
    then product_info
    else if emsg == EMsg.client_get_user_stats_response
    then user_stats
    else if emsg == EMsg.client_account_info
    then account_info
    else if emsg == EMsg.client_player_nickname_list
    then nicknames
    else if emsg == EMsg.service_method
    then service_of h
    else if emsg == EMsg.service_method_response
    then service_of h
    else ignored

-- A method that may change the client and the rest of the program's state `S`, and may raise; what
-- it changed before it raised stays changed.
abbrev pub Action : Type 0 → Type 0
Action S = Client × S → (Client × S) × Result WireError (Unit {0})

module _ {S : Type 0} where
  abbrev pub done : Action S
  done st = (st, ok tt)

  abbrev pub raise : WireError → Action S
  raise e st = (st, err e)

  -- Go on with the second method unless the first one raised.
  abbrev pub go_on :
      (Client × S) × Result WireError (Unit {0})
      → Action S
      → (Client × S) × Result WireError (Unit {0})
  go_on (st, ok _) next = next st
  go_on (st, err e) next = (st, err e)

-- The code around the loop: the handlers, the parser of CMsgMulti (its fields `size_unzipped` and
-- `message_body`), and gzip.decompress.
pub record Receiver (S : Type 0) : Type 0 where
  pub codec : Codec
  pub parse_multi : Bytes → Option (ℕ × Bytes)
  pub decompress : Bytes → Option Bytes
  pub handle : Route → Bytes → Action S

module _ {S : Type 0} (r : Receiver S) where
  -- `_process_message`, given the method for bundles. The log line looks the number up in the enum.
  unfoldable pub process_message : (Bytes → Action S) → ℕ → Header → Bytes → Action S
  process_message bundle emsg h body st =
      if EMsg.is_member emsg
      then (if emsg == EMsg.multi then bundle body st else r.handle (route emsg h) body st)
      else raise value_error st

  -- `_process_packet` behind the parse of the packet.
  abbrev pub dispatch :
      (Bytes → Action S) → Result WireError (ℕ × Option (Header × Bytes)) → Action S
  dispatch bundle (err e) st = raise e st
  dispatch bundle (ok (emsg, none)) st =
      if EMsg.is_member emsg then done st else raise value_error st
  dispatch bundle (ok (emsg, some (h, body))) (c, s) =
      let (c', noted) = note_session c h in
      go_on ((c', s), noted) (process_message bundle emsg h body)

  unfoldable pub process_packet : (Bytes → Action S) → Bytes → Action S
  process_packet bundle packet st = dispatch bundle (read_packet r.codec packet) st

  -- The packets of a bundle, in order, up to the first that raises.
  unfoldable pub process_all : (Bytes → Action S) → List Bytes → Action S
  process_all bundle [] st = done st
  process_all bundle (p ∷ ps) st = go_on (process_packet bundle p st) (process_all bundle ps)

  -- The loop over a bundle's data is given fuel for every byte, so the first case does not arise.
  abbrev pub run_frames : (Bytes → Action S) → Option (Result WireError (List Bytes)) → Action S
  run_frames bundle none st = raise recursion_error st
  run_frames bundle (some (err e)) st = raise e st
  run_frames bundle (some (ok fs)) st = process_all bundle fs st

  -- The data of a bundle, unzipped where `size_unzipped` is not 0.
  abbrev pub run_data : (Bytes → Action S) → Option Bytes → Action S
  run_data bundle none st = raise gzip_error st
  run_data bundle (some bs) st = run_frames bundle (frames (suc (length bs)) bs) st

  abbrev pub run_multi : (Bytes → Action S) → Option (ℕ × Bytes) → Action S
  run_multi bundle none st = raise decode_error st
  run_multi bundle (some (size_unzipped, body)) st =
      run_data bundle (if size_unzipped == 0 then some body else r.decompress body) st

  -- `_process_multi`, down to a depth of nested bundles.
  unfoldable pub process_multi : ℕ → Bytes → Action S
  process_multi zero body st = raise recursion_error st
  process_multi (suc depth) body st = run_multi (process_multi depth) (r.parse_multi body) st
