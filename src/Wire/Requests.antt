-- ===== src/Wire/Requests.antt =====
-- What `ProtobufClient` of src/steam_network/protocol/protobuf_client.py sends: a request has the fields
-- that its method sets and that are not constant. The bytes of a message are a parameter.
use galaxy_integration_steam.Prelude.{
  ℕ, ◌+◌, Bool, List, [], ◌∷◌, Option, none, some, Result, ok, err, map,
}
use galaxy_integration_steam.Prelude.Text.{Text, codes}
use galaxy_integration_steam.Prelude.Int.{ℤ, pos, negsuc}
use galaxy_integration_steam.Wire.Bytes.{Bytes, WireError}
use galaxy_integration_steam.Wire.EMsg
use galaxy_integration_steam.Wire.Packet.{Codec, Client, send, send_service_method}
pub mod Jobs
pub mod Anonymous

-- CMsgClientLogon
pub record LogOn : Type 0 where
  pub steam_id : ℕ
  pub account_name : Text
  pub access_token : Text
  pub cell_id : ℕ
  pub machine_id : Bytes
  pub client_os_type : ℕ
  pub obfuscated_private_ip : ℕ

pub data Request : Type 0 where
  hello heart_beat log_off import_game_time friends_statuses import_collections : Request
  rsa_public_key : Text → Request
  log_on_password : Text → Bytes → ℕ → ℕ → Request
  steamguard_data : ℕ → ℕ → Text → ℕ → Request
  auth_status : ℕ → Bytes → Request
  log_on_token : LogOn → Request
  import_game_stats : ℕ → Request
  persona_state : ℕ → Request
  user_infos : List ℕ → ℕ → Request
  packages_info : List (ℕ × ℕ) → Request
  apps_info : List ℕ → Request
  presence_localization : ℕ → Text → Request
  machine_auth : ℕ → Bytes → ℕ → Text → ℕ → Request

-- How a request is sent: as a message of its own, in answer to a job, or by the name of a service method.
-- Where the login is part of what is called, the name of the message fits the login.
pub data Call : Type 0 where
  message : ℕ → Call
  answer : ℕ → ℕ → Call
  service method : Text → Call

unfoldable pub call_of : Request → Call
call_of hello = message EMsg.client_hello
call_of heart_beat = message EMsg.client_heart_beat
call_of log_off = message EMsg.client_log_off
call_of import_game_time = service (codes "Player.ClientGetLastPlayedTimes#1")
call_of friends_statuses = service (codes "Chat.RequestFriendPersonaStates#1")
call_of import_collections = service (codes "CloudConfigStore.Download#1")
call_of (rsa_public_key name) = method (codes "Authentication.GetPasswordRSAPublicKey#1")
call_of (log_on_password name password timestamp os) =
    method (codes "Authentication.BeginAuthSessionViaCredentials#1")
call_of (steamguard_data client_id steam_id code type_) =
    method (codes "Authentication.UpdateAuthSessionWithSteamGuardCode#1")
call_of (auth_status client_id request_id) = method (codes "Authentication.PollAuthSessionStatus#1")
call_of (log_on_token m) = message EMsg.client_logon
call_of (import_game_stats game_id) = message EMsg.client_get_user_stats
call_of (persona_state state) = message EMsg.client_change_status
call_of (user_infos users flags) = message EMsg.client_request_friend_data
call_of (packages_info licenses) = message EMsg.client_pics_product_info_request
call_of (apps_info app_ids) = message EMsg.client_pics_product_info_request
call_of (presence_localization appid language) =
    service (codes "Community.GetAppRichPresenceLocalization#1")
call_of (machine_auth job sha_hash offset filename cubtowrite) =
    answer EMsg.client_update_machine_auth_response job

-- `os_value if os_value >= 0 else 0`
abbrev pub os_type : ℤ → ℕ
os_type (pos n) = n
os_type (negsuc n) = 0

-- The id of the user is confirmed for the call.
abbrev pub for_call : ℕ → Client → Client
for_call steam_id c = elim c.confirmed_steam_id [
  | none ↦ record c { confirmed_steam_id = some steam_id }
  | some _ ↦ c
]

-- What `resetSteamIDAfterThisCall` asks for, by whether the id was confirmed before.
abbrev pub after_call : Option ℕ → Client → Client
after_call none c = record c { confirmed_steam_id = none }
after_call (some _) c = c

module _ (k : Codec) (serialize : Request → Bytes) where
  unfoldable pub send_call : Call → Bytes → Client → Client × Result WireError Bytes
  unfolding send_service_method
  send_call (message emsg) body c = (c, send k c emsg body none none none)
  send_call (answer emsg job) body c = (c, send k c emsg body none (some job) none)
  send_call (service name) body c =
      let c' = record c { next_job_id = c.next_job_id + 1 } in
      (
        c',
        send k c' EMsg.service_method_call_from_client body (some c.next_job_id) none (some name),
      )
  send_call (method name) body c = send_service_method k c body name

  unfoldable pub send_request : Request → Client → Client × Result WireError Bytes
  unfolding send_call call_of
  send_request r c = send_call (call_of r) (serialize r) c

  -- The packets of requests that are sent one after the other.
  unfoldable pub send_requests : List Request → Client → List (Result WireError Bytes)
  unfolding send_request
  send_requests [] c = []
  send_requests (r ∷ rs) c = let (c', packet) = send_request r c in packet ∷ send_requests rs c'

  -- `send_log_on_token_message`: the coroutine of `_send` is made before the reset, and runs after it,
  -- where it is awaited.
  unfoldable pub send_log_on_token_message : LogOn → Client → Client × Result WireError Bytes
  unfolding send_request
  send_log_on_token_message m c =
      send_request (log_on_token m) (after_call c.confirmed_steam_id (for_call m.steam_id c))

-- `get_packages_info`, of the ids and access tokens of licenses, and the operating system of a log-on.
abbrev pub log_on_password_of : Text → Bytes → ℕ → ℤ → Request
log_on_password_of name password timestamp os_value =
    log_on_password name password timestamp (os_type os_value)
