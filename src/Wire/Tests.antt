-- ===== src/Wire/Tests.antt =====
-- Runs and instances of the wire protocol, over a header codec and a receiver that are concrete.
use galaxy_integration_steam.Prelude.{
  ℕ, zero, suc, ◌≡◌, refl, List, [], ◌∷◌, ◌++◌, arith, ok, Option, none, some,
}
use galaxy_integration_steam.Prelude.Text.{Text, codes}
use galaxy_integration_steam.Wire.Bytes.{Bytes, unpack_u32, pack_u32}
use galaxy_integration_steam.Wire.EMsg
use galaxy_integration_steam.Wire.Packet.{
  Header, Codec, Client, header_for, send, read_packet, note_session,
}
use galaxy_integration_steam.Wire.Packet.Laws.{packet_bytes, read_packet-send}
use galaxy_integration_steam.Wire.Multi.{frames, join, frames-join}
use galaxy_integration_steam.Wire.SteamId.{SteamId}
use galaxy_integration_steam.Wire.Receive.{
  Route, Receiver, process_packet, process_all, process_multi, process_message, route,
}
use galaxy_integration_steam.Wire.Receive.Bundles.{bundle_transparent}
use galaxy_integration_steam.Wire.Packet.{account_id_mask}
use galaxy_integration_steam.Wire.Requests.{
  Request, LogOn, send_requests, send_log_on_token_message,
}
use galaxy_integration_steam.Wire.Requests.Jobs.{job_ids, IsIncreasingFrom, job_ids-send_requests}
use galaxy_integration_steam.Wire.Requests.Anonymous.{steamid_of, steamid-send_log_on_token_message}

-- An optional number as a list, and back.
abbrev put_opt : Option ℕ → List ℕ → List ℕ
put_opt none r = 0 ∷ r
put_opt (some n) r = 1 ∷ n ∷ r

abbrev take_opt {ℓ} : {A : Type ℓ} → List ℕ → (Option ℕ → List ℕ → Option A) → Option A
take_opt (zero ∷ r) f = f none r
take_opt (suc _ ∷ n ∷ r) f = f (some n) r
take_opt _ f = none

abbrev put_name : Option Text → List ℕ
put_name none = []
put_name (some t) = 1 ∷ t

abbrev take_name : List ℕ → Option Text
take_name [] = none
take_name (_ ∷ t) = some t

abbrev serialize : Header → Bytes
serialize h = put_opt h.steamid (
    put_opt h.client_sessionid (
      put_opt h.jobid_source
        (put_opt h.jobid_target (put_opt h.eresult (put_name h.target_job_name)))))

abbrev parse : Bytes → Option Header
parse bs = take_opt bs λ a bs. take_opt bs λ b bs. take_opt bs λ c bs. take_opt bs λ d bs.
    take_opt bs λ e bs. some (record {
      steamid = a;
      client_sessionid = b;
      jobid_source = c;
      jobid_target = d;
      target_job_name = take_name bs;
      eresult = e;
    })

parse-serialize : (h : Header) → parse (serialize h) ≡ some h
parse-serialize h = ground arith

abbrev codec : Codec
codec = record { serialize = serialize; parse = parse; parse-serialize = parse-serialize }

-- A receiver that keeps a list of what it was handed; its bundles are stored as they are.
abbrev receiver : Receiver (List (Route × Bytes))
receiver = record {
  codec = codec;
  parse_multi = λ body. some (0, body);
  decompress = λ body. none;
  handle = λ r body st. ((st.0, st.1 ++ (r, body) ∷ []), ok tt);
}

abbrev client : Client
client = record { confirmed_steam_id = none; session_id = some 7; next_job_id = 1 }

abbrev plain : Header
plain = record {
  steamid = none;
  client_sessionid = none;
  jobid_source = none;
  jobid_target = none;
  target_job_name = none;
  eresult = none;
}

abbrev two_packets : List Bytes
two_packets =
    packet_bytes codec EMsg.client_friends_list plain (5 ∷ [])
    ∷ packet_bytes codec EMsg.client_license_list plain (6 ∷ 7 ∷ [])
    ∷ []

bundle_runs :
    (process_packet receiver
      (process_multi receiver 1)
      (packet_bytes codec EMsg.multi plain (join two_packets))
      (client, [])).0.1
    ≡ (Route.friends_list, 5 ∷ []) ∷ (Route.license_list, 6 ∷ 7 ∷ []) ∷ []
unfolding process_packet process_multi process_all process_message EMsg.is_member route read_packet
    note_session unpack_u32 join frames
bundle_runs = refl

bundle_transparent_example :
    process_packet receiver
      (process_multi receiver 1)
      (packet_bytes codec EMsg.multi plain (join two_packets ++ 9 ∷ []))
      (client, [])
    ≡ process_all receiver (process_multi receiver 0) two_packets (client, [])
bundle_transparent_example =
    bundle_transparent receiver 0 plain two_packets (9 ∷ []) (join two_packets ++ 9 ∷ [])
      (client, []) refl (omega arith) refl

abbrev hello : Bytes
hello = packet_bytes codec 9805 (header_for client (some 1) none (some (codes "x"))) (8 ∷ [])

hello_sent : send codec client 9805 (8 ∷ []) (some 1) none (some (codes "x")) ≡ ok hello
unfolding send pack_u32 header_for
hello_sent = refl

read_packet-send_example :
    read_packet codec hello
    ≡ ok (9805, some (header_for client (some 1) none (some (codes "x")), 8 ∷ []))
read_packet-send_example =
    read_packet-send codec client 9805 (8 ∷ []) (some 1) none (some (codes "x")) (omega arith)
      hello_sent

frames-join_example :
    frames 40 (join ((1 ∷ 2 ∷ []) ∷ [] ∷ (3 ∷ []) ∷ []) ++ 9 ∷ [])
    ≡ some (ok ((1 ∷ 2 ∷ []) ∷ [] ∷ (3 ∷ []) ∷ []))
unfolding join
frames-join_example =
    frames-join 40 ((1 ∷ 2 ∷ []) ∷ [] ∷ (3 ∷ []) ∷ []) (9 ∷ []) (omega arith) (omega arith)

abbrev individual : SteamId
individual = record { id_ = 39734272; instance_ = 1; type_ = 1; universe = 1 }

abbrev no_body : Request → Bytes
no_body r = []

abbrev four_requests : List Request
four_requests =
    Request.hello
    ∷ Request.rsa_public_key (codes "al")
    ∷ Request.import_collections
    ∷ Request.import_game_time
    ∷ []

ids_of_four : job_ids codec (send_requests codec no_body four_requests client) ≡ 1 ∷ 2 ∷ 3 ∷ []
unfolding send_requests read_packet unpack_u32 send pack_u32 header_for
ids_of_four = refl

job_ids-send_requests_example :
    IsIncreasingFrom 1 (job_ids codec (send_requests codec no_body four_requests client))
job_ids-send_requests_example = job_ids-send_requests codec no_body four_requests client

abbrev alice_log_on : LogOn
alice_log_on = record {
  steam_id = 76561197960287930;
  account_name = codes "al";
  access_token = codes "ey";
  cell_id = 0;
  machine_id = 1 ∷ [];
  client_os_type = 16;
  obfuscated_private_ip = 9;
}

abbrev log_on_packet : Bytes
log_on_packet = packet_bytes codec EMsg.client_logon (header_for client none none none) []

log_on_sent : (send_log_on_token_message codec no_body alice_log_on client).1 ≡ ok log_on_packet
unfolding send_log_on_token_message header_for send pack_u32
log_on_sent = refl

steamid-send_log_on_token_message_example :
    (steamid_of (read_packet codec log_on_packet) ≡ some account_id_mask)
    × ((send_log_on_token_message codec no_body alice_log_on client).0 ≡ client)
steamid-send_log_on_token_message_example =
    steamid-send_log_on_token_message codec no_body alice_log_on client log_on_packet refl
      log_on_sent
