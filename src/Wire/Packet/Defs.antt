-- ===== src/Wire/Packet/Defs.antt =====
-- The header, the client's own state, sending and reading one packet. The generated protobuf code
-- is a parameter: how a header is written to bytes and parsed.
use galaxy_integration_steam.Prelude.{
  ℕ, ◌+◌, ◌/◌, ◌%◌, ◌≡◌, ◌++◌, Result, ok, err, ◌>>=◌, or_raise, Option, none, some, ◌==◌,
  if◌then◌else◌, length, take, drop,
}
use galaxy_integration_steam.Prelude.Text.{Text}
use galaxy_integration_steam.Wire.Bytes.{
  Bytes, WireError, decode_error, attribute_error, pack_u32, unpack_u32,
}
use galaxy_integration_steam.Wire.EMsg

-- CMsgProtoBufHeader: the fields that the code sets or reads, `none` where a field is not set.
pub record Header : Type 0 where
  pub steamid : Option ℕ
  pub client_sessionid : Option ℕ
  pub jobid_source : Option ℕ
  pub jobid_target : Option ℕ
  pub target_job_name : Option Text
  pub eresult : Option ℕ

-- SerializeToString and ParseFromString of the generated class. A parse gives back what was
-- serialized.
pub record Codec : Type 0 where
  pub serialize : Header → Bytes
  pub parse : Bytes → Option Header
  pub parse-serialize : (h : Header) → parse (serialize h) ≡ some h

-- The fields of `ProtobufClient` that packets read and write.
pub record Client : Type 0 where
  pub confirmed_steam_id : Option ℕ
  pub session_id : Option ℕ
  pub next_job_id : ℕ

-- What a packet with a protobuf header carries.
abbrev pub Message : Type 0
Message = ℕ × Header × Bytes

abbrev pub proto_mask : ℕ
proto_mask = 0x80000000

abbrev pub account_id_mask : ℕ
account_id_mask = 0x0110000100000000

-- An unset `client_sessionid` reads as 0.
abbrev pub no_session : ℕ
no_session = 0

abbrev or_default : Option ℕ → ℕ → ℕ
or_default none d = d
or_default (some n) d = n

-- `emsg | _PROTO_MASK`: the top bit of a 32-bit number is set.
abbrev pub with_mask : ℕ → ℕ
with_mask emsg = if emsg / proto_mask % 2 == 1 then emsg else emsg + proto_mask

-- The header that `_send` fills in.
unfoldable pub header_for : Client → Option ℕ → Option ℕ → Option Text → Header
header_for c source_job_id target_job_id target_job_name = record {
  steamid = elim c.confirmed_steam_id [ some i ↦ some i | none ↦ some (0 + account_id_mask) ];
  client_sessionid = c.session_id;
  jobid_source = source_job_id;
  jobid_target = target_job_id;
  target_job_name = target_job_name;
  eresult = none;
}

-- The session id of a received header: the first one is kept. Where a later one differs, the
-- line that should log it reads a field `client_sessionId`, which does not exist.
unfoldable pub note_session : Client → Header → Client × Result WireError (Unit {0})
note_session c h =
    let received = or_default h.client_sessionid no_session in
    if received == no_session then (c, ok tt) else elim c.session_id [
      | none ↦ (record c { session_id = some received }, ok tt)
      | some own ↦ (c, if own == received then ok tt else err attribute_error)
    ]

module _ (k : Codec) where
  -- The bytes that `_send` hands to the socket.
  unfoldable pub send :
      Client → ℕ → Bytes → Option ℕ → Option ℕ → Option Text → Result WireError Bytes
  send c emsg body source_job_id target_job_id target_job_name =
      let header = k.serialize (header_for c source_job_id target_job_id target_job_name) in
      pack_u32 (with_mask emsg) >>= λ first.
      pack_u32 (length header) >>= λ second. ok ((first ++ second) ++ header ++ body)

  -- `_send_service_method_with_name`: a fresh job id, and the message number that fits the login.
  unfoldable pub send_service_method : Client → Bytes → Text → Client × Result WireError Bytes
  unfolding send
  send_service_method c body target_job_name =
      let emsg : ℕ = elim c.confirmed_steam_id [
        | none ↦ EMsg.service_method_call_from_client_non_authed
        | some _ ↦ EMsg.service_method_call_from_client
      ] in
      let c' = record c { next_job_id = c.next_job_id + 1 } in
      (c', send c' emsg body (some c.next_job_id) none (some target_job_name))

  -- The message number and the header of `_process_packet`. A packet of less than 8 bytes is logged
  -- as ignored, and read on all the same. `none` is a packet with an extended header: its number
  -- is looked up in the enum for the log, and it is dropped.
  unfoldable pub read_packet : Bytes → Result WireError (ℕ × Option (Header × Bytes))
  read_packet packet = unpack_u32 (take 4 packet) >>= λ raw_emsg.
      let emsg = raw_emsg % proto_mask in
      if raw_emsg / proto_mask % 2 == 1
      then (unpack_u32 (take 4 (drop 4 packet)) >>= λ header_len.
          or_raise (k.parse (take header_len (drop 8 packet))) decode_error >>= λ header.
          ok (emsg, some (header, drop header_len (drop 8 packet))))
      else ok (emsg, none)
