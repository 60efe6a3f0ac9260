-- ===== src/Wire/Receive/Bundles.antt =====
-- A bundle is received as its packets, one after the other.
use galaxy_integration_steam.Prelude.{
  ℕ, suc, ◌<◌, ◌≡◌, List, ◌++◌, arith, none, some, length, length-append,
}
use galaxy_integration_steam.Wire.Bytes.{Bytes}
use galaxy_integration_steam.Wire.EMsg
use galaxy_integration_steam.Wire.Packet.{Header, Client, proto_mask, note_session}
use galaxy_integration_steam.Wire.Packet.Laws.{packet_bytes, read_packet-packet_bytes}
use galaxy_integration_steam.Wire.Multi.{join, frames-join}
use galaxy_integration_steam.Wire.Receive.Defs.{
  Receiver, Action, process_message, process_packet, process_all, process_multi,
}

module _ {S : Type 0} (r : Receiver S) where
  -- A packet whose header has no session id goes to its handler once, with its body.
  pub process_packet-packet_bytes :
      (bundle : Bytes → Action S) (emsg : ℕ) (h : Header) (body : Bytes) (st : Client × S)
      → emsg < proto_mask
      → h.client_sessionid ≡ none
      → process_packet r bundle (packet_bytes r.codec emsg h body) st
        ≡ process_message r bundle emsg h body st
  unfolding process_packet note_session
  process_packet-packet_bytes bundle emsg h body (c, s) small unset =
      rw (read_packet-packet_bytes r.codec emsg h body small) (simp unset)

  pub process_multi-join :
      (depth : ℕ) (fs : List Bytes) (tail body : Bytes) (st : Client × S)
      → length tail < 4
      → r.parse_multi body ≡ some (0, join fs ++ tail)
      → process_multi r (suc depth) body st ≡ process_all r (process_multi r depth) fs st
  unfolding process_multi
  process_multi-join depth fs tail body st short parsed = rw parsed (
      rw (
        frames-join (suc (length (join fs ++ tail))) fs tail
          (omega (arith, length-append (join fs) tail)) short))

  -- Receiving an uncompressed bundle, whose own header has no session id, is receiving its packets in
  -- order, with the same effects and the same exception: for any handlers, any packets (bundles among
  -- them, and with session ids in their headers), and up to three bytes behind the last one.
  pub bundle_transparent :
      (depth : ℕ) (h : Header) (fs : List Bytes) (tail body : Bytes) (st : Client × S)
      → h.client_sessionid ≡ none
      → length tail < 4
      → r.parse_multi body ≡ some (0, join fs ++ tail)
      → process_packet r (process_multi r (suc depth)) (packet_bytes r.codec EMsg.multi h body) st
        ≡ process_all r (process_multi r depth) fs st
  unfolding process_message EMsg.is_member
  bundle_transparent depth h fs tail body st unset short parsed =
      rw
        (process_packet-packet_bytes (process_multi r (suc depth)) EMsg.multi h body st
          (omega arith) unset)
        (process_multi-join depth fs tail body st short parsed)
