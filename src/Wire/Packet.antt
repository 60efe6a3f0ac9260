-- ===== src/Wire/Packet.antt =====
-- One packet of protobuf_client.py: what `ProtobufClient._send` puts on the wire and what
-- `_process_packet` takes off it.
mod Defs
pub mod Laws
pub use Defs.{Header, Codec, Client, Message, proto_mask, account_id_mask, no_session}
unfoldable pub use Defs.{header_for, send, send_service_method, read_packet, note_session}
