-- ===== src/Wire/Receive.antt =====
-- Receiving: `_process_packet`, `_process_message`, `_process_multi` and the choice made by
-- `_process_service_method_response` of protobuf_client.py.
mod Defs
pub mod Bundles
pub mod Faults
pub use Defs.{Route, Receiver, Action, done, raise}
unfoldable pub use Defs.{
  route, service, process_message, process_packet, process_all, process_multi,
}
