-- ===== src/Games/Import.antt =====
-- The import of licenses: `_process_license_list` and `_process_product_info_response` of
-- src/steam_network/protocol/protobuf_client.py, with the handlers of
-- src/steam_network/protocol_client.py that they call.
pub mod Defs
pub mod Licenses
pub mod Packages
pub use Defs.{LicenseMessage, PackageInfo, AppInfo}
unfoldable pub use Defs.{
  process_license_list, license_import_handler, handle_package, handle_app, product_info,
}
