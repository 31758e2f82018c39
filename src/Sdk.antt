-- ===== src/Sdk.antt =====
-- assetcore/sdk: what runs beside a tool.
pub mod Outbox
pub mod Listing
pub mod Tools
pub mod Replica
pub mod LocalReader
