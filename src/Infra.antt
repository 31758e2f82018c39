-- ===== src/Infra.antt =====
-- assetcore/infra: the backends of the ports.
pub mod InMemory
pub mod Broadcast
pub mod Sqlite
