-- ===== src/Service.antt =====
-- assetcore/service: the central service: its wire models, who may call it, its endpoints, and the
-- stream of its events.
pub mod Events
pub mod Schemas
pub mod Auth
pub mod Routes
