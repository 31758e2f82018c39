-- ===== src/App.antt =====
-- assetcore/app: the verbs over the ports, and the service that bundles them.
pub mod World
pub mod Verbs
pub mod Queries
pub mod Calls
pub mod Services
