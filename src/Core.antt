-- ===== src/Core.antt =====
-- assetcore/core: the domain, with no storage behind it. `Types` and `Entities` are the data,
-- `Rules` the decisions, `Closure` the graph walk and `Ports` what a backend implements.
pub mod Types
pub mod Entities
pub mod Rules
pub mod Closure
pub mod Ports
