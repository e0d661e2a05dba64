-- ===== src/Config.antt =====
-- The configuration: state/config.go and what core/nylon_apply.go does when it changes.
pub mod Names
pub mod Lines
pub mod Graph
pub mod Endpoints
pub mod Neighbours
pub mod Validation
