-- ===== src/Router.antt =====
-- The routing protocol: core/router_algo.go, core/router.go, core/router_utils.go, core/utils.go
-- and state/routing.go.
pub mod Metric
pub mod State
pub mod Feasibility
pub mod Selection
pub mod Compute
pub mod Handlers
pub mod Messages
pub mod Pending
pub mod Flush
pub mod Maintenance
pub mod Run
