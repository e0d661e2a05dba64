-- ===== src/Endpoint.antt =====
-- Links to a neighbour: state/endpoint.go.
pub mod Filter
pub mod Link
pub mod Cost
