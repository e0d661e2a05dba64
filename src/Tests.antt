-- ===== src/Tests.antt =====
-- Concrete inputs.
mod Network
mod Router
mod Endpoint
mod Filter
mod Future
mod NodeIds
mod Tables
mod Config
mod Unicast
mod Messages
mod Maintenance
