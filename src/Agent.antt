-- ===== src/Agent.antt =====
-- agent/services: what an agent does on its host when the hub asks.
pub mod Conversion
pub mod Primaries
pub mod Disk
