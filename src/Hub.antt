-- ===== src/Hub.antt =====
-- hub/services and db: what the hub does on each request.
pub mod Database
pub mod SaveConfig
pub mod Steps
pub mod Convert
pub mod Agents
pub mod NewHub
pub mod StatusUpgrade
pub mod Session
pub mod Checks
pub mod Hosts
