-- ===== src/Status.antt =====
-- hub/upgradestatus: how the status of a step is read back from files and processes. `StateCheck` is
-- for the steps that a checklist tracks, `ConvertMaster` for pg_upgrade, `ShutDown` for gpstop.
pub mod StateCheck
pub mod DoneFile
pub mod ConvertMaster
pub mod ShutDown
