-- ===== src/Status/ConvertMaster/Known.antt =====
-- hub/upgradestatus/pg_upgrade_status_checker.go: the replies of `GetStatus`.
use gpupgrade.Base.{◌≡◌, refl, Bool-cases, inl, inr, arith}
use gpupgrade.System.{stat, World, Execer}
use gpupgrade.Idl.{StepStatus, masterupgrade, pending, running}
use gpupgrade.Status.StateCheck.{reply}
use gpupgrade.Status.ConvertMaster.{
  ConvertMaster, is_not_exist, pg_upgrade_running, finished_status, get_status,
}

module _ (exec : Execer) (c : ConvertMaster) where
  finished_status-known :
      (w : World)
      → (status : StepStatus) × ((finished_status exec c w).0 ≡ reply masterupgrade status)
  unfolding finished_status
  finished_status-known w = (_, refl)

  -- Whatever the files and the commands say, and whichever file operation fails, there is a status and
  -- no error.
  pub get_status-known :
      (w : World) → (status : StepStatus) × ((get_status exec c w).0 ≡ reply masterupgrade status)
  unfolding get_status
  get_status-known w =
      let found = stat c.pg_upgrade_path w in
      let is_running = pg_upgrade_running exec c found.1 in
      elim (Bool-cases (is_not_exist found.0)) [
        | inl missing ↦ (pending, ground arith)
        | inr there ↦ elim (Bool-cases is_running.0) [
          | inl busy ↦ (running, ground arith)
          | inr idle ↦
              let (status, e) = finished_status-known is_running.1 in (status, ground arith)
        ]
      ]
