-- ===== src/Hub/SaveConfig/Laws.antt =====
-- hub/services/hub_check_config.go: the state directory after `CheckConfig`.
use gpupgrade.Base.{
  String, ℤ, false, ◌≡◌, refl, ap, Option, none, some, List, [], string_eq, list_eq, text_ne,
}
use gpupgrade.System.{
  FilePath, ◌/◌, is_within, Error, database_connection, Result, ok, err, World, Sys, open_create,
  write_text,
}
use gpupgrade.System.PathLaws.{is_within_self, siblings_apart}
use gpupgrade.System.Keeps.{Keeps, Keeps-pure, Keeps-bind, Keeps-open_create, Keeps-write_text}
use gpupgrade.Idl.{StepStatus, check_config as check_config_step, complete, failed}
use gpupgrade.Config.Segment.{Segment, Codec, get_config_file_path}
use gpupgrade.Checklist.Lifecycle.{Phase, Shows, started, done, failed as gave_up}
use gpupgrade.Checklist.Calm.{Exists, begun, begun-Gives, fail-Gives, finish-Gives, Shows-subtree}
use gpupgrade.Status.StateCheck.{StateCheck, get_status, reply}
use gpupgrade.Status.StateCheck.Laws.{get_status-Shows}
use gpupgrade.Hub.Database.{Env, DbConn, Database}
use gpupgrade.Hub.SaveConfig.{
  if_opened, reported, written, save_query_result_to_json, save_segments, save_old_cluster_config,
  check_config, connected, conclude, config_query,
}

Keeps-if_opened :
    (d : FilePath) (message : String) (opened : Option Error) (rest : Sys (Option Error))
    → Keeps d rest
    → Keeps d (if_opened message opened rest)
Keeps-if_opened d message none rest k = k
Keeps-if_opened d message (some e) rest k = Keeps-pure d _

module _ (json : Codec) (db : Database) (d : FilePath) where
  written-Keeps : (p : FilePath) (r : Result String) → is_within d p ≡ false → Keeps d (written r p)
  unfolding written
  written-Keeps p (err e) apart = Keeps-pure d _
  written-Keeps p (ok text) apart =
      Keeps-bind d (write_text p text) _ (Keeps-write_text d p text apart)
        (λ e. Keeps-pure d (reported "Unable to write query results to file." e))

  save_segments-Keeps :
      (r : Result (List Segment)) (p : FilePath) (bin : String)
      → is_within d p ≡ false
      → Keeps d (save_segments json db r p bin)
  unfolding save_segments save_query_result_to_json
  save_segments-Keeps (err e) p bin apart = Keeps-pure d _
  save_segments-Keeps (ok segments) p bin apart = written-Keeps p _ apart

  -- Saving the configuration touches nothing outside its own file.
  pub save_old-Keeps :
      (conn : DbConn) (base : FilePath) (bin : String)
      → is_within d (get_config_file_path base) ≡ false
      → Keeps d (save_old_cluster_config json db conn base bin)
  unfolding save_old_cluster_config
  save_old-Keeps conn base bin apart =
      let p = get_config_file_path base in
      let found = db.select_segments conn (config_query json db conn) in
      Keeps-bind d (open_create p) _ (Keeps-open_create d p apart) λ opened.
        Keeps-if_opened d "Unable to write to config file." opened
          (save_segments json db found p bin) (save_segments-Keeps found p bin apart)

abbrev pub result_status {ℓ} : {A : Type ℓ} → Result A → StepStatus
result_status (ok a) = complete
result_status (err e) = failed

abbrev step_check : FilePath → StateCheck
step_check base = record { path = base / "check-config"; step = check_config_step }

abbrev pub result_phase {ℓ} : {A : Type ℓ} → Result A → Phase
result_phase (ok a) = done
result_phase (err e) = gave_up

-- The directory of the step shows the outcome.
abbrev pub Concluded : FilePath → Result String × World → Type 0
Concluded base r = (r.1.faults ≡ []) × Shows (base / "check-config") (result_phase r.0) r.1.fs

Concluded-status :
    (base : FilePath) (r : Result String × World)
    → Concluded base r
    → (get_status (step_check base) r.1).0 ≡ reply check_config_step (result_status r.0)
Concluded-status base (ok text, w) (quiet, k) =
    ap (λ x. x.0) (get_status-Shows (step_check base) done w quiet k)
Concluded-status base (err e, w) (quiet, k) =
    ap (λ x. x.0) (get_status-Shows (step_check base) gave_up w quiet k)

conclude-Concluded :
    (json : Codec) (db : Database) (base : FilePath) (e : Option Error) (w : World)
    → w.faults ≡ []
    → Shows (base / "check-config") started w.fs
    → Concluded base (conclude json db base e w)
unfolding conclude
conclude-Concluded json db base none w calm h =
    let (e, quiet, k) = finish-Gives base "check-config" w calm h in (quiet, k)
conclude-Concluded json db base (some e) w calm h =
    let (_, quiet, k) = fail-Gives base "check-config" w calm h in (quiet, k)

connected-Concluded :
    (json : Codec) (db : Database) (env : Env) (base : FilePath) (port : ℤ) (bin : String)
    (e : Option Error) (w : World)
    → w.faults ≡ []
    → Shows (base / "check-config") started w.fs
    → Concluded base (connected json db env base port bin e w)
unfolding connected
connected-Concluded json db env base port bin (some e) w calm h =
    conclude-Concluded json db base (some (database_connection e)) w calm h
connected-Concluded json db env base port bin none w calm h =
    let d = base / "check-config" in
    let apart : is_within d (get_config_file_path base) ≡ false =
      siblings_apart base "cluster_config.json" "check-config" (get_config_file_path base)
        (text_ne _ _ refl) (is_within_self (get_config_file_path base)) in
    let keeps = save_old-Keeps json db d _ base bin apart in
    conclude-Concluded json db base _ _ (keeps.calm w calm)
      (Shows-subtree d started w.fs _ (keeps.kept w) h)

pub check_config-Concluded :
    (json : Codec) (db : Database) (env : Env) (base : FilePath) (port : ℤ) (bin : String)
    (w : World)
    → w.faults ≡ []
    → Exists base w.fs
    → Concluded base (check_config json db env base port bin w)
unfolding check_config
check_config-Concluded json db env base port bin w calm there =
    let (e, quiet, h) = begun-Gives base "check-config" w calm there in
    connected-Concluded json db env base port bin _ (begun base "check-config" w) quiet h

-- If no file operation fails and the state directory exists, then after `CheckConfig` its step is
-- complete if the reply is a success, and failed if it is an error.
pub check_config-status :
    (json : Codec) (db : Database) (env : Env) (base : FilePath) (port : ℤ) (bin : String)
    (w : World)
    → w.faults ≡ []
    → Exists base w.fs
    → let (r, w') = check_config json db env base port bin w in
      (get_status (step_check base) w').0 ≡ reply check_config_step (result_status r)
check_config-status json db env base port bin w calm there =
    Concluded-status base (check_config json db env base port bin w)
      (check_config-Concluded json db env base port bin w calm there)
