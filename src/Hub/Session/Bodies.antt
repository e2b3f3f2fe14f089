-- ===== src/Hub/Session/Bodies.antt =====
-- The code of each of the six steps, as a whole work of a session.
use mathlib.Core.Path.{subst}
use gpupgrade.Base.{
  String, ℤ, Bool, true, false, ◌≡◌, ◌≢◌, refl, sym, ◌∙◌, ap, Option, none, some, List, [], ◌∷◌,
  text_ne,
}
use gpupgrade.System.{pure, FilePath, ◌/◌, Error, World, Sys, run_command, database_connection}
use gpupgrade.System.PathLaws.{is_within_self, siblings_apart}
use gpupgrade.System.Keeps.{Keeps, Keeps-pure, Keeps-run_command}
use gpupgrade.Checklist.{new_checklist_manager}
use gpupgrade.Checklist.Lifecycle.{Shows, started, perform}
use gpupgrade.Checklist.Calm.{Shows-subtree, Exists, begun, begun-Gives, end_op}
use gpupgrade.Config.Segment.{get_config_file_path}
use gpupgrade.Config.Reader.{Reader, get_hostnames}
use gpupgrade.Config.Reader.Keeps.{get_hostnames-Keeps}
use gpupgrade.Cluster.Pair.{Pair, get_ports_and_data_dir_for_reconfiguration}
use gpupgrade.Cluster.Ssher.{
  is_error, in_gphome, ssh_all, verify_software, start, start_command, handle_status_logging,
}
use gpupgrade.Cluster.Ssher.Laws.{Spares, ssher, remote_exec-ssh_all}
use gpupgrade.Cluster.Ssher.Keeps.{ssh_all-Keeps}
use gpupgrade.Hub.SaveConfig.{
  check_config, connected, conclude, connection, save_old_cluster_config,
}
use gpupgrade.Hub.SaveConfig.Laws.{save_old-Keeps}
use gpupgrade.Hub.Steps.{
  rsync_command, gpstart_command, sed_command, hosts_of, rsync_all, after_rsync, finish_share,
  share_oid_files, start_new_cluster, end_validation, upgrade_reconfigure_ports, end_reconfigure,
}
use gpupgrade.Hub.Steps.Laws.{start_new_cluster-ran, ran}
use gpupgrade.Hub.Steps.ShareOids.{copying as copying_phase, after_rsync-copying}
use gpupgrade.Hub.Session.{
  Step, checking, installing, starting_agents, sharing, validating, reconfiguring, dir_name,
  Setting, Stage, resting, launched, working, failing, Apart, clears, begins, goes_on, fails,
  still_goes_on, fails_again, finishes, gives_up, Work, begun_at, goes,
}
use gpupgrade.Hub.Session.Laws.{not_config_file}

-- What each step's directory keeps over an action.
abbrev pub Spared : {A : Type 0} → FilePath → Sys A → Type 0
Spared base m = (t : Step) → Keeps (base / dir_name t) m

pub Spared-Apart :
    {A : Type 0} (base : FilePath) (m : Sys A) (v : World)
    → v.faults ≡ []
    → Spared base m
    → Apart base v (m v).1
Spared-Apart base m v calm k = record { calm = (k checking).calm v calm; same = λ t. (k t).kept v }

module _ (base : FilePath) (s : Step) (v : World) (calm : v.faults ≡ [])
    (there : Exists base v.fs) where
  abbrev marked : World
  marked = begun base (dir_name s) v

  marked-calm : marked.faults ≡ []
  marked-calm = (begun-Gives base (dir_name s) v calm there).1

  started-Work : Work base s launched v working marked
  started-Work = goes (goes begun_at (clears there)) begins

  -- The step is begun, something else is done, and the outcome is marked.
  whole-Work :
      (b : Bool) (u : World)
      → Apart base marked u
      → Work base s launched v resting (perform base (dir_name s) (end_op b) u).1
  whole-Work true u a = goes (goes (goes started-Work (goes_on u a)) fails) gives_up
  whole-Work false u a = goes (goes started-Work (goes_on u a)) finishes

  -- The same, where something is done by an action.
  action-Work :
      {A : Type 0} (b : Bool) (m : Sys A) (x : World)
      → Spared base m
      → x ≡ (perform base (dir_name s) (end_op b) (m marked).1).1
      → Work base s launched v resting x
  action-Work b m x k e =
      subst (Work base s launched v resting) (sym e)
        (whole-Work b (m marked).1 (Spared-Apart base m marked marked-calm k))

not_empty : (t : Step) → "" ≢ dir_name t
not_empty checking = text_ne _ _ refl
not_empty installing = text_ne _ _ refl
not_empty starting_agents = text_ne _ _ refl
not_empty sharing = text_ne _ _ refl
not_empty validating = text_ne _ _ refl
not_empty reconfiguring = text_ne _ _ refl

handled :
    (base : FilePath) (gphome step : String) (b : Bool) (u : World)
    → (handle_status_logging (ssher base gphome) step b u).1 ≡ (perform base step (end_op b) u).1
unfolding handle_status_logging
handled base gphome step true u = refl
handled base gphome step false u = refl

module _ (h : Setting) (spares : (t : Step) → Spares h.exec (h.base / dir_name t)) where
  abbrev d : Step → FilePath
  d t = h.base / dir_name t

  ssh_all_apart : (hosts command : List String) → Spared h.base (ssh_all h.exec hosts command false)
  ssh_all_apart hosts command t =
      ssh_all-Keeps h.exec h.base h.gphome "" (dir_name t) (spares t) (not_empty t) hosts command
        false

  module _ (v : World) (calm : v.faults ≡ []) (there : Exists h.base v.fs) where
    pub verify_software-Work :
        (hosts : List String)
        → Work h.base installing launched v resting
            (verify_software h.exec (ssher h.base h.gphome) hosts v).1
    unfolding verify_software
    verify_software-Work hosts =
        let command = "ls" ∷ in_gphome h.gphome "bin/gpupgrade_agent" ∷ [] in
        let work = ssh_all h.exec hosts command false in
        action-Work h.base installing v calm there (work (begun h.base "seginstall" v)).0 work _
          (λ t. ssh_all_apart hosts command t)
          (ap (λ r. (handle_status_logging (ssher h.base h.gphome) "seginstall" r.0 r.1).1)
              (remote_exec-ssh_all h.exec h.base h.gphome "seginstall" v calm there
                (spares installing) hosts command)
            ∙ handled h.base h.gphome "seginstall" _ _)

    pub start-Work :
        (hosts : List String) (pinged : Option Error)
        → Work h.base starting_agents launched v resting
            (start h.exec (ssher h.base h.gphome) hosts pinged v).1
    unfolding start
    start-Work hosts pinged =
        let command = start_command h.gphome in
        let work = ssh_all h.exec hosts command false in
        action-Work h.base starting_agents v calm there (is_error pinged) work _
          (λ t. ssh_all_apart hosts command t)
          (ap
              (λ r.
                (handle_status_logging (ssher h.base h.gphome) "start-agents" (is_error pinged)
                  r.1).1)
              (remote_exec-ssh_all h.exec h.base h.gphome "start-agents" v calm there
                (spares starting_agents) hosts command)
            ∙ handled h.base h.gphome "start-agents" _ _)

    validation_ended :
        (e : Option Error) (u : World)
        → (end_validation h.exec (new_checklist_manager h.base) e u).1
          ≡ (perform h.base "validate-start-cluster" (end_op (is_error e)) u).1
    unfolding end_validation
    validation_ended none u = refl
    validation_ended (some e) u = refl

    pub start_new_cluster-Work :
        (new_bin_dir new_data_dir : String)
        → Work h.base validating launched v resting
            (start_new_cluster h.exec h.pythonpath h.base new_bin_dir new_data_dir v).1
    start_new_cluster-Work new_bin_dir new_data_dir =
        let c = gpstart_command h.pythonpath new_bin_dir new_data_dir in
        let r = run_command h.exec c (begun h.base "validate-start-cluster" v) in
        action-Work h.base validating v calm there (is_error r.0.error) (run_command h.exec c) _
          (λ t. Keeps-run_command (d t) h.exec c (λ log fs. spares t log c fs))
          (ap (λ x. x.1)
              (start_new_cluster-ran h.exec h.base h.pythonpath new_bin_dir new_data_dir v calm
                there)
            ∙ validation_ended r.0.error r.1)

    reconfigure_ended :
        (e : Option Error) (u : World)
        → (end_reconfigure h.exec (new_checklist_manager h.base) e u).1
          ≡ (perform h.base "reconfigure-ports" (end_op (is_error e)) u).1
    unfolding end_reconfigure
    reconfigure_ended none u = refl
    reconfigure_ended (some e) u = refl

    pub reconfigure_ports-Work :
        (cp : Pair)
        → Work h.base reconfiguring launched v resting
            (upgrade_reconfigure_ports h.exec h.base cp v).1
    unfolding upgrade_reconfigure_ports
    reconfigure_ports-Work cp =
        let (old_port, new_port, dir) = get_ports_and_data_dir_for_reconfiguration cp in
        let c = sed_command new_port old_port dir in
        let r = run_command h.exec c (begun h.base "reconfigure-ports" v) in
        action-Work h.base reconfiguring v calm there (is_error r.0.error) (run_command h.exec c) _
          (λ t. Keeps-run_command (d t) h.exec c (λ log fs. spares t log c fs))
          (reconfigure_ended r.0.error r.1)

    concluded :
        (e : Option Error) (u : World)
        → (conclude h.json h.db h.base e u).1
          ≡ (perform h.base "check-config" (end_op (is_error e)) u).1
    unfolding conclude
    concluded none u = refl
    concluded (some e) u = refl

    -- From the connection on.
    connected-Work :
        (port : ℤ) (bin : String) (e : Option Error)
        → Work h.base checking launched v resting
            (connected h.json h.db h.env h.base port bin e (begun h.base "check-config" v)).1
    unfolding connected
    connected-Work port bin (some e) =
        action-Work h.base checking v calm there true (pure tt) _ (λ t. Keeps-pure (d t) tt)
          (concluded (some (database_connection e)) (begun h.base "check-config" v))
    connected-Work port bin none =
        let conn = connection h.json h.db h.env port in
        let saving = save_old_cluster_config h.json h.db conn h.base bin in
        let r = saving (begun h.base "check-config" v) in
        let p = get_config_file_path h.base in
        action-Work h.base checking v calm there (is_error r.0) saving _
          (λ t. save_old-Keeps h.json h.db (d t) conn h.base bin (
            siblings_apart h.base "cluster_config.json" (dir_name t) p (not_config_file t)
              (is_within_self p)))
          (concluded r.0 r.1)

    pub check_config-Work :
        (port : ℤ) (bin : String)
        → Work h.base checking launched v resting
            (check_config h.json h.db h.env h.base port bin v).1
    unfolding check_config
    check_config-Work port bin =
        connected-Work port bin (h.db.connect (connection h.json h.db h.env port))

    -- The stage while `rsync` runs over the hosts.
    abbrev copying : Bool → Stage
    copying true = failing
    copying false = working

    goes_on_copying :
        (b : Bool) (x u : World)
        → Apart h.base x u
        → Work h.base sharing launched v (copying b) x
        → Work h.base sharing launched v (copying b) u
    goes_on_copying true x u a before = goes before (still_goes_on u a)
    goes_on_copying false x u a before = goes before (goes_on u a)

    after_rsync-Work :
        (e : Option Error) (b : Bool) (x : World)
        → Work h.base sharing launched v (copying b) x
        → let r = after_rsync h.exec (new_checklist_manager h.base) e b x in
          Work h.base sharing launched v (copying r.0) r.1
    unfolding after_rsync
    after_rsync-Work none b x before = before
    after_rsync-Work (some e) true x before = goes before fails_again
    after_rsync-Work (some e) false x before = goes before fails

    rsync_all-Work :
        (hosts : List String) (b : Bool) (x : World)
        → x.faults ≡ []
        → Shows (h.base / "share-oids") (copying_phase h.exec h.base b) x.fs
        → Work h.base sharing launched v (copying b) x
        → let r = rsync_all h.exec h.base hosts b x in
          Work h.base sharing launched v (copying r.0) r.1
    unfolding rsync_all
    rsync_all-Work [] b x quiet shown before = before
    rsync_all-Work (host ∷ hosts) b x quiet shown before =
        let c = rsync_command h.base host in
        let r = run_command h.exec c x in
        let a =
          Spared-Apart h.base (run_command h.exec c) x quiet
            (λ t. Keeps-run_command (d t) h.exec c (λ log fs. spares t log c fs)) in
        let s = after_rsync h.exec (new_checklist_manager h.base) r.0.error b r.1 in
        let (_, still, after) = after_rsync-copying h.exec h.base r.0.error b r.1 a.calm (
          ran h.exec h.base "share-oids" c (copying_phase h.exec h.base b) x (spares sharing)
            shown) in
        rsync_all-Work hosts s.0 s.1 still after
          (after_rsync-Work r.0.error b r.1 (goes_on_copying b x r.1 a before))

    finish_share-Work :
        (b : Bool) (x : World)
        → Work h.base sharing launched v (copying b) x
        → Work h.base sharing launched v resting
            (finish_share h.exec (new_checklist_manager h.base) b x).1
    unfolding finish_share
    finish_share-Work true x before = goes before gives_up
    finish_share-Work false x before = goes before finishes

    pub share_oid_files-Work :
        (r : Reader)
        → Work h.base sharing launched v resting
            (share_oid_files h.exec h.json h.order h.base r v).1
    unfolding share_oid_files
    share_oid_files-Work r =
        let m = begun h.base "share-oids" v in
        let a =
          Spared-Apart h.base (get_hostnames h.json h.order r) m
            (marked-calm h.base sharing v calm there)
            (λ t. get_hostnames-Keeps (d t) h.json h.order r) in
        let found = get_hostnames h.json h.order r m in
        let copied =
          rsync_all-Work (hosts_of found.0.0) false found.1 a.calm
            (Shows-subtree (h.base / "share-oids") started m.fs found.1.fs (a.same sharing)
              (begun-Gives h.base "share-oids" v calm there).2)
            (goes (started-Work h.base sharing v calm there) (goes_on found.1 a)) in
        let all = rsync_all h.exec h.base (hosts_of found.0.0) false found.1 in
        finish_share-Work all.0 all.1 copied
