-- ===== src/Hub/Session/Works.antt =====
-- A request and what it starts, as a work of a session.
use mathlib.Core.Path.{subst}
use gpupgrade.Base.{arith, String, ◌≡◌, ◌⊎◌, inl, inr, refl, sym, List, [], ◌∷◌}
use gpupgrade.System.{FilePath, ◌/◌, World, Sys, Result, ok, err, run_background}
use gpupgrade.Checklist.Calm.{Exists}
use gpupgrade.Config.Reader.{Reader, get_hostnames}
use gpupgrade.Config.Reader.Keeps.{get_hostnames-Keeps}
use gpupgrade.Cluster.Ssher.{verify_software, start}
use gpupgrade.Cluster.Ssher.Laws.{Spares, ssher}
use gpupgrade.Hub.SaveConfig.{check_config}
use gpupgrade.Hub.Hosts.{on_hosts, check_seginstall, prepare_start_agents}
use gpupgrade.Hub.Hosts.Keeps.{get_hostnames-fs}
use gpupgrade.Hub.Steps.{share_oid_files, start_new_cluster, upgrade_reconfigure_ports}
use gpupgrade.Hub.Session.{
  Step, checking, installing, starting_agents, sharing, validating, reconfiguring, dir_name,
  Setting, Serves, checks_config, checks_seginstall, starts_agents, shares_oids, validates,
  reconfigures, resting, launched, Apart, Work,
}
use gpupgrade.Hub.Session.Bodies.{
  Spared-Apart, verify_software-Work, start-Work, start_new_cluster-Work, reconfigure_ports-Work,
  check_config-Work, share_oid_files-Work,
}

-- The reader names no host.
abbrev NoHosts : Setting → Reader → World → Type 0
NoHosts h r v =
    (hosts : List String) → (get_hostnames h.json h.order r v).0.0 ≡ ok hosts → hosts ≡ []

-- The requests that start nothing.
abbrev pub StartsNone : {h : Setting} {v : World} (s : Step) (u : World) → Serves h v s u → Type 0
StartsNone {h} {v} installing u (checks_seginstall r) = NoHosts h r v
StartsNone {h} {v} starting_agents u (starts_agents pinged r) = NoHosts h r v
StartsNone s u other = ⊥

module _ (h : Setting) (spares : (t : Step) → Spares h.exec (h.base / dir_name t)) where
  abbrev d : Step → FilePath
  d t = h.base / dir_name t

  -- The world in which the reader has been asked.
  abbrev asked : Reader → World → World
  asked r v = (get_hostnames h.json h.order r v).1

  asked-Apart : (r : Reader) (v : World) → v.faults ≡ [] → Apart h.base v (asked r v)
  asked-Apart r v calm =
      Spared-Apart h.base (get_hostnames h.json h.order r) v calm
        (λ t. get_hostnames-Keeps (d t) h.json h.order r)

  -- What a request does to the steps: nothing, or, once it has done something else, one whole work.
  abbrev pub Worked : Type 0 → Step → World → World → Type 0
  Worked starts_none s v u =
      (x : World) × Apart h.base v x
      × ((starts_none × (u ≡ x)) ⊎ Work h.base s launched x resting u)

  on_hosts-Worked :
      (s : Step) (found : Result (List String)) (work : List String → Sys (Unit {0})) (v x : World)
      → Apart h.base v x
      → ((hosts : List String) → Work h.base s launched x resting (work hosts x).1)
      → Worked
          ((hosts : List String) → found ≡ ok hosts → hosts ≡ [])
          s
          v
          (run_background (on_hosts found work).1 x).1
  unfolding on_hosts
  on_hosts-Worked s (err e) work v x a whole =
      (x, a, inl ((λ hosts k. absurd (ground arith)), refl))
  on_hosts-Worked s (ok []) work v x a whole = (x, a, inl ((λ hosts k. ground arith), refl))
  on_hosts-Worked s (ok (host ∷ hosts)) work v x a whole = (x, a, inr (whole (host ∷ hosts)))

  at_once :
      (s : Step) (v u : World) → v.faults ≡ [] → Work h.base s launched v resting u → Worked ⊥ s v u
  at_once s v u calm work = (v, record { calm = calm; same = λ t. refl }, inr work)

  -- If no file operation fails, the state directory is in its place and the commands leave the
  -- directories of the six steps alone, then a request for a step, with what it starts in the background,
  -- touches the directories of the steps by one whole work of that step, from its launch to its rest. Only
  -- `CheckSeginstall` and `PrepareStartAgents` may start none, and then the reader names no host.
  pub Serves-Work :
      (s : Step) (v u : World)
      → v.faults ≡ []
      → Exists h.base v.fs
      → (served : Serves h v s u)
      → (x : World) × Apart h.base v x
        × ((StartsNone s u served × (u ≡ x)) ⊎ Work h.base s launched x resting u)
  unfolding check_seginstall prepare_start_agents
  Serves-Work checking v u calm there (checks_config port bin) =
      at_once checking v (check_config h.json h.db h.env h.base port bin v).1 calm
        (check_config-Work h spares v calm there port bin)
  Serves-Work installing v u calm there (checks_seginstall r) =
      let x = asked r v in
      let a = asked-Apart r v calm in
      on_hosts-Worked installing (get_hostnames h.json h.order r v).0.0
        (verify_software h.exec (ssher h.base h.gphome)) v x a
        (verify_software-Work h spares x a.calm
          (subst (Exists h.base) (sym (get_hostnames-fs h.json h.order r v)) there))
  Serves-Work starting_agents v u calm there (starts_agents pinged r) =
      let x = asked r v in
      let a = asked-Apart r v calm in
      on_hosts-Worked starting_agents (get_hostnames h.json h.order r v).0.0
        (λ hosts. start h.exec (ssher h.base h.gphome) hosts pinged) v x a
        (λ hosts.
          start-Work h spares x a.calm
            (subst (Exists h.base) (sym (get_hostnames-fs h.json h.order r v)) there) hosts pinged)
  Serves-Work sharing v u calm there (shares_oids r) =
      at_once sharing v (share_oid_files h.exec h.json h.order h.base r v).1 calm
        (share_oid_files-Work h spares v calm there r)
  Serves-Work validating v u calm there (validates new_bin_dir new_data_dir) =
      at_once validating v
        (start_new_cluster h.exec h.pythonpath h.base new_bin_dir new_data_dir v).1 calm
        (start_new_cluster-Work h spares v calm there new_bin_dir new_data_dir)
  Serves-Work reconfiguring v u calm there (reconfigures cp) =
      at_once reconfiguring v (upgrade_reconfigure_ports h.exec h.base cp v).1 calm
        (reconfigure_ports-Work h spares v calm there cp)
