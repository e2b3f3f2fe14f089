-- ===== src/Hub/Hosts/Keeps.antt =====
-- hub/services/hub_check_seginstall.go and hub_prepare_startagents.go: the files around the two handlers
-- and what they start.
use gpupgrade.Base.{String, ◌≡◌, ◌≢◌, refl, sym, ◌∙◌, Option, List, [], ◌∷◌}
use gpupgrade.System.{FilePath, ◌/◌, Error, Result, ok, err, World, Sys, Execer, run_background}
use gpupgrade.System.FilesLaws.{subtree, subtree_root}
use gpupgrade.System.Keeps.{Keeps}
use gpupgrade.Config.Segment.{Codec, MapOrder}
use gpupgrade.Config.Reader.{Reader, get_hostnames}
use gpupgrade.Config.Reader.Keeps.{get_hostnames-Keeps}
use gpupgrade.Cluster.Ssher.{verify_software, start}
use gpupgrade.Cluster.Ssher.Laws.{Spares, ssher}
use gpupgrade.Cluster.Ssher.Keeps.{verify_software-Keeps, start-Keeps}
use gpupgrade.Hub.Hosts.{on_hosts, check_seginstall, prepare_start_agents, background_ended}

on_hosts-kept :
    (d : FilePath) (r : Result (List String)) (work : List String → Sys (Unit {0})) (v : World)
    → ((hosts : List String) → Keeps d (work hosts))
    → subtree d (run_background (on_hosts r work).1 v).1.fs ≡ subtree d v.fs
unfolding on_hosts
on_hosts-kept d (err e) work v k = refl
on_hosts-kept d (ok []) work v k = refl
on_hosts-kept d (ok (h ∷ hosts)) work v k = (k (h ∷ hosts)).kept v

module _ (json : Codec) (order : MapOrder) (r : Reader) (v : World) where
  -- Asking the reader changes no file.
  pub get_hostnames-fs : (get_hostnames json order r v).1.fs ≡ v.fs
  get_hostnames-fs =
      sym (subtree_root (get_hostnames json order r v).1.fs)
      ∙ (get_hostnames-Keeps [] json order r).kept v
      ∙ subtree_root v.fs

module _ (exec : Execer) (json : Codec) (order : MapOrder) (base : FilePath) (gphome : String)
    (r : Reader) (other : String) (spares : Spares exec (base / other)) (v : World) where
  pub check_seginstall-kept :
      "seginstall" ≢ other
      → subtree
          (base / other)
          (background_ended (check_seginstall exec json order (ssher base gphome) r v)).fs
        ≡ subtree (base / other) v.fs
  unfolding check_seginstall
  check_seginstall-kept apart =
      let d = base / other in
      let asked = get_hostnames json order r v in
      on_hosts-kept d asked.0.0 (verify_software exec (ssher base gphome)) asked.1
        (λ hosts. verify_software-Keeps exec base gphome other spares hosts apart)
      ∙ (get_hostnames-Keeps d json order r).kept v

  pub prepare_start_agents-kept :
      (pinged : Option Error)
      → "start-agents" ≢ other
      → subtree
          (base / other)
          (background_ended
            (prepare_start_agents exec json order (ssher base gphome) pinged r v)).fs
        ≡ subtree (base / other) v.fs
  unfolding prepare_start_agents
  prepare_start_agents-kept pinged apart =
      let d = base / other in
      let asked = get_hostnames json order r v in
      on_hosts-kept d asked.0.0 (λ hosts. start exec (ssher base gphome) hosts pinged) asked.1
        (λ hosts. start-Keeps exec base gphome other spares hosts pinged apart)
      ∙ (get_hostnames-Keeps d json order r).kept v
