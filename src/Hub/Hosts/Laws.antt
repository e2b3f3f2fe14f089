-- ===== src/Hub/Hosts/Laws.antt =====
-- hub/services/hub_check_seginstall.go: the handler with and without hosts.
use gpupgrade.Base.{String, ◌≡◌, refl, ◌⊎◌, none, some, List, [], ◌∷◌, arith, inl, inr}
use gpupgrade.System.{Result, ok, err, World, Execer, Sys}
use gpupgrade.Config.Segment.{Codec, MapOrder}
use gpupgrade.Config.Reader.{Reader, get_hostnames}
use gpupgrade.Cluster.Ssher.{ClusterSsher, verify_software}
use gpupgrade.Hub.Hosts.{no_config, on_hosts, check_seginstall}

on_hosts-cases :
    (r : Result (List String)) (work : List String → Sys (Unit {0}))
    → ((h : String) × (hosts : List String) × (r ≡ ok (h ∷ hosts))
        × (on_hosts r work ≡ (none, some (work (h ∷ hosts)))))
      ⊎ ((on_hosts r work ≡ (some no_config, none))
          × ((hosts : List String) → r ≡ ok hosts → hosts ≡ []))
unfolding on_hosts
on_hosts-cases (err e) work = inr (refl, λ hosts h. absurd (ground arith))
on_hosts-cases (ok []) work = inr (refl, λ hosts h. ground arith)
on_hosts-cases (ok (h ∷ hosts)) work = inl (h, hosts, refl, refl)

-- `CheckSeginstall` itself only asks the reader. It either has no error, and has then started
-- `VerifySoftware` on the hosts that the reader names, of which there is one at least; or it has the error
-- of a missing configuration, and has then started nothing, and the reader names no host.
check_seginstall-hosts :
    (exec : Execer) (json : Codec) (order : MapOrder) (ssher : ClusterSsher) (r : Reader)
    (w : World)
    → let asked = get_hostnames json order r w in
      let done = check_seginstall exec json order ssher r w in
      (done.1 ≡ asked.1)
      × (((h : String) × (hosts : List String) × (asked.0.0 ≡ ok (h ∷ hosts))
            × (done.0.0 ≡ (none, some (verify_software exec ssher (h ∷ hosts)))))
          ⊎ ((done.0.0 ≡ (some no_config, none))
              × ((hosts : List String) → asked.0.0 ≡ ok hosts → hosts ≡ [])))
unfolding check_seginstall
check_seginstall-hosts exec json order ssher r w =
    (refl, on_hosts-cases (get_hostnames json order r w).0.0 (verify_software exec ssher))
