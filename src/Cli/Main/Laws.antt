-- ===== src/Cli/Main/Laws.antt =====
-- A whole run of gpupgrade: what it asks of the hub, its exit code, and where its arguments come from.
use gpupgrade.Base.{
  String, ◌<>◌, ℤ, pos, negsuc, int32, ◌≡◌, ◌↔◌, ◌∙◌, ap, refl, Option, none, some, List, [], ◌∷◌,
  ◌++◌, ◌<◌, string_eq, arith,
}
use gpupgrade.Cli.Session.{
  Request, check_config_request, check_object_count_request, check_version_request,
  prepare_init_cluster_request, Machine, Console,
}
use gpupgrade.Cli.Flags.{
  Command, version, sub_start_hub, sub_init_cluster, sub_shutdown_clusters, sub_start_agents,
  sub_init, sub_upgrade, sub_conversion, sub_version, sub_object_count, sub_disk_space, sub_config,
  sub_seginstall, sub_convert_master, sub_convert_primaries, sub_share_oids,
  sub_validate_start_cluster, sub_reconfigure_ports, IntVar, db_port, new_cluster_db_port, Vars,
}
use gpupgrade.Cli.Setup.{declared}
use gpupgrade.Cli.Commands.{Ending, exited, returned, run}
use gpupgrade.Cli.Commands.Calls.{accepted}
use gpupgrade.Cli.Commands.Laws.{plan, code, exit_code, asked_by, succeeds_by, run-Ends}
use gpupgrade.Cli.Main.{runs, Cobra, hub_port, ended, main}

ended_lem :
    (e : Ending) (k : Console)
    → ((ended e k).0 ≡ code e) × ((ended e k).1.asked ≡ k.asked) × ((ended e k).1.world ≡ k.world)
ended_lem (exited n) k = (refl, refl, refl)
ended_lem (returned none) k = (refl, refl, refl)
ended_lem (returned (some e)) k = (refl, refl, refl)

-- Let cobra choose a command other than `version`, `prepare start-hub` and `prepare init`. Where the
-- dial of the hub fails, nothing is asked and the exit code is 1. Else exactly one request is made, the
-- one that `plan` gives for the command and its variables, and the exit code is 0 if its answer is
-- accepted and 1 if not: `prepare shutdown-clusters` accepts every answer, `status upgrade` and
-- `status conversion` a list that is not empty, the others each that is not an error. No file changes.
pub main-asks :
    (cobra : Cobra) (m : Machine) (arg : String) (args : List String) (c : Command)
    (given : List String) (vars : Vars) (q : Request) (k : Console)
    → cobra.parse declared (arg ∷ args) ≡ runs c given vars
    → plan c vars ≡ some q
    → let d = m.dial ("localhost:" <> hub_port m) in
      let r = main cobra m (arg ∷ args) k in
      (r.0 ≡ exit_code (succeeds_by d (accepted q (m.call k.asked q))))
      × (r.1.asked ≡ k.asked ++ asked_by d q)
      × (r.1.world ≡ k.world)
unfolding main
main-asks cobra m arg args c given vars q k chosen planned =
    let (a, b, w) = run-Ends m (hub_port m) vars c q planned k in
    let e = run m (hub_port m) vars c k in
    let (a', b', w') = ended_lem e.0 e.1 in rw chosen (a' ∙ a, b' ∙ b, w' ∙ w)

-- The numbers that an `int32` holds.
abbrev pub IsInt32 : ℤ → Type 0
IsInt32 (pos n) = n < 2147483648
IsInt32 (negsuc n) = n < 2147483648

int32_fixed : (z : ℤ) → IsInt32 (int32 z) × (IsInt32 z ↔ (int32 z ≡ z))
unfolding int32
int32_fixed (pos n) = ground arith
int32_fixed (negsuc n) = ground arith

-- The variable that a command with a port reads it from.
abbrev pub port_var : Command → Option IntVar
port_var sub_init_cluster = some new_cluster_db_port
port_var sub_version = some db_port
port_var sub_object_count = some db_port
port_var sub_config = some db_port
port_var other = none

abbrev pub port_in : Request → Option ℤ
port_in (prepare_init_cluster_request port dir) = some port
port_in (check_version_request host port) = some port
port_in (check_object_count_request port) = some port
port_in (check_config_request port dir) = some port
port_in other = none

plan-port :
    (c : Command) (v : Vars) (x : IntVar)
    → port_var c ≡ some x
    → (q : Request) × (plan c v ≡ some q) × (port_in q ≡ some (int32 (v.int x)))
plan-port sub_init_cluster v x e = (_, refl, cc)
plan-port sub_version v x e = (_, refl, cc)
plan-port sub_object_count v x e = (_, refl, cc)
plan-port sub_config v x e = (_, refl, cc)
plan-port version v x e = cc
plan-port sub_start_hub v x e = cc
plan-port sub_start_agents v x e = cc
plan-port sub_init v x e = cc
plan-port sub_upgrade v x e = cc
plan-port sub_conversion v x e = cc
plan-port sub_disk_space v x e = cc
plan-port sub_seginstall v x e = cc
plan-port sub_shutdown_clusters v x e = cc
plan-port sub_convert_master v x e = cc
plan-port sub_convert_primaries v x e = cc
plan-port sub_share_oids v x e = cc
plan-port sub_validate_start_cluster v x e = cc
plan-port sub_reconfigure_ports v x e = cc

-- A command with a port (`check version`, `check object-count`, `check config` and
-- `prepare init-cluster`) asks the hub, once it is dialled, with a port that an int32 holds; and this
-- port is the number in the command's variable exactly if an int32 holds that number.
pub run-port :
    (m : Machine) (port : String) (v : Vars) (c : Command) (x : IntVar) (k : Console)
    → port_var c ≡ some x
    → m.dial ("localhost:" <> port) ≡ none
    → (q : Request) × (p : ℤ) × ((run m port v c k).1.asked ≡ k.asked ++ (q ∷ []))
      × (port_in q ≡ some p)
      × IsInt32 p
      × (IsInt32 (v.int x) ↔ (p ≡ v.int x))
run-port m port v c x k takes dialled =
    let (q, planned, ported) = plan-port c v x takes in
    let (a, asked, w) = run-Ends m port v c q planned k in
    let (held, same) = int32_fixed (v.int x) in
    (q, int32 (v.int x), asked ∙ ap (λ d. k.asked ++ asked_by d q) dialled, ported, held, same)
