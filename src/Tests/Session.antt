-- ===== src/Tests/Session.antt =====
-- The works of two steps on a fresh state directory.
use gpupgrade.Base.{◌≡◌, refl, ◌⊎◌, inl, [], text_ne}
use gpupgrade.System.{
  ◌/◌, World, node_at, create_file, remove_all, remove_tree, mkdir_all, mkdir_tree, below,
  is_within, open_create,
}
use gpupgrade.System.FilesLaws.{subtree}
use gpupgrade.Status.StateCheck.{get_status, reply}
use gpupgrade.Status.StateCheck.Laws.{phase_status}
use gpupgrade.Checklist.{reset_state_dir, mark_in_progress}
use gpupgrade.Checklist.Lifecycle.{Phase, missing, started, perform, reset, start}
use gpupgrade.Checklist.Calm.{Exists}
use gpupgrade.Hub.Steps.{start_new_cluster, upgrade_reconfigure_ports}
use gpupgrade.Cluster.Pair.{empty_pair}
use gpupgrade.Hub.Session.{
  Setting, Step, upgrade_step, checking, installing, starting_agents, sharing, validating,
  reconfiguring, validates, reconfigures, Stage, resting, launched, cleared, working, set_stage,
  Apart, Work, Session, opens, launches, works, clears, begins,
}
use gpupgrade.Hub.Session.Laws.{Serves-own, Session-status, At}
use gpupgrade.Hub.Session.Works.{Serves-Work}
use gpupgrade.Tests.{base, world, base-Exists, fails, codec, in_order}
use gpupgrade.Tests.Hub.{database, env}

abbrev hub : Setting
hub = record {
  exec = fails;
  json = codec;
  order = in_order;
  db = database [];
  env = env;
  base = base;
  gphome = "/gphome";
  pythonpath = "/py";
}

abbrev validated : World
validated = (start_new_cluster fails "/py" base "/new/bin" "/new/data" world).1

abbrev reconfigured : World
reconfigured = (upgrade_reconfigure_ports fails base empty_pair validated).1

-- Two works side by side: the new cluster is being started while the other directory is reset.
abbrev begun_one : World
begun_one =
    (perform base "validate-start-cluster" start
      (perform base "validate-start-cluster" reset world).1).1

abbrev cleared_other : World
cleared_other = (perform base "reconfigure-ports" reset begun_one).1

begun_one-Exists : Exists base begun_one.fs
unfolding node_at reset_state_dir remove_all remove_tree mkdir_all mkdir_tree below mark_in_progress
    open_create create_file
begun_one-Exists = (refl, (refl, (refl, tt)))

abbrev at_rest : Step → Stage
at_rest t = resting

abbrev side_by_side : Step → Stage
side_by_side =
    set_stage
      (set_stage
        (set_stage (set_stage (set_stage at_rest validating launched) validating cleared) validating
          working)
        reconfiguring launched)
      reconfiguring cleared

abbrev session : Session base world side_by_side cleared_other
session =
    works reconfiguring cleared
      (launches reconfiguring
        (works validating working
          (works validating cleared (launches validating opens refl) (clears base-Exists)) begins)
        refl)
      (clears begun_one-Exists)

world-At : (t : Step) → At base t resting world
unfolding subtree is_within below
world-At checking = (missing, inl refl, refl)
world-At installing = (missing, inl refl, refl)
world-At starting_agents = (missing, inl refl, refl)
world-At sharing = (missing, inl refl, refl)
world-At validating = (missing, inl refl, refl)
world-At reconfiguring = (missing, inl refl, refl)

Session-status_example :
    (p : Phase) × (p ≡ started)
    × (get_status
          (record { path = base / "validate-start-cluster"; step = upgrade_step validating })
          cleared_other
        ≡ (reply (upgrade_step validating) (phase_status p), cleared_other))
Session-status_example =
    Session-status base world cleared_other side_by_side validating refl world-At session

Serves-own_example :
    subtree (base / "validate-start-cluster") reconfigured.fs
    ≡ subtree (base / "validate-start-cluster") validated.fs
Serves-own_example =
    Serves-own hub reconfiguring validating validated reconfigured (text_ne _ _ refl)
      (λ log c fs. refl) (reconfigures empty_pair)

Serves-Work_example :
    (x : World) × Apart base world x
    × ((⊥ × (validated ≡ x)) ⊎ Work base validating launched x resting validated)
Serves-Work_example =
    Serves-Work hub (λ t log c fs. refl) validating world validated refl base-Exists
      (validates "/new/bin" "/new/data")
