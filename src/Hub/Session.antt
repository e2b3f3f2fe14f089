-- ===== src/Hub/Session.antt =====
-- hub/services: requests on one state directory, with what they start in the background. The work of the
-- six steps that have a directory of the checklist goes on side by side, a call of the checklist or a
-- command at a time.
pub mod Laws
pub mod Bodies
pub mod Works
use gpupgrade.Base.{if◌then◌else◌, ◌==◌, string_eq, String, ℤ, ◌≡◌, [], Option}
use gpupgrade.System.{FilePath, ◌/◌, Error, World, Execer}
use gpupgrade.System.FilesLaws.{subtree}
use gpupgrade.Idl.{
  UpgradeSteps, check_config as check_config_step, seginstall,
  prepare_start_agents as prepare_start_agents_step, share_oids, validate_start_cluster,
  reconfigure_ports,
}
use gpupgrade.Config.Segment.{Codec, MapOrder}
use gpupgrade.Config.Reader.{Reader}
use gpupgrade.Checklist.Lifecycle.{perform, reset, start, fail, finish}
use gpupgrade.Checklist.Calm.{Exists}
use gpupgrade.Cluster.Pair.{Pair}
use gpupgrade.Cluster.Ssher.Laws.{ssher}
use gpupgrade.Hub.Database.{Env, Database}
use gpupgrade.Hub.SaveConfig.{check_config}
use gpupgrade.Hub.Hosts.{background_ended, check_seginstall, prepare_start_agents}
use gpupgrade.Hub.Steps.{share_oid_files, start_new_cluster, upgrade_reconfigure_ports}

-- The steps that have a directory of the checklist, its name, and their name in a reply.
pub data Step : Type 0 where
  checking installing starting_agents sharing validating reconfiguring : Step

abbrev pub dir_name : Step → String
dir_name checking = "check-config"
dir_name installing = "seginstall"
dir_name starting_agents = "start-agents"
dir_name sharing = "share-oids"
dir_name validating = "validate-start-cluster"
dir_name reconfiguring = "reconfigure-ports"

abbrev pub upgrade_step : Step → UpgradeSteps
upgrade_step checking = check_config_step
upgrade_step installing = seginstall
upgrade_step starting_agents = prepare_start_agents_step
upgrade_step sharing = share_oids
upgrade_step validating = validate_start_cluster
upgrade_step reconfiguring = reconfigure_ports

-- What the hub of a session has from outside.
pub record Setting : Type 0 where
  pub exec : Execer
  pub json : Codec
  pub order : MapOrder
  pub db : Database
  pub env : Env
  pub base : FilePath
  pub gphome : String
  pub pythonpath : String

-- A request for a step, with any arguments, any reader and any cluster pair, and then what it starts in
-- the background, run to its end with nothing beside it: the world before and after.
pub data Serves (h : Setting) (w : World) : Step → World → Type 0 where
  checks_config :
      (port : ℤ) (old_bin_dir : String)
      → Serves h w checking (check_config h.json h.db h.env h.base port old_bin_dir w).1
  checks_seginstall :
      (r : Reader)
      → Serves h w installing
          (background_ended (check_seginstall h.exec h.json h.order (ssher h.base h.gphome) r w))
  starts_agents :
      (pinged : Option Error) (r : Reader)
      → Serves h w starting_agents (
          background_ended
            (prepare_start_agents h.exec h.json h.order (ssher h.base h.gphome) pinged r w))
  shares_oids :
      (r : Reader) → Serves h w sharing (share_oid_files h.exec h.json h.order h.base r w).1
  validates :
      (new_bin_dir new_data_dir : String)
      → Serves h w validating
          (start_new_cluster h.exec h.pythonpath h.base new_bin_dir new_data_dir w).1
  reconfigures :
      (cp : Pair) → Serves h w reconfiguring (upgrade_reconfigure_ports h.exec h.base cp w).1

-- Where the work of a step stands: there is none, it is about to begin, its directory has been reset,
-- it has been marked as in progress, or it has been marked as failed and is not over yet.
pub data Stage : Type 0 where
  resting launched cleared working failing : Stage

-- Something else happens: no call of the hub is to fail, and the directories of the steps are as before.
pub record Apart (base : FilePath) (v u : World) : Type 0 where
  pub calm : u.faults ≡ []
  pub same : (t : Step) → subtree (base / dir_name t) u.fs ≡ subtree (base / dir_name t) v.fs

-- What the work of a step does next. Its commands, and what it reads and writes elsewhere, leave the
-- directories of the steps alone.
pub data Does (base : FilePath) (s : Step) (v : World) : Stage → Stage → World → Type 0 where
  clears : Exists base v.fs → Does base s v launched cleared (perform base (dir_name s) reset v).1
  begins : Does base s v cleared working (perform base (dir_name s) start v).1
  goes_on : (u : World) → Apart base v u → Does base s v working working u
  fails : Does base s v working failing (perform base (dir_name s) fail v).1
  still_goes_on : (u : World) → Apart base v u → Does base s v failing failing u
  fails_again : Does base s v failing failing (perform base (dir_name s) fail v).1
  finishes : Does base s v working resting (perform base (dir_name s) finish v).1
  gives_up : Does base s v failing resting v

-- The work of one step, from a stage and a world to a stage and a world.
pub data Work (base : FilePath) (s : Step) (g : Stage) (v : World) : Stage → World → Type 0 where
  begun_at : Work base s g v g v
  goes :
      {k l : Stage} {x u : World} → Work base s g v k x → Does base s x k l u → Work base s g v l u

abbrev pub set_stage : (Step → Stage) → Step → Stage → Step → Stage
set_stage at s g t = if dir_name t == dir_name s then g else at t

-- The hub at work on its steps, with the stage of each. A request launches the work of a step, if that
-- step has none; the works of the steps, and what else happens, come in any order.
pub data Session (base : FilePath) (w : World) : (Step → Stage) → World → Type 0 where
  opens : Session base w (λ t. resting) w
  launches :
      {at : Step → Stage} {v : World} (s : Step)
      → Session base w at v
      → at s ≡ resting
      → Session base w (set_stage at s launched) v
  works :
      {at : Step → Stage} {v u : World} (s : Step) (g : Stage)
      → Session base w at v
      → Does base s v (at s) g u
      → Session base w (set_stage at s g) u
  meanwhile :
      {at : Step → Stage} {v : World} (u : World)
      → Session base w at v
      → Apart base v u
      → Session base w at u
