-- ===== src/Tests.antt =====
-- Runs at concrete data, and the theorems at such data: a state directory, commands that all succeed
-- or all fail, and a small cluster.
mod Checklist
mod Cluster
mod Status
mod Hub
mod Session
mod Shutdown
mod Agent
mod Checks
mod Cli
mod Commands
mod Server
mod Probes
mod Upgrade
use gpupgrade.Base.{◌≡◌, refl, String, Option, none, some, List, [], ◌∷◌, pos, minus_one}
use gpupgrade.System.{
  FilePath, Fs, dir, file, Node, Error, plain, World, Execer, Cmd, Outcome, node_at, Result, ok,
  err,
}
use gpupgrade.Checklist.Calm.{Exists}
use gpupgrade.Config.Segment.{Segment, ClusterConfig, Codec, MapOrder, SegmentOrder}

abbrev pub base : FilePath
base = "home" ∷ "gpadmin" ∷ ".gpupgrade" ∷ []

abbrev pub tree : Fs
tree =
    ("home" ∷ "gpadmin" ∷ ".gpupgrade" ∷ [], dir)
    ∷ ("home" ∷ "gpadmin" ∷ [], dir)
    ∷ ("home" ∷ [], dir)
    ∷ []

abbrev pub with_files : Fs → World
with_files fs = record { fs = fs; faults = []; now = 7; commands = [] }

abbrev pub world : World
world = with_files tree

pub base-Exists : Exists base tree
unfolding node_at
base-Exists = (refl, (refl, (refl, tt)))

abbrev pub succeeds : Execer
succeeds log c fs = (record { text = ""; error = none }, fs)

abbrev pub fails : Execer
fails log c fs = (record { text = ""; error = some (plain "exit status 1") }, fs)

abbrev pub segment : String → Segment
segment host = record {
  address = host;
  content = minus_one;
  datadir = "/data/master";
  dbid = pos 1;
  hostname = host;
  mode = "s";
  status = "u";
  port = pos 15432;
  preferred_role = "p";
  role = "p";
}

abbrev pub primary : Segment
primary = record (segment "sdw1") {
  content = pos 0;
  datadir = "/data/primary0";
  dbid = pos 2;
  port = pos 25432;
}

abbrev pub config : ClusterConfig
config = record { seg_config = segment "mdw" ∷ primary ∷ []; bin_dir = "/old/bin" }

-- A codec that knows one configuration.
abbrev pub codec : Codec
codec = record { marshal = λ c. ok "{}"; unmarshal = λ text. ok config }

abbrev pub in_order : MapOrder
in_order = record { keys = λ l. l; keys-times = λ x l. refl }

abbrev pub as_listed : SegmentOrder
as_listed = record { range = λ l. l; range-All = λ P l h. h; All-range = λ P l h. h }
