-- ===== src/Tests/Commands.antt =====
-- Runs of the command line, against a hub that refuses everything.
use gpupgrade.Base.{
  String, ℤ, pos, ◌≡◌, ◌↔◌, refl, Bool, true, not, ◌||◌, none, some, List, [], ◌∷◌, ◌++◌, any, all,
  All, if◌then◌else◌, ◌==◌, string_eq, arith,
}
use gpupgrade.System.{plain, ok, err}
use gpupgrade.Cli.Session.{Request, prepare_shutdown_clusters_request, Machine, Console}
use gpupgrade.Cli.Flags.{
  Command, sub_shutdown_clusters, sub_init_cluster, new_cluster_db_port, Vars, Flag, Setup, visible,
}
use gpupgrade.Cli.Setup.{declared}
use gpupgrade.Cli.Upgrader.{shutdown_clusters}
use gpupgrade.Cli.Commands.{run}
use gpupgrade.Cli.Commands.Calls.{accepted}
use gpupgrade.Cli.Commands.Laws.{exit_code, asked_by, succeeds_by}
use gpupgrade.Cli.Main.{Chosen, runs, usage_error, WasGiven, Cobra, main}
use gpupgrade.Cli.Main.Laws.{main-asks, run-port, IsInt32, port_in}
use gpupgrade.Cli.Main.Flags.{run-own}
use gpupgrade.Tests.{base, world, fails, codec}

abbrev machine : Machine
machine = record {
  dial = λ target. none;
  call = λ asked q. err (plain "refused");
  exec = fails;
  parsed = λ text. ok (pos 0);
  json = codec;
  getenv = λ key. "";
  path_of = λ text. base;
  upgrade_version = "";
}

abbrev console : Console
console = record { world = world; asked = []; lines = [] }

-- A port that does not fit.
abbrev vars : Vars
vars = record { text = λ x. "/bin"; int = λ x. pos 4294973296 }

abbrev was_given : List String → Flag → Bool
was_given given f = not f.required || any (λ n. n == f.name) given

all-WasGiven :
    (given : List String) (flags : List Flag)
    → all (was_given given) flags ≡ true
    → All (WasGiven given) flags
all-WasGiven given [] h = tt
all-WasGiven given (f ∷ flags) h = (λ needed. ground arith, all-WasGiven given flags (ground arith))

-- A parser that knows one command, and takes every argument for the name of a flag.
abbrev parse_as : Command → Setup → List String → Chosen
parse_as c s args =
    if all (was_given args) (visible s c)
    then runs c args vars
    else usage_error (plain "required flag(s) not set")

parse_as-given :
    (c' : Command) (s : Setup) (args : List String) (c : Command) (given : List String) (v : Vars)
    → parse_as c' s args ≡ runs c given v
    → All (WasGiven given) (visible s c)
parse_as-given c' s args c given v h = all-WasGiven given (visible s c) (ground arith)

abbrev parser : Command → Cobra
parser c = record { parse = parse_as c; required_given = parse_as-given c }

abbrev arguments : List String
arguments = "old-bindir" ∷ "new-bindir" ∷ []

main-asks_example :
    let q = prepare_shutdown_clusters_request "/bin" "/bin" in
    let r = main (parser sub_shutdown_clusters) machine arguments console in
    (r.0 ≡ exit_code (succeeds_by none (accepted q (machine.call [] q))))
    × (r.1.asked ≡ [] ++ asked_by none q)
    × (r.1.world ≡ world)
unfolding visible declared
main-asks_example =
    main-asks (parser sub_shutdown_clusters) machine "old-bindir" ("new-bindir" ∷ [])
      sub_shutdown_clusters arguments vars (prepare_shutdown_clusters_request "/bin" "/bin") console
      refl refl

-- The hub refuses to stop the clusters, and gpupgrade exits with 0.
shutdown_refused : (main (parser sub_shutdown_clusters) machine arguments console).0 ≡ 0
unfolding main visible declared shutdown_clusters
shutdown_refused = refl

-- Without a flag that it needs, the command is not run.
flag_missing : (main (parser sub_shutdown_clusters) machine ("old-bindir" ∷ []) console).0 ≡ 1
unfolding main visible declared
flag_missing = refl

run-own_example :
    run machine "7527" vars sub_shutdown_clusters
    ≡ run machine "7527" (record vars { int = λ x. pos 0 }) sub_shutdown_clusters
unfolding visible declared
run-own_example =
    run-own machine "7527" vars (record vars { int = λ x. pos 0 }) sub_shutdown_clusters
      (λ x h. refl) (λ x h. cc)

run-port_example :
    (q : Request) × (p : ℤ) × ((run machine "7527" vars sub_init_cluster console).1.asked
      ≡ [] ++ (q ∷ []))
    × (port_in q ≡ some p)
    × IsInt32 p
    × (IsInt32 (pos 4294973296) ↔ (p ≡ pos 4294973296))
run-port_example =
    run-port machine "7527" vars sub_init_cluster new_cluster_db_port console refl refl
