-- ===== src/Cli/Main/Flags.antt =====
-- Where the variables of a command come from: the flags that it takes.
use gpupgrade.Base.{
  String, ◌≡◌, refl, Bool, true, false, ◌&&◌, ◌||◌, not, List, [], ◌∷◌, any, all, All, ◌==◌,
  string_eq, arith,
}
use gpupgrade.Cli.Session.{Machine}
use gpupgrade.Cli.Flags.{
  Command, version, sub_start_hub, sub_init_cluster, sub_shutdown_clusters, sub_start_agents,
  sub_init, sub_upgrade, sub_conversion, sub_version, sub_object_count, sub_disk_space, sub_config,
  sub_seginstall, sub_convert_master, sub_convert_primaries, sub_share_oids,
  sub_validate_start_cluster, sub_reconfigure_ports, TextVar, IntVar, master_host, old_data_dir,
  old_bin_dir, new_data_dir, new_bin_dir, db_port, new_cluster_db_port, Vars, Flag, to_text, to_int,
  visible, same_text, same_int,
}
use gpupgrade.Cli.Setup.{declared}
use gpupgrade.Cli.Commands.{run}
use gpupgrade.Cli.Main.{runs, sets_text, sets_int, WasGiven, Cobra}

-- Two sets of variables agree on those that the flags of a command set.
abbrev pub AgreeText : Command → Vars → Vars → Type 0
AgreeText c v v' =
    (x : TextVar) → any (sets_text x) (visible declared c) ≡ true → v.text x ≡ v'.text x

abbrev pub AgreeInt : Command → Vars → Vars → Type 0
AgreeInt c v v' = (x : IntVar) → any (sets_int x) (visible declared c) ≡ true → v.int x ≡ v'.int x

-- The variables are shared between the commands, but a command reads only those that its own flags
-- set, or the persistent flags of the command above it: with two sets of variables that agree on
-- these, it does the same.
pub run-own :
    (m : Machine) (port : String) (v v' : Vars) (c : Command)
    → AgreeText c v v'
    → AgreeInt c v v'
    → run m port v c ≡ run m port v' c
unfolding run visible declared same_text same_int
run-own m port v v' version t i = refl
run-own m port v v' sub_start_hub t i = refl
run-own m port v v' sub_start_agents t i = refl
run-own m port v v' sub_upgrade t i = refl
run-own m port v v' sub_conversion t i = refl
run-own m port v v' sub_disk_space t i = refl
run-own m port v v' sub_seginstall t i = refl
run-own m port v v' sub_share_oids t i = refl
run-own m port v v' sub_reconfigure_ports t i = refl
run-own m port v v' sub_init_cluster t i = rw (t new_bin_dir refl, i new_cluster_db_port refl) refl
run-own m port v v' sub_shutdown_clusters t i = rw (t old_bin_dir refl, t new_bin_dir refl) refl
run-own m port v v' sub_init t i = rw (t old_bin_dir refl) refl
run-own m port v v' sub_version t i = rw (t master_host refl, i db_port refl) refl
run-own m port v v' sub_object_count t i = rw (i db_port refl) refl
run-own m port v v' sub_config t i = rw (t old_bin_dir refl, i db_port refl) refl
run-own m port v v' sub_convert_master t i =
    rw (t old_data_dir refl, t old_bin_dir refl, t new_data_dir refl, t new_bin_dir refl) refl
run-own m port v v' sub_convert_primaries t i = rw (t old_bin_dir refl, t new_bin_dir refl) refl
run-own m port v v' sub_validate_start_cluster t i =
    rw (t new_data_dir refl, t new_bin_dir refl) refl

abbrev is_text : Flag → Bool
is_text f = elim f.target [ to_text y ↦ true | to_int y ↦ false ]

abbrev text_required : Flag → Bool
text_required f = not (is_text f) || f.required

visible-text_required : (c : Command) → all text_required (visible declared c) ≡ true
unfolding visible declared
visible-text_required version = refl
visible-text_required sub_start_hub = refl
visible-text_required sub_init_cluster = refl
visible-text_required sub_shutdown_clusters = refl
visible-text_required sub_start_agents = refl
visible-text_required sub_init = refl
visible-text_required sub_upgrade = refl
visible-text_required sub_conversion = refl
visible-text_required sub_version = refl
visible-text_required sub_object_count = refl
visible-text_required sub_disk_space = refl
visible-text_required sub_config = refl
visible-text_required sub_seginstall = refl
visible-text_required sub_convert_master = refl
visible-text_required sub_convert_primaries = refl
visible-text_required sub_share_oids = refl
visible-text_required sub_validate_start_cluster = refl
visible-text_required sub_reconfigure_ports = refl

-- Some flag among them sets the variable and was given.
abbrev given_for : TextVar → List String → List Flag → Bool
given_for x given flags = any (λ f. sets_text x f && any (λ n. n == f.name) given) flags

sets_text-is_text : (x : TextVar) (f : Flag) → sets_text x f ≡ true → is_text f ≡ true
sets_text-is_text x f h = ground arith

given-among :
    (x : TextVar) (given : List String) (flags : List Flag)
    → all text_required flags ≡ true
    → All (WasGiven given) flags
    → any (sets_text x) flags ≡ true
    → given_for x given flags ≡ true
given-among x given [] h all_given takes = takes
given-among x given (f ∷ flags) h (this, rest) takes =
    ground (arith, given-among x given flags, sets_text-is_text x f)

-- Every text that a command reads from a flag was given by the user: where cobra runs a command, each
-- variable of type string that one of the command's flags sets has such a flag among the given ones.
main-given :
    (cobra : Cobra) (args : List String) (c : Command) (given : List String) (vars : Vars)
    → cobra.parse declared args ≡ runs c given vars
    → (x : TextVar) → any (sets_text x) (visible declared c) ≡ true
    → given_for x given (visible declared c) ≡ true
main-given cobra args c given vars chosen x takes =
    given-among x given (visible declared c) (visible-text_required c)
      (cobra.required_given declared args c given vars chosen) takes
