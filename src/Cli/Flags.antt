-- ===== src/Cli/Flags.antt =====
-- cli/gpupgrade_main.go, the flags of the commands, and the variables of cli/commands.go that they set.
use gpupgrade.Base.{
  ℕ, String, ℤ, Bool, true, false, ◌&&◌, ◌||◌, not, List, [], ◌∷◌, ◌++◌, map, select, if◌then◌else◌,
  ◌==◌, string_eq, nat_eq,
}

-- The commands that only have subcommands.
pub data Group : Type 0 where
  root prepare status check upgrade : Group

-- Those that run, by the variables that hold them.
pub data Command : Type 0 where
  version sub_start_hub sub_init_cluster sub_shutdown_clusters sub_start_agents sub_init : Command
  sub_upgrade sub_conversion : Command
  sub_version sub_object_count sub_disk_space sub_config sub_seginstall : Command
  sub_convert_master sub_convert_primaries sub_share_oids : Command
  sub_validate_start_cluster sub_reconfigure_ports : Command

-- The calls of `AddCommand` in `main`.
unfoldable pub parent : Command → Group
parent version = root
parent sub_start_hub = prepare
parent sub_init_cluster = prepare
parent sub_shutdown_clusters = prepare
parent sub_start_agents = prepare
parent sub_init = prepare
parent sub_upgrade = status
parent sub_conversion = status
parent sub_version = check
parent sub_object_count = check
parent sub_disk_space = check
parent sub_config = check
parent sub_seginstall = check
parent sub_convert_master = upgrade
parent sub_convert_primaries = upgrade
parent sub_share_oids = upgrade
parent sub_validate_start_cluster = upgrade
parent sub_reconfigure_ports = upgrade

pub data Owner : Type 0 where
  group : Group → Owner
  command : Command → Owner

-- The variables of type `string` and of type `int`.
pub data TextVar : Type 0 where
  master_host old_data_dir old_bin_dir new_data_dir new_bin_dir : TextVar

pub data IntVar : Type 0 where
  db_port new_cluster_db_port : IntVar

pub record Vars : Type 0 where
  pub text : TextVar → String
  pub int : IntVar → ℤ

pub data Target : Type 0 where
  to_text : TextVar → Target
  to_int : IntVar → Target

pub record Flag : Type 0 where
  pub owner : Owner
  pub persistent : Bool
  pub name : String
  pub target : Target
  -- whether `MarkFlagRequired` has marked it
  pub required : Bool

pub record Setup : Type 0 where
  pub flags : List Flag
  pub vars : Vars

group_number : Group → ℕ
group_number root = 0
group_number prepare = 1
group_number status = 2
group_number check = 3
group_number upgrade = 4

command_number : Command → ℕ
command_number version = 5
command_number sub_start_hub = 6
command_number sub_init_cluster = 7
command_number sub_shutdown_clusters = 8
command_number sub_start_agents = 9
command_number sub_init = 10
command_number sub_upgrade = 11
command_number sub_conversion = 12
command_number sub_version = 13
command_number sub_object_count = 14
command_number sub_disk_space = 15
command_number sub_config = 16
command_number sub_seginstall = 17
command_number sub_convert_master = 18
command_number sub_convert_primaries = 19
command_number sub_share_oids = 20
command_number sub_validate_start_cluster = 21
command_number sub_reconfigure_ports = 22

owner_number : Owner → ℕ
unfolding group_number command_number
owner_number (group g) = group_number g
owner_number (command c) = command_number c

-- The same command.
unfoldable pub same_owner : Owner → Owner → Bool
unfolding owner_number group_number command_number
same_owner a b = owner_number a == owner_number b

text_number : TextVar → ℕ
text_number master_host = 0
text_number old_data_dir = 1
text_number old_bin_dir = 2
text_number new_data_dir = 3
text_number new_bin_dir = 4

unfoldable pub same_text : TextVar → TextVar → Bool
unfolding text_number
same_text a b = text_number a == text_number b

unfoldable pub same_int : IntVar → IntVar → Bool
same_int db_port db_port = true
same_int db_port new_cluster_db_port = false
same_int new_cluster_db_port db_port = false
same_int new_cluster_db_port new_cluster_db_port = true

-- `Flags().StringVar(&x, name, value, usage)` and `PersistentFlags().StringVar(…)`; the variable gets
-- the default at once. Likewise `IntVar`.
unfoldable pub string_var : Owner → Bool → TextVar → String → String → Setup → Setup
unfolding same_text
string_var owner persistent x name value s = record {
  flags =
      s.flags
      ++ (record {
        owner = owner;
        persistent = persistent;
        name = name;
        target = to_text x;
        required = false;
      }
          ∷ []);
  vars = record (s.vars) { text = λ y. if same_text x y then value else s.vars.text y };
}

unfoldable pub int_var : Owner → Bool → IntVar → String → ℤ → Setup → Setup
unfolding same_int
int_var owner persistent x name value s = record {
  flags =
      s.flags
      ++ (record {
        owner = owner;
        persistent = persistent;
        name = name;
        target = to_int x;
        required = false;
      }
          ∷ []);
  vars = record (s.vars) { int = λ y. if same_int x y then value else s.vars.int y };
}

abbrev same_flag_set : Bool → Bool → Bool
same_flag_set true b = b
same_flag_set false b = not b

mark : Owner → Bool → String → Flag → Flag
unfolding same_owner
mark owner persistent name f = record f {
  required =
      f.required
      || (same_owner f.owner owner && (same_flag_set persistent f.persistent && f.name == name));
}

-- `MarkFlagRequired(name)` and `MarkPersistentFlagRequired(name)`: without such a flag nothing is
-- marked, and the error goes unread.
unfoldable pub mark_required : Owner → Bool → String → Setup → Setup
unfolding mark
mark_required owner persistent name s = record s {
  flags = map (mark owner persistent name) s.flags;
}

-- The flags that a command takes: its own, and the persistent ones of the command above it.
unfoldable pub visible : Setup → Command → List Flag
unfolding same_owner parent
visible s c =
    select
      (λ f.
        same_owner f.owner (command c) || (f.persistent && same_owner f.owner (group (parent c))))
      s.flags
