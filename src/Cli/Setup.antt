-- ===== src/Cli/Setup.antt =====
-- cli/gpupgrade_main.go, `addFlagOptions`: which flags each command takes, and which of them it needs.
use gpupgrade.Base.{pos, minus_one, true, false, []}
use gpupgrade.Cli.Flags.{
  check, sub_init_cluster, sub_shutdown_clusters, sub_init, sub_config, sub_convert_master,
  sub_convert_primaries, sub_validate_start_cluster, group, command, master_host, old_data_dir,
  old_bin_dir, new_data_dir, new_bin_dir, db_port, new_cluster_db_port, Setup, string_var, int_var,
  mark_required,
}

infixl 5 ◌|>◌
abbrev ◌|>◌ : Setup → (Setup → Setup) → Setup
s |> f = f s

unfoldable pub add_flag_options_to_convert_master : Setup → Setup
unfolding string_var int_var mark_required
add_flag_options_to_convert_master s =
    s
    |> string_var (command sub_convert_master) false old_data_dir "old-datadir" ""
    |> mark_required (command sub_convert_master) false "old-datadir"
    |> string_var (command sub_convert_master) false old_bin_dir "old-bindir" ""
    |> mark_required (command sub_convert_master) false "old-bindir"
    |> string_var (command sub_convert_master) false new_data_dir "new-datadir" ""
    |> mark_required (command sub_convert_master) false "new-datadir"
    |> string_var (command sub_convert_master) false new_bin_dir "new-bindir" ""
    |> mark_required (command sub_convert_master) false "new-bindir"

unfoldable pub add_flag_options_to_convert_primaries : Setup → Setup
unfolding string_var int_var mark_required
add_flag_options_to_convert_primaries s =
    s
    |> string_var (command sub_convert_primaries) false old_bin_dir "old-bindir" ""
    |> mark_required (command sub_convert_primaries) false "old-bindir"
    |> string_var (command sub_convert_primaries) false new_bin_dir "new-bindir" ""
    |> mark_required (command sub_convert_primaries) false "new-bindir"

unfoldable pub add_flag_options_to_check : Setup → Setup
unfolding string_var int_var mark_required
add_flag_options_to_check s =
    s
    |> string_var (group check) true master_host "master-host" ""
    |> int_var (group check) true db_port "port" (pos 0)
    |> mark_required (group check) true "master-host"

unfoldable pub add_flag_options_to_config : Setup → Setup
unfolding string_var int_var mark_required
add_flag_options_to_config s =
    s
    |> string_var (command sub_config) true old_bin_dir "old-bindir" ""
    |> mark_required (command sub_config) true "old-bindir"

unfoldable pub add_flag_options_to_init_cluster : Setup → Setup
unfolding string_var int_var mark_required
add_flag_options_to_init_cluster s =
    s
    |> int_var (command sub_init_cluster) false new_cluster_db_port "port" minus_one
    |> mark_required (command sub_init_cluster) false "port"
    |> string_var (command sub_init_cluster) false new_bin_dir "new-bindir" ""
    |> mark_required (command sub_init_cluster) false "new-bindir"

unfoldable pub add_flag_options_to_shutdown_clusters : Setup → Setup
unfolding string_var int_var mark_required
add_flag_options_to_shutdown_clusters s =
    s
    |> string_var (command sub_shutdown_clusters) false old_bin_dir "old-bindir" ""
    |> mark_required (command sub_shutdown_clusters) false "old-bindir"
    |> string_var (command sub_shutdown_clusters) false new_bin_dir "new-bindir" ""
    |> mark_required (command sub_shutdown_clusters) false "new-bindir"

unfoldable pub add_flag_options_to_validate_start_cluster : Setup → Setup
unfolding string_var int_var mark_required
add_flag_options_to_validate_start_cluster s =
    s
    |> string_var (command sub_validate_start_cluster) false new_data_dir "new-datadir" ""
    |> mark_required (command sub_validate_start_cluster) false "new-datadir"
    |> string_var (command sub_validate_start_cluster) false new_bin_dir "new-bindir" ""
    |> mark_required (command sub_validate_start_cluster) false "new-bindir"

unfoldable pub add_flag_options_to_init : Setup → Setup
unfolding string_var int_var mark_required
add_flag_options_to_init s =
    s
    |> string_var (command sub_init) true old_bin_dir "old-bindir" ""
    |> mark_required (command sub_init) true "old-bindir"

-- `addFlagOptions`
unfoldable pub add_flag_options : Setup → Setup
unfolding add_flag_options_to_convert_master add_flag_options_to_convert_primaries
    add_flag_options_to_check add_flag_options_to_config add_flag_options_to_init_cluster
    add_flag_options_to_shutdown_clusters add_flag_options_to_validate_start_cluster
    add_flag_options_to_init
add_flag_options s =
    s |> add_flag_options_to_shutdown_clusters |> add_flag_options_to_init_cluster
    |> add_flag_options_to_check |> add_flag_options_to_convert_master
    |> add_flag_options_to_validate_start_cluster |> add_flag_options_to_convert_primaries
    |> add_flag_options_to_config |> add_flag_options_to_init

-- The variables of a program that starts: empty texts and zeros.
unfoldable pub initial : Setup
initial = record { flags = []; vars = record { text = λ x. ""; int = λ x. pos 0 } }

-- What `main` has set up when cobra reads the arguments.
unfoldable pub declared : Setup
unfolding add_flag_options initial
declared = add_flag_options initial
