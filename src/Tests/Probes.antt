-- ===== src/Tests/Probes.antt =====
-- A list of processes, and the disks of a host.
use gpupgrade.Base.{
  ℕ, String, ◌≡◌, ◌↔◌, refl, true, false, List, [], ◌∷◌, pos, decimal, any, All, ◌==◌, string_eq,
}
use gpupgrade.System.{ok, plain, database_connection, stat, stat_file}
use gpupgrade.System.ExitCodes.{get_exit_code_for_error}
use Prim.Native.Char.{Char}
use gpupgrade.Config.Segment.{times}
use gpupgrade.Agent.Disk.{Sigar, check_disk_space_on_agents, names, create_if_not_exists}
use gpupgrade.Agent.Disk.Laws.{check_disk_space_on_agents-once, count, IsRead}
use gpupgrade.ShellParser.{is_pg_upgrade_running}
use gpupgrade.ShellParser.Laws.{is_pg_upgrade_running-first, FirstMatch}
use gpupgrade.Tests.{in_order, base, world}

-- Two conversions: only the port of the first is seen.
abbrev two_running : String
two_running = "pg_upgrade --old-port 25437 --link\npg_upgrade --old-port 404 --link"

first_seen : is_pg_upgrade_running (pos 25437) two_running ≡ true
unfolding is_pg_upgrade_running decimal
first_seen = refl

second_unseen : is_pg_upgrade_running (pos 404) two_running ≡ false
unfolding is_pg_upgrade_running decimal
second_unseen = refl

-- A longer number, and none.
longer_number : is_pg_upgrade_running (pos 2543) two_running ≡ false
unfolding is_pg_upgrade_running decimal
longer_number = refl

is_pg_upgrade_running-first_example :
    (is_pg_upgrade_running (pos 25437) two_running ≡ true)
    ↔ ((c : Char) × FirstMatch c (decimal (pos 25437)) two_running)
is_pg_upgrade_running-first_example = is_pg_upgrade_running-first (pos 25437) two_running

-- A list that names a directory twice.
abbrev disks : Sigar
disks = record { Usage = ℕ; file_systems = ok ("/" ∷ "/data" ∷ "/" ∷ []); usage_of = λ name. ok 70 }

check_disk_space_on_agents-once_example :
    (reply : List (String × ℕ)) × (check_disk_space_on_agents disks in_order ≡ ok reply)
    × ((x : String)
        → times x (names disks reply) ≡ count disks (any (λ y. y == x) ("/" ∷ "/data" ∷ "/" ∷ [])))
    × All (IsRead disks) reply
check_disk_space_on_agents-once_example =
    check_disk_space_on_agents-once disks in_order ("/" ∷ "/data" ∷ "/" ∷ []) refl
      ((70, refl), ((70, refl), ((70, refl), tt)))

disks_listed : check_disk_space_on_agents disks in_order ≡ ok (("/", 70) ∷ ("/data", 70) ∷ [])
unfolding check_disk_space_on_agents
disks_listed = refl

-- The state directory of an agent is there: nothing is made.
agent_starts : create_if_not_exists base world ≡ (tt, world)
unfolding create_if_not_exists stat stat_file
agent_starts = refl

database_code : get_exit_code_for_error (database_connection (plain "refused")) ≡ 65
unfolding get_exit_code_for_error
database_code = refl
