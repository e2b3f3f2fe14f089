-- ===== src/Tests/Checklist.antt =====
-- The checklist and the state of its steps.
use gpupgrade.Base.{inr, ◌≡◌, refl, none, some, [], ◌∷◌}
use gpupgrade.System.{◌/◌, is_within, below, dir, file, plain, World}
use gpupgrade.System.FilesLaws.{subtree}
use gpupgrade.Idl.{seginstall, running}
use gpupgrade.Checklist.Lifecycle.{
  done, start, started, Shows, perform, finish, After, perform-moves,
}
use gpupgrade.Status.StateCheck.{get_status, reply}
use gpupgrade.Status.StateCheck.Laws.{get_status-Shows}
use gpupgrade.Status.StateCheck.Twice.{get_status_restarted}
use gpupgrade.Tests.{base, tree, with_files}

abbrev started_world : World
started_world =
    with_files
      ((base / "seginstall" / "in.progress", file "" 3) ∷ (base / "seginstall", dir) ∷ tree)

is_started : Shows (base / "seginstall") started started_world.fs
unfolding subtree is_within below
is_started = (3, refl)

-- `MarkComplete` where the second of its calls fails.
abbrev half_way : World
half_way = record started_world { faults = none ∷ some (plain "no space left on device") ∷ [] }

perform-moves_example :
    After (base / "seginstall") started finish (perform base "seginstall" finish half_way)
perform-moves_example = perform-moves base "seginstall" started finish half_way tt is_started

get_status-Shows_example :
    get_status (record { path = base / "seginstall"; step = seginstall }) started_world
    ≡ (reply seginstall running, started_world)
get_status-Shows_example =
    get_status-Shows (record { path = base / "seginstall"; step = seginstall }) started
      started_world refl is_started

-- The step was complete, and is started again without a reset.
abbrev done_world : World
done_world =
    with_files ((base / "seginstall" / "completed", file "" 3) ∷ (base / "seginstall", dir) ∷ tree)

is_done : Shows (base / "seginstall") done done_world.fs
unfolding subtree is_within below
is_done = (3, refl)

get_status_restarted_example :
    (get_status
      (record { path = base / "seginstall"; step = seginstall })
      (perform base "seginstall" start done_world).1).0
    ≡ (none, some (plain "got more files than expected"))
get_status_restarted_example =
    get_status_restarted base "seginstall"
      (record { path = base / "seginstall"; step = seginstall }) done_world refl refl (inr is_done)
