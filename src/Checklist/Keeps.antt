-- ===== src/Checklist/Keeps.antt =====
-- hub/upgradestatus/checklist_manager.go: what the operations on one step leave alone.
use gpupgrade.Base.{
  String, true, false, ◌≡◌, ◌≢◌, ◌∙◌, ap, Option, none, some, [], ◌∷◌, arith, ◌==◌, list_eq,
  string_eq, ==_iff,
}
use gpupgrade.System.{
  FilePath, ◌/◌, is_within, Fs, Error, Sys, remove, remove_all, mkdir_all, open_create, remove_tree,
  remove_file, mkdir_tree,
}
use gpupgrade.System.PathLaws.{siblings_apart, is_within_self, is_within-append}
use gpupgrade.System.FilesLaws.{subtree, subtree-without_apart, subtree-mkdir_apart}
use gpupgrade.System.Keeps.{Keeps, Keeps-pure, Keeps-bind, Keeps-writing, Keeps-open_create}
use gpupgrade.Checklist.{
  new_checklist_manager, mark_failed, mark_complete, mark_in_progress, reset_state_dir,
  unless_error,
}

Keeps-unless_error :
    (d : FilePath) (e : Option Error) (rest : Sys (Option Error))
    → Keeps d rest
    → Keeps d (unless_error e rest)
Keeps-unless_error d none rest k = k
Keeps-unless_error d (some e) rest k = Keeps-pure d (some e)

-- The directory `other` beside that of the step.
module _ (base : FilePath) (step other : String) (apart : step ≢ other) where
  abbrev beside : FilePath
  beside = base / other

  outside : (q : FilePath) → is_within (base / step) q ≡ true → is_within beside q ≡ false
  outside q h = siblings_apart base step other q apart h

  inner : (name : String) → is_within beside (base / step / name) ≡ false
  inner name = outside (base / step / name) (is_within-append (base / step) (name ∷ []))

  remove_file-apart :
      (name : String) (fs : Fs)
      → subtree beside (remove_file (base / step / name) fs).1 ≡ subtree beside fs
  unfolding remove_file
  remove_file-apart name fs = ground (
    arith,
    subtree-without_apart beside (λ q. q == base / step / name) fs
        (λ q h. ap (is_within beside) ((==_iff q (base / step / name)).0 h) ∙ inner name),
  )

  Keeps-remove : (name : String) → Keeps beside (remove (base / step / name))
  unfolding remove
  Keeps-remove name =
      Keeps-writing beside (remove_file (base / step / name)) (remove_file-apart name)

  Keeps-remove_all : Keeps beside (remove_all (base / step))
  unfolding remove_all remove_tree
  Keeps-remove_all =
      Keeps-writing beside (remove_tree (base / step))
        (λ fs. subtree-without_apart beside (is_within (base / step)) fs outside)

  Keeps-mkdir_all : Keeps beside (mkdir_all (base / step))
  unfolding mkdir_all mkdir_tree
  Keeps-mkdir_all = Keeps-writing beside (mkdir_tree (base / step)) (λ fs.
      subtree-mkdir_apart beside [] (base / step) fs
        (outside (base / step) (is_within_self (base / step))))

  pub Keeps-reset_state_dir : Keeps beside (reset_state_dir (new_checklist_manager base) step)
  unfolding reset_state_dir
  Keeps-reset_state_dir =
      Keeps-bind beside (remove_all (base / step)) _ Keeps-remove_all
        λ e. Keeps-unless_error beside e (mkdir_all (base / step)) Keeps-mkdir_all

  pub Keeps-mark_in_progress : Keeps beside (mark_in_progress (new_checklist_manager base) step)
  unfolding mark_in_progress
  Keeps-mark_in_progress =
      Keeps-open_create beside (base / step / "in.progress") (inner "in.progress")

  pub Keeps-mark_failed : Keeps beside (mark_failed (new_checklist_manager base) step)
  unfolding mark_failed
  Keeps-mark_failed =
      Keeps-bind beside (remove (base / step / "in.progress")) _ (Keeps-remove "in.progress") λ e.
        Keeps-unless_error beside e (open_create (base / step / "failed"))
          (Keeps-open_create beside (base / step / "failed") (inner "failed"))

  pub Keeps-mark_complete : Keeps beside (mark_complete (new_checklist_manager base) step)
  unfolding mark_complete
  Keeps-mark_complete =
      Keeps-bind beside (remove (base / step / "in.progress")) _ (Keeps-remove "in.progress") λ e.
        Keeps-unless_error beside e (open_create (base / step / "completed"))
          (Keeps-open_create beside (base / step / "completed") (inner "completed"))
