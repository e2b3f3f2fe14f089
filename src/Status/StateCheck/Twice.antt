-- ===== src/Status/StateCheck/Twice.antt =====
-- hub/upgradestatus/state_checker.go: a step that is started again without having been reset.
use gpupgrade.Base.{
  ℕ, String, Bool, true, false, ◌≡◌, refl, sym, ◌∙◌, ap, none, some, [], ◌∷◌, arith, string_eq,
  list_eq, ==_iff, if◌then◌else◌, text_ne, ◌≢◌, ◌⊎◌, inl, inr,
}
use gpupgrade.System.{
  FilePath, ◌/◌, path_matches, dir, file, node_at, matching, glob_files, sort_paths, World,
  create_file, open_create, writing_calm, plain,
}
use gpupgrade.System.PathLaws.{below-append, below_self, is_within-append, is_within_self}
use gpupgrade.System.FilesLaws.{subtree, subtree-cons, node_at-subtree}
use gpupgrade.Checklist.{mark_in_progress}
use gpupgrade.Checklist.Lifecycle.{Shows, perform, start, failed as gave_up, done}
use gpupgrade.Checklist.Marks.{Holds, child_ne, create_second}
use gpupgrade.Status.StateCheck.{StateCheck, get_status, by_files}
use gpupgrade.Status.StateCheck.Laws.{children, children_of, get_status_found}

module _ (c : StateCheck) where
  two_in_order :
      (b : Bool) (p q : FilePath)
      → by_files c (if b then p ∷ q ∷ [] else q ∷ p ∷ [])
        ≡ (none, some (plain "got more files than expected"))
  unfolding by_files
  two_in_order true p q = refl
  two_in_order false p q = refl

  two_sorted :
      (p q : FilePath)
      → by_files c (sort_paths (p ∷ q ∷ [])) ≡ (none, some (plain "got more files than expected"))
  unfolding sort_paths
  two_sorted p q = two_in_order _ p q

  two_found :
      (name other : String) (s t : ℕ) (w : World)
      → w.faults ≡ []
      → subtree c.path w.fs
        ≡ (c.path / name, file "" s) ∷ (c.path / other, file "" t) ∷ (c.path, dir) ∷ []
      → (get_status c w).0 ≡ (none, some (plain "got more files than expected"))
  unfolding node_at matching path_matches
  two_found name other s t w calm h =
      let d = c.path in
      let there : node_at d w.fs ≡ some dir =
        sym (node_at-subtree d d w.fs (is_within_self d))
        ∙ ap (node_at d) h
        ∙ ground (arith, ==_iff d d, child_ne d name, child_ne d other) in
      let globbed : glob_files (children d) w.fs ≡ sort_paths (d / name ∷ d / other ∷ []) =
        children_of d w.fs _ h
        ∙ ap sort_paths (
            ground
              (arith, below_self d, below-append d (name ∷ []), below-append d (other ∷ []))) in
      ap (λ r. r.0) (get_status_found c w dir calm there)
      ∙ ap (by_files c) globbed
      ∙ two_sorted (d / name) (d / other)

restarted :
    (base : FilePath) (step other : String) (c : StateCheck) (w : World)
    → c.path ≡ base / step
    → w.faults ≡ []
    → Holds (base / step) (some other) w.fs
    → other ≢ "in.progress"
    → (get_status c (perform base step start w).1).0
      ≡ (none, some (plain "got more files than expected"))
unfolding mark_in_progress open_create
restarted base step other c w at calm (t, h) ne =
    let d = base / step in
    let made = create_second d "in.progress" other w.now w.fs (t, h) ne in
    rw (writing_calm (create_file w.now (d / "in.progress")) w calm) (
      rw made (
        two_found c "in.progress" other w.now t
          (record w { fs = (d / "in.progress", file "" w.now) ∷ w.fs }) calm
          (rw at (
            ground (
              arith,
              subtree-cons d (d / "in.progress") (file "" w.now) w.fs,
              is_within-append d ("in.progress" ∷ []),
            )))))

-- If a step that has failed or is complete is marked as in progress without a reset, and no file
-- operation fails, then `GetStatus` returns no status, but an error.
pub get_status_restarted :
    (base : FilePath) (step : String) (c : StateCheck) (w : World)
    → c.path ≡ base / step
    → w.faults ≡ []
    → Shows (base / step) gave_up w.fs ⊎ Shows (base / step) done w.fs
    → (get_status c (perform base step start w).1).0
      ≡ (none, some (plain "got more files than expected"))
get_status_restarted base step c w at calm (inl h) =
    restarted base step "failed" c w at calm h (text_ne _ _ refl)
get_status_restarted base step c w at calm (inr h) =
    restarted base step "completed" c w at calm h (text_ne _ _ refl)
