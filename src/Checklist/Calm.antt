-- ===== src/Checklist/Calm.antt =====
-- The checklist where no file operation fails.
use mathlib.Core.Path.{subst}
use gpupgrade.Base.{
  refl, sym, text_ne, Option-cases, inl, inr, String, Bool, true, false, ◌≡◌, ◌∙◌, ap, none, some,
  List, [], ◌∷◌, ◌++◌, arith, list_eq, string_eq, Option,
}
use gpupgrade.System.{
  FilePath, ◌/◌, is_within, Fs, dir, node_at, without, mkdir_from, mkdir_tree, remove_tree,
  create_file, remove_file, World, writing_calm, open_create, remove, remove_all, mkdir_all, Error,
}
use gpupgrade.System.PathLaws.{not_within_shorter, join-append}
use gpupgrade.System.FilesLaws.{subtree, subtree-remove_tree, node_at-without, node_at_empty}
use gpupgrade.Checklist.{mark_failed, mark_complete, mark_in_progress, reset_state_dir}
use gpupgrade.Checklist.Marks.{
  remove_file_other, Holds, create_file-Holds, remove_file-Holds, mkdir_tree-Holds,
}
use gpupgrade.Checklist.Lifecycle.{
  Phase, Op, missing, idle, started, failed, done, Shows, perform, reset, start, fail, finish,
}

-- Every directory on the way to a path is there.
abbrev pub DirsTo : FilePath → List String → Fs → Type 0
DirsTo e [] fs = Unit
DirsTo e (a ∷ rest) fs = (node_at (e / a) fs ≡ some dir) × DirsTo (e / a) rest fs

-- The directory itself is there.
abbrev pub Exists : FilePath → Fs → Type 0
Exists base fs = DirsTo [] base fs

mkdir-DirsTo :
    (e : FilePath) (rest : List String) (a : String) (fs : Fs)
    → DirsTo e rest fs
    → node_at (e ++ (rest / a)) fs ≡ none
    → mkdir_from e (rest / a) fs ≡ (none, (e ++ (rest / a), dir) ∷ fs)
unfolding mkdir_from
mkdir-DirsTo e [] a fs h k = ground arith
mkdir-DirsTo e (b ∷ rest) a fs (there, h) k =
    ground (arith, join-append e b (rest / a), mkdir-DirsTo (e / b) rest a fs h)

pub not_within_join :
    (d : FilePath) (rest : List String) (a : String) → is_within (d ++ (rest / a)) d ≡ false
not_within_join d [] a = not_within_shorter d a []
not_within_join d (b ∷ rest) a = not_within_shorter d b (rest / a)

without-DirsTo :
    (e : FilePath) (rest : List String) (a : String) (fs : Fs)
    → DirsTo e rest fs
    → DirsTo e rest (without (is_within (e ++ (rest / a))) fs)
without-DirsTo e [] a fs h = tt
without-DirsTo e (b ∷ rest) a fs (there, h) =
    subst (λ d. DirsTo e (b ∷ rest) (without (is_within d) fs)) (join-append e b (rest / a))
      (
        node_at-without (is_within ((e / b) ++ (rest / a))) (e / b) fs
              (not_within_join (e / b) rest a)
            ∙ there,
        without-DirsTo (e / b) rest a fs h,
      )

-- After an operation that does not fail.
abbrev pub Gives : FilePath → Phase → Option Error × World → Type 0
Gives d p r = (r.0 ≡ none) × (r.1.faults ≡ []) × Shows d p r.1.fs

module _ (base : FilePath) (step : String) (w : World) (calm : w.faults ≡ []) where
  abbrev step_dir : FilePath
  step_dir = base / step

  mkdir-Gives :
      (v : World)
      → v.faults ≡ []
      → Exists base v.fs
      → subtree step_dir v.fs ≡ []
      → Gives step_dir idle (mkdir_all step_dir v)
  unfolding mkdir_all
  mkdir-Gives v quiet h gone =
      let made : (mkdir_tree step_dir v.fs).0 ≡ none =
        unfold mkdir_tree in
        ap (λ r. r.0) (mkdir-DirsTo [] base step v.fs h (node_at_empty step_dir v.fs gone)) in
      rw (writing_calm (mkdir_tree step_dir) v quiet)
        (made, quiet, mkdir_tree-Holds base step v.fs gone made)

  -- A step of an existing state directory can be reset, whatever its directory held.
  pub reset-Gives : Exists base w.fs → Gives step_dir idle (perform base step reset w)
  unfolding reset_state_dir remove_all remove_tree
  reset-Gives h = rw (writing_calm (remove_tree step_dir) w calm) (
      mkdir-Gives (record w { fs = without (is_within step_dir) w.fs }) calm
        (without-DirsTo [] base step w.fs h) (subtree-remove_tree step_dir w.fs))

  pub start-Gives : Shows step_dir idle w.fs → Gives step_dir started (perform base step start w)
  unfolding mark_in_progress open_create
  start-Gives h =
      let (made, held) = create_file-Holds step_dir "in.progress" w.now w.fs h in
      rw (writing_calm (create_file w.now (step_dir / "in.progress")) w calm) (made, calm, held)

  end_with :
      (name : String)
      → Shows step_dir started w.fs
      → let v = record w { fs = (remove_file (step_dir / "in.progress") w.fs).1 } in
        ((remove (step_dir / "in.progress") w) ≡ (none, v))
        × ((open_create (step_dir / name) v).0 ≡ none)
        × ((open_create (step_dir / name) v).1.faults ≡ [])
        × Holds step_dir (some name) (open_create (step_dir / name) v).1.fs
  unfolding remove open_create
  end_with name h =
      let (removed, held) = remove_file-Holds step_dir "in.progress" w.fs h in
      let v = record w { fs = (remove_file (step_dir / "in.progress") w.fs).1 } in
      let (made, shown) = create_file-Holds step_dir name w.now v.fs held in
      (
        writing_calm (remove_file (step_dir / "in.progress")) w calm
            ∙ ap (λ (e : Option Error). (e, v)) removed,
        rw (writing_calm (create_file w.now (step_dir / name)) v calm) made,
        rw (writing_calm (create_file w.now (step_dir / name)) v calm) calm,
        rw (writing_calm (create_file w.now (step_dir / name)) v calm) shown,
      )

  pub fail-Gives : Shows step_dir started w.fs → Gives step_dir failed (perform base step fail w)
  unfolding mark_failed
  fail-Gives h =
      let (removed, made, quiet, held) = end_with "failed" h in rw removed (made, quiet, held)

  pub finish-Gives : Shows step_dir started w.fs → Gives step_dir done (perform base step finish w)
  unfolding mark_complete
  finish-Gives h =
      let (removed, made, quiet, held) = end_with "completed" h in rw removed (made, quiet, held)

-- The world once a step has been reset and marked as in progress, as each handler begins.
abbrev pub begun : FilePath → String → World → World
begun base step w = (perform base step start (perform base step reset w).1).1

module _ (base : FilePath) (step : String) (w : World) (calm : w.faults ≡ [])
    (there : Exists base w.fs) where
  pub cleared-Gives : Gives (base / step) idle (perform base step reset w)
  cleared-Gives = reset-Gives base step w calm there

  pub begun-Gives :
      Gives (base / step) started (perform base step start (perform base step reset w).1)
  begun-Gives = start-Gives base step (perform base step reset w).1 cleared-Gives.1 cleared-Gives.2

-- `MarkFailed` or `MarkComplete`, by whether there was an error.
abbrev pub end_op : Bool → Op
end_op true = fail
end_op false = finish

abbrev pub end_phase : Bool → Phase
end_phase true = failed
end_phase false = done

pub end-Gives :
    (base : FilePath) (step : String) (b : Bool) (w : World)
    → w.faults ≡ []
    → Shows (base / step) started w.fs
    → Gives (base / step) (end_phase b) (perform base step (end_op b) w)
end-Gives base step true w calm h = fail-Gives base step w calm h
end-Gives base step false w calm h = finish-Gives base step w calm h

pub Shows-subtree :
    (d : FilePath) (p : Phase) (fs fs' : Fs)
    → subtree d fs' ≡ subtree d fs
    → Shows d p fs
    → Shows d p fs'
Shows-subtree d missing fs fs' e h = e ∙ h
Shows-subtree d idle fs fs' e h = e ∙ h
Shows-subtree d started fs fs' e (t, h) = (t, e ∙ h)
Shows-subtree d failed fs fs' e (t, h) = (t, e ∙ h)
Shows-subtree d done fs fs' e (t, h) = (t, e ∙ h)

-- A step that is marked as failed once more stays so.
pub fail_again :
    (base : FilePath) (step : String) (w : World)
    → w.faults ≡ []
    → Shows (base / step) failed w.fs
    → let w' = (perform base step fail w).1 in (w'.faults ≡ []) × Shows (base / step) failed w'.fs
unfolding mark_failed remove
fail_again base step w calm h =
    let d = base / step in
    let marker = d / "in.progress" in
    let (refused, same) = remove_file_other d "in.progress" "failed" w.fs h (text_ne _ _ refl) in
    elim (Option-cases (remove_file marker w.fs).0) [
      | inl removed ↦ absurd (refused removed)
      | inr (e, k) ↦
          rw (writing_calm (remove_file marker) w calm)
            (rw k (calm, subst (Shows d failed) (sym same) h))
    ]
