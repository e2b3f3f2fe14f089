-- ===== src/Checklist/Outside.antt =====
-- hub/upgradestatus/checklist_manager.go: what a step leaves as it is, the directory of another step
-- and the directories on the way to its own; and the first step below a directory that is not there yet.
use gpupgrade.Base.{
  String, false, ◌≡◌, ◌≢◌, refl, sym, ◌∙◌, ap, none, some, [], ◌∷◌, ◌++◌, List, arith, list_eq,
  string_eq, ==_iff,
}
use gpupgrade.System.{
  FilePath, ◌/◌, is_within, Fs, dir, World, remove_all, mkdir_all, remove_tree, mkdir_tree,
  mkdir_from, without, node_at, writing_calm,
}
use gpupgrade.System.PathLaws.{
  siblings_apart, is_within_self, is_within_trans, is_within-append, not_within_shorter,
  join-append,
}
use gpupgrade.System.FilesLaws.{
  subtree, subtree-cons, subtree-without_apart, subtree-mkdir_apart, node_at-without,
}
use gpupgrade.Checklist.{reset_state_dir}
use gpupgrade.Checklist.Lifecycle.{perform, reset}
use gpupgrade.Checklist.Calm.{DirsTo, Exists}
use gpupgrade.Checklist.Stable.{
  Outside, DirsTo-map, node_at-more, gone_elsewhere, node_at-mkdir_from,
}

pub sibling-Outside :
    (base : FilePath) (step other : String) (found : Fs)
    → step ≢ other
    → Outside (base / step) (λ fs. subtree (base / other) fs ≡ found)
unfolding mkdir_tree
sibling-Outside base step other found apart =
    let d = base / other in
    record {
      fewer = λ gone fs h e.
          subtree-without_apart d gone fs (λ q k. siblings_apart base step other q apart (h q k))
          ∙ e;
      more = λ q n fs h e. subtree-cons d q n fs ∙ rw (siblings_apart base step other q apart h) e;
      made = λ fs e.
          subtree-mkdir_apart d [] (base / step) fs
            (siblings_apart base step other (base / step) apart (is_within_self (base / step)))
          ∙ e;
    }

pub Exists-Outside : (base : FilePath) (step : String) → Outside (base / step) (Exists base)
unfolding mkdir_tree
Exists-Outside base step =
    let d = base / step in
    record {
      fewer = λ gone fs h.
          DirsTo-map [] base step fs (without gone fs)
            (λ p out there. node_at-without gone p fs (gone_elsewhere d p out gone h) ∙ there);
      more = λ q n fs h.
          DirsTo-map [] base step fs ((q, n) ∷ fs)
            (λ p out there. node_at-more d p out q n fs h ∙ there);
      made = λ fs.
          DirsTo-map [] base step fs (mkdir_from [] d fs).1
            (λ p out there. node_at-mkdir_from [] d p fs there);
    }

pub DirsTo-last :
    (e : FilePath) (rest : List String) (a : String) (fs : Fs)
    → DirsTo e rest fs
    → node_at (e ++ (rest / a)) fs ≡ some dir
    → DirsTo e (rest / a) fs
DirsTo-last e [] a fs h k = (k, tt)
DirsTo-last e (b ∷ rest) a fs (there, h) k = (
  there,
  DirsTo-last (e / b) rest a fs h (ap (λ d. node_at d fs) (join-append e b (rest / a)) ∙ k),
)

pub DirsTo-but_last :
    (e : FilePath) (rest : List String) (a : String) (fs : Fs)
    → DirsTo e (rest / a) fs
    → DirsTo e rest fs × (node_at (e ++ (rest / a)) fs ≡ some dir)
DirsTo-but_last e [] a fs (k, h) = (tt, k)
DirsTo-but_last e (b ∷ rest) a fs (there, h) =
    let (before, last) = DirsTo-but_last (e / b) rest a fs h in
    ((there, before), sym (ap (λ d. node_at d fs) (join-append e b (rest / a))) ∙ last)

-- `os.MkdirAll` makes the directory between, so it does not matter whether it was there.
mkdir_from_fresh :
    (e : FilePath) (rest : List String) (a step : String) (fs : Fs)
    → DirsTo e rest fs
    → node_at (e ++ (rest / a)) fs ≡ none
    → mkdir_from e (rest / a / step) fs
      ≡ mkdir_from e (rest / a / step) ((e ++ (rest / a), dir) ∷ fs)
unfolding mkdir_from node_at
mkdir_from_fresh e [] a step fs h k = ground (arith, ==_iff (e / a) (e / a))
mkdir_from_fresh e (b ∷ rest) a step fs (there, h) k = ground (
  arith,
  join-append e b (rest / a),
  ==_iff (e ++ (b ∷ (rest / a))) (e / b),
  mkdir_from_fresh (e / b) rest a step fs h,
)

module _ (base : FilePath) (name step : String) (w : World) (calm : w.faults ≡ [])
    (there : Exists base w.fs) (fresh : node_at (base / name) w.fs ≡ none) where
  abbrev pub with_dir : World
  with_dir = record w { fs = (base / name, dir) ∷ w.fs }

  pub with_dir-Exists : Exists (base / name) with_dir.fs
  unfolding node_at
  with_dir-Exists =
      DirsTo-last [] base name with_dir.fs
        (DirsTo-map [] base name w.fs with_dir.fs
          (λ p out at. ground (arith, ==_iff (base / name) p)) there)
        (ground (arith, ==_iff (base / name) (base / name)))

  not_inside : is_within (base / name / step) (base / name) ≡ false
  not_inside = not_within_shorter (base / name) step []

  beyond :
      (p : FilePath) → is_within (base / name) p ≡ false → is_within (base / name / step) p ≡ false
  beyond p out = ground (
    arith,
    is_within_trans (base / name) (base / name / step) p
        (is_within-append (base / name) (step ∷ [])),
  )

  without-with_dir :
      without (is_within (base / name / step)) with_dir.fs
      ≡ (base / name, dir) ∷ without (is_within (base / name / step)) w.fs
  unfolding without
  without-with_dir = ground (arith, not_inside)

  -- Resetting a step makes the directory between, if it is not there yet.
  pub reset-with_dir :
      perform (base / name) step reset w ≡ perform (base / name) step reset with_dir
  unfolding reset_state_dir remove_all remove_tree mkdir_all mkdir_tree
  reset-with_dir =
      let d = base / name / step in
      let v = record w { fs = without (is_within d) w.fs } in
      let v' = record w { fs = (base / name, dir) ∷ without (is_within d) w.fs } in
      let same : mkdir_from [] d v.fs ≡ mkdir_from [] d v'.fs =
        mkdir_from_fresh [] base name step v.fs
          (DirsTo-map [] base name w.fs v.fs
            (λ p out at. node_at-without (is_within d) p w.fs (beyond p out) ∙ at) there)
          (node_at-without (is_within d) (base / name) w.fs not_inside ∙ fresh) in
      rw
        (
          writing_calm (remove_tree d) w calm,
          writing_calm (remove_tree d) with_dir calm,
          without-with_dir,
          writing_calm (mkdir_tree d) v calm,
          writing_calm (mkdir_tree d) v' calm,
          same,
        )
        refl
