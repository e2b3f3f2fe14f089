-- ===== src/Checklist/Stable.antt =====
-- hub/upgradestatus/checklist_manager.go: what the operations on one step leave true of the file tree.
use mathlib.Core.Path.{subst}
use gpupgrade.Base.{
  ℕ, String, Bool, true, false, ◌≡◌, sym, ap, ◌∙◌, Option, none, some, [], ◌∷◌, ◌++◌, List, arith,
  ◌==◌, list_eq, string_eq, ==_iff,
}
use gpupgrade.System.{
  FilePath, ◌/◌, is_within, Fs, Node, dir, file, Error, Sys, ◌>>=◌, remove, remove_all, mkdir_all,
  open_create, create_file, remove_file, remove_tree, mkdir_tree, mkdir_from, without, node_at,
  writing,
}
use gpupgrade.System.PathLaws.{is_within-append, join-append}
use gpupgrade.System.Stable.{Stable, Stable-pure, Stable-bind, Stable-writing, Stable-open_create}
use gpupgrade.Checklist.{
  new_checklist_manager, mark_failed, mark_complete, mark_in_progress, reset_state_dir,
  unless_error,
}
use gpupgrade.Checklist.Calm.{DirsTo, not_within_join}

-- What stays true where entries of a directory come and go, and the directory itself is made.
pub record Outside (d : FilePath) (P : Fs → Type 0) : Type 0 where
  pub fewer :
      (gone : FilePath → Bool) (fs : Fs)
      → ((q : FilePath) → gone q ≡ true → is_within d q ≡ true)
      → P fs
      → P (without gone fs)
  pub more : (q : FilePath) (n : Node) (fs : Fs) → is_within d q ≡ true → P fs → P ((q, n) ∷ fs)
  pub made : (fs : Fs) → P fs → P (mkdir_tree d fs).1

module _ (base : FilePath) (step : String) (P : Fs → Type 0) (o : Outside (base / step) P) where
  abbrev d : FilePath
  d = base / step

  within : (name : String) → is_within d (d / name) ≡ true
  within name = is_within-append d (name ∷ [])

  create_in : (name : String) (now : ℕ) (fs : Fs) → P fs → P (create_file now (d / name) fs).1
  unfolding create_file
  create_in name now fs p = ground (arith, o.more (d / name) (file "" now) fs (within name) p)

  remove_in : (name : String) (fs : Fs) → P fs → P (remove_file (d / name) fs).1
  unfolding remove_file
  remove_in name fs p = ground (
    arith,
    o.fewer (λ q. q == d / name) fs
        (λ q h. ap (is_within d) ((==_iff q (d / name)).0 h) ∙ within name) p,
  )

  Stable-unless_error :
      (e : Option Error) (rest : Sys (Option Error))
      → Stable P rest
      → Stable P (unless_error e rest)
  Stable-unless_error none rest h = h
  Stable-unless_error (some e) rest h = Stable-pure P (some e)

  Stable-create : (name : String) → Stable P (open_create (d / name))
  Stable-create name = Stable-open_create P (d / name) (create_in name)

  -- The first call of `MarkFailed` and of `MarkComplete`, and the second.
  Stable-end :
      (name : String)
      → Stable P (remove (d / "in.progress") >>= λ e. unless_error e (open_create (d / name)))
  unfolding remove
  Stable-end name =
      Stable-bind P (writing (remove_file (d / "in.progress"))) _
        (Stable-writing P (remove_file (d / "in.progress")) (remove_in "in.progress"))
        λ e. Stable-unless_error e (open_create (d / name)) (Stable-create name)

  pub Stable-mark_failed : Stable P (mark_failed (new_checklist_manager base) step)
  unfolding mark_failed
  Stable-mark_failed = Stable-end "failed"

  pub Stable-mark_complete : Stable P (mark_complete (new_checklist_manager base) step)
  unfolding mark_complete
  Stable-mark_complete = Stable-end "completed"

  pub Stable-mark_in_progress : Stable P (mark_in_progress (new_checklist_manager base) step)
  unfolding mark_in_progress
  Stable-mark_in_progress = Stable-create "in.progress"

  pub Stable-reset_state_dir : Stable P (reset_state_dir (new_checklist_manager base) step)
  unfolding reset_state_dir remove_all remove_tree mkdir_all
  Stable-reset_state_dir =
      Stable-bind P (writing (remove_tree d)) _
        (Stable-writing P (remove_tree d) λ fs p. o.fewer (is_within d) fs (λ q h. h) p)
        λ e. Stable-unless_error e (writing (mkdir_tree d)) (Stable-writing P (mkdir_tree d) o.made)

-- A directory elsewhere.
module _ (d p : FilePath) (outside : is_within d p ≡ false) where
  pub node_at-more :
      (q : FilePath) (n : Node) (fs : Fs)
      → is_within d q ≡ true
      → node_at p ((q, n) ∷ fs) ≡ node_at p fs
  unfolding node_at
  node_at-more q n fs h = ground (arith, ==_iff q p)

  pub gone_elsewhere :
      (gone : FilePath → Bool)
      → ((q : FilePath) → gone q ≡ true → is_within d q ≡ true)
      → gone p ≡ false
  gone_elsewhere gone h = ground (arith, h p)

pub node_at-mkdir_from :
    (e : FilePath) (rest : List String) (p : FilePath) (fs : Fs)
    → node_at p fs ≡ some dir
    → node_at p (mkdir_from e rest fs).1 ≡ some dir
unfolding mkdir_from node_at
node_at-mkdir_from e [] p fs h = h
node_at-mkdir_from e (a ∷ rest) p fs h = ground (
  arith,
  node_at-mkdir_from (e / a) rest p fs,
  node_at-mkdir_from (e / a) rest p ((e / a, dir) ∷ fs),
)

pub DirsTo-map :
    (e : FilePath) (rest : List String) (a : String) (fs fs' : Fs)
    → ((p : FilePath)
        → is_within (e ++ (rest / a)) p ≡ false
        → node_at p fs ≡ some dir
        → node_at p fs' ≡ some dir)
    → DirsTo e rest fs
    → DirsTo e rest fs'
DirsTo-map e [] a fs fs' h k = tt
DirsTo-map e (b ∷ rest) a fs fs' h (there, k) = (
  h (e / b)
      (subst (λ d. is_within d (e / b) ≡ false) (join-append e b (rest / a))
        (not_within_join (e / b) rest a))
      there,
  DirsTo-map (e / b) rest a fs fs'
      (subst
        (λ (d : FilePath).
          (p : FilePath)
          → is_within d p ≡ false
          → node_at p fs ≡ some dir
          → node_at p fs' ≡ some dir)
        (sym (join-append e b (rest / a))) h)
      k,
)
