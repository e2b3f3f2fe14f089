-- ===== src/System/FilesLaws.antt =====
-- The part of a tree that lies in one directory: what each call does to it, and that calls elsewhere
-- leave it alone.
use gpupgrade.Base.{
  String, Bool, true, false, not, ◌&&◌, ◌≡◌, ◌≢◌, refl, sym, ◌∙◌, none, List, [], ◌∷◌, ◌++◌, arith,
  ◌==◌, list_eq, string_eq, ==_iff, any, if◌then◌else◌, ap, length, suc,
}
use gpupgrade.System.Path.{FilePath, ◌/◌, is_within, below, Part, Pattern, path_matches}
use gpupgrade.System.PathLaws.{
  is_within_trans, is_within_self, is_within-append, not_within_prefix, not_within_shorter,
  join-append,
}
use gpupgrade.System.Files.{
  Fs, Node, dir, node_at, without, paths, matching, mkdir_from, glob_files, sort_paths, insert_path,
}

-- The entries of a directory, itself and all below it.
unfoldable pub subtree : FilePath → Fs → Fs
unfolding without
subtree d fs = without (λ q. not (is_within d q)) fs

-- All of a tree lies in the root.
pub subtree_root : (fs : Fs) → subtree [] fs ≡ fs
unfolding subtree without is_within below
subtree_root [] = refl
subtree_root ((q, n) ∷ fs) = rw (subtree_root fs) refl

pub subtree-cons :
    (d q : FilePath) (n : Node) (fs : Fs)
    → subtree d ((q, n) ∷ fs) ≡ (if is_within d q then (q, n) ∷ subtree d fs else subtree d fs)
unfolding subtree
subtree-cons d q n fs = ground arith

pub node_at-without :
    (gone : FilePath → Bool) (p : FilePath) (fs : Fs)
    → gone p ≡ false
    → node_at p (without gone fs) ≡ node_at p fs
unfolding node_at without
node_at-without gone p [] h = refl
node_at-without gone p ((q, n) ∷ fs) h = ground (arith, ==_iff q p, node_at-without gone p fs h)

pub node_at-subtree :
    (d p : FilePath) (fs : Fs) → is_within d p ≡ true → node_at p (subtree d fs) ≡ node_at p fs
unfolding subtree
node_at-subtree d p fs h = node_at-without (λ q. not (is_within d q)) p fs (rw h)

pub without-without :
    (g h : FilePath → Bool) (fs : Fs) → without g (without h fs) ≡ without h (without g fs)
unfolding without
without-without g h [] = refl
without-without g h ((q, n) ∷ fs) = ground (arith, without-without g h fs)

pub subtree-without :
    (d : FilePath) (gone : FilePath → Bool) (fs : Fs)
    → subtree d (without gone fs) ≡ without gone (subtree d fs)
unfolding subtree
subtree-without d gone fs = without-without (λ q. not (is_within d q)) gone fs

-- Removing what lies elsewhere leaves the subtree.
pub subtree-without_apart :
    (d : FilePath) (gone : FilePath → Bool) (fs : Fs)
    → ((q : FilePath) → gone q ≡ true → is_within d q ≡ false)
    → subtree d (without gone fs) ≡ subtree d fs
unfolding subtree without
subtree-without_apart d gone [] apart = refl
subtree-without_apart d gone ((q, n) ∷ fs) apart =
    ground (arith, apart q, subtree-without_apart d gone fs apart)

-- What lies in a directory of a directory.
pub subtree-subtree :
    (d e : FilePath) (fs : Fs) → is_within d e ≡ true → subtree e (subtree d fs) ≡ subtree e fs
unfolding subtree
subtree-subtree d e fs h =
    subtree-without_apart e (λ q. not (is_within d q)) fs
      (λ q k. ground (arith, is_within_trans d e q h))

pub subtree-remove_tree : (d : FilePath) (fs : Fs) → subtree d (without (is_within d) fs) ≡ []
unfolding subtree without
subtree-remove_tree d [] = refl
subtree-remove_tree d ((q, n) ∷ fs) = ground (arith, subtree-remove_tree d fs)

-- A pattern below a directory sees its subtree only.
pub matching-subtree :
    (d : FilePath) (parts : List Part) (fs : Fs)
    → let pat : Pattern = record { dir = d; parts = parts } in
      matching pat (subtree d fs) ≡ matching pat fs
unfolding subtree matching path_matches without is_within
matching-subtree d parts [] = refl
matching-subtree d parts ((q, n) ∷ fs) = ground (arith, matching-subtree d parts fs)

pub glob-subtree :
    (d : FilePath) (parts : List Part) (fs : Fs)
    → let pat : Pattern = record { dir = d; parts = parts } in
      glob_files pat (subtree d fs) ≡ glob_files pat fs
unfolding glob_files
glob-subtree d parts fs = ap sort_paths (matching-subtree d parts fs)

length-insert_path :
    (p : FilePath) (ps : List FilePath) → length (insert_path p ps) ≡ suc (length ps)
unfolding insert_path
length-insert_path p [] = refl
length-insert_path p (q ∷ ps) = ground (arith, length-insert_path p ps)

length-sort_paths : (ps : List FilePath) → length (sort_paths ps) ≡ length ps
unfolding sort_paths
length-sort_paths [] = refl
length-sort_paths (p ∷ ps) =
    ground (arith, length-insert_path p (sort_paths ps), length-sort_paths ps)

-- Sorting the names loses none of them.
pub length-glob : (pat : Pattern) (fs : Fs) → length (glob_files pat fs) ≡ length (matching pat fs)
unfolding glob_files
length-glob pat fs = length-sort_paths (matching pat fs)

pub any-subtree :
    (d p : FilePath) (fs : Fs)
    → is_within d p ≡ true
    → any (λ q. is_within p q && not (q == p)) (paths (subtree d fs))
      ≡ any (λ q. is_within p q && not (q == p)) (paths fs)
unfolding subtree without
any-subtree d p [] h = refl
any-subtree d p ((q, n) ∷ fs) h = ground (arith, is_within_trans d p q h, any-subtree d p fs h)

pub node_at_empty : (d : FilePath) (fs : Fs) → subtree d fs ≡ [] → node_at d fs ≡ none
unfolding node_at
node_at_empty d fs h = sym (node_at-subtree d d fs (is_within_self d)) ∙ rw h

subtree-mkdir_prefix :
    (e : FilePath) (a b : String) (rest : List String) (fs : Fs)
    → subtree (e ++ (a ∷ b ∷ rest)) ((e / a, dir) ∷ fs) ≡ subtree (e ++ (a ∷ b ∷ rest)) fs
subtree-mkdir_prefix e a b rest fs =
    rw (← join-append e a (b ∷ rest), subtree-cons, not_within_shorter)

-- `os.MkdirAll` of a directory with nothing in it leaves it there and empty.
pub subtree-mkdir_from :
    (e : FilePath) (a : String) (rest : List String) (fs : Fs)
    → subtree (e ++ (a ∷ rest)) fs ≡ []
    → (mkdir_from e (a ∷ rest) fs).0 ≡ none
    → subtree (e ++ (a ∷ rest)) (mkdir_from e (a ∷ rest) fs).1 ≡ (e ++ (a ∷ rest), dir) ∷ []
unfolding mkdir_from
subtree-mkdir_from e a [] fs h k =
    ground (
      arith,
      node_at_empty (e / a) fs h,
      subtree-cons (e / a) (e / a) dir fs,
      is_within_self (e / a),
    )
subtree-mkdir_from e a (b ∷ rest) fs h k = ground (
  arith,
  join-append e a (b ∷ rest),
  subtree-mkdir_prefix e a b rest fs,
  subtree-mkdir_from (e / a) b rest fs,
  subtree-mkdir_from (e / a) b rest ((e / a, dir) ∷ fs),
)

-- `os.MkdirAll` of another directory.
pub subtree-mkdir_apart :
    (d e : FilePath) (rest : List String) (fs : Fs)
    → is_within d (e ++ rest) ≡ false
    → subtree d (mkdir_from e rest fs).1 ≡ subtree d fs
unfolding mkdir_from
subtree-mkdir_apart d e [] fs h = refl
subtree-mkdir_apart d e (a ∷ rest) fs h = ground (
  arith,
  join-append e a rest,
  not_within_prefix d (e / a) (e ++ (a ∷ rest)) h,
  is_within-append (e / a) rest,
  subtree-cons d (e / a) dir fs,
  subtree-mkdir_apart d (e / a) rest fs,
  subtree-mkdir_apart d (e / a) rest ((e / a, dir) ∷ fs),
)

-- Where it fails, it has not made the directory.
pub subtree-mkdir_failed :
    (e : FilePath) (a : String) (rest : List String) (fs : Fs)
    → subtree (e ++ (a ∷ rest)) fs ≡ []
    → (mkdir_from e (a ∷ rest) fs).0 ≢ none
    → subtree (e ++ (a ∷ rest)) (mkdir_from e (a ∷ rest) fs).1 ≡ []
unfolding mkdir_from
subtree-mkdir_failed e a [] fs h k = ground (arith, node_at_empty (e / a) fs h)
subtree-mkdir_failed e a (b ∷ rest) fs h k = ground (
  arith,
  join-append e a (b ∷ rest),
  subtree-mkdir_prefix e a b rest fs,
  subtree-mkdir_failed (e / a) b rest fs,
  subtree-mkdir_failed (e / a) b rest ((e / a, dir) ∷ fs),
)
