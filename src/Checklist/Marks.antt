-- ===== src/Checklist/Marks.antt =====
-- A step's directory with at most one marker file, and what each file operation does to it.
use gpupgrade.Base.{
  ℕ, String, true, false, not, ◌&&◌, ◌≡◌, refl, sym, ◌∙◌, ◌≢◌, ap, Option, none, some, [], ◌∷◌,
  arith, ◌==◌, list_eq, string_eq, ==_iff, any,
}
use gpupgrade.System.{
  FilePath, ◌/◌, is_within, Fs, dir, file, node_at, is_dir, parent, without, paths, create_file,
  not_exist, remove_file, mkdir_tree,
}
use gpupgrade.System.PathLaws.{is_within_self, is_within-append, not_within_shorter}
use gpupgrade.System.FilesLaws.{
  subtree, subtree-cons, node_at-subtree, subtree-without, any-subtree, subtree-mkdir_from,
  subtree-mkdir_failed, node_at_empty,
}

-- The directory is there and holds nothing, or one empty file of that name.
abbrev pub Holds : FilePath → Option String → Fs → Type 0
Holds d none fs = subtree d fs ≡ (d, dir) ∷ []
Holds d (some name) fs = (t : ℕ) × (subtree d fs ≡ (d / name, file "" t) ∷ (d, dir) ∷ [])

ne_child : (d : FilePath) (name : String) → (d == d / name) ≡ false
ne_child [] name = refl
ne_child (a ∷ d) name = ground (arith, ne_child d name)

pub child_ne : (d : FilePath) (name : String) → (d / name == d) ≡ false
child_ne [] name = refl
child_ne (a ∷ d) name = ground (arith, child_ne d name)

pub child_eq : (d : FilePath) (a b : String) → (d / a == d / b) ≡ (a == b)
child_eq [] a b = ground arith
child_eq (x ∷ d) a b = ground (arith, ==_iff x x, child_eq d a b)

parent-child : (d : FilePath) (name : String) → parent (d / name) ≡ d
parent-child [] name = refl
parent-child (a ∷ []) name = refl
parent-child (a ∷ b ∷ d) name = ap (λ p. a ∷ p) (parent-child (b ∷ d) name)

is_dir_of_node : (d : FilePath) (fs : Fs) → node_at d fs ≡ some dir → is_dir d fs ≡ true
unfolding is_dir
is_dir_of_node [] fs h = refl
is_dir_of_node (a ∷ d) fs h = ground arith

not_dir :
    (base : FilePath) (step : String) (fs : Fs)
    → node_at (base / step) fs ≡ none
    → is_dir (base / step) fs ≡ false
unfolding is_dir
not_dir [] step fs h = ground arith
not_dir (a ∷ base) step fs h = ground arith

node_in :
    (d p : FilePath) (fs found : Fs)
    → is_within d p ≡ true
    → subtree d fs ≡ found
    → node_at p fs ≡ node_at p found
node_in d p fs found h e = sym (node_at-subtree d p fs h) ∙ ap (node_at p) e

create_absent :
    (d : FilePath) (name : String) (now : ℕ) (fs : Fs)
    → node_at (d / name) fs ≡ none
    → node_at d fs ≡ some dir
    → create_file now (d / name) fs ≡ (none, (d / name, file "" now) ∷ fs)
unfolding create_file
create_absent d name now fs h k = ground (arith, parent-child d name, is_dir_of_node d fs k)

node_at_clean : (d : FilePath) (fs : Fs) → Holds d none fs → node_at d fs ≡ some dir
unfolding node_at
node_at_clean d fs h = node_in d d fs _ (is_within_self d) h ∙ ground (arith, ==_iff d d)

-- The first marker of an empty directory.
pub create_file-Holds :
    (d : FilePath) (name : String) (now : ℕ) (fs : Fs)
    → Holds d none fs
    → ((create_file now (d / name) fs).0 ≡ none)
      × Holds d (some name) (create_file now (d / name) fs).1
unfolding node_at
create_file-Holds d name now fs h =
    let absent : node_at (d / name) fs ≡ none =
      node_in d (d / name) fs _ (is_within-append d (name ∷ [])) h
      ∙ ground (arith, ne_child d name) in
    rw (create_absent d name now fs absent (node_at_clean d fs h)) (
      refl,
      (
        now,
        ground (arith, subtree-cons d (d / name) (file "" now) fs, is_within-append d (name ∷ [])),
      ),
    )

-- Marking again what is marked changes nothing.
pub create_file_again :
    (d : FilePath) (name : String) (now : ℕ) (fs : Fs)
    → Holds d (some name) fs
    → create_file now (d / name) fs ≡ (none, fs)
unfolding create_file node_at
create_file_again d name now fs (t, h) =
    let found : node_at (d / name) fs ≡ some (file "" t) =
      node_in d (d / name) fs _ (is_within-append d (name ∷ [])) h
      ∙ ground (arith, ==_iff (d / name) (d / name)) in
    ground arith

remove_marker :
    (d : FilePath) (name : String) (fs : Fs) (t : ℕ)
    → subtree d fs ≡ (d / name, file "" t) ∷ (d, dir) ∷ []
    → remove_file (d / name) fs ≡ (none, without (λ q. q == d / name) fs)
unfolding remove_file node_at
remove_marker d name fs t h =
    let found : node_at (d / name) fs ≡ some (file "" t) =
      node_in d (d / name) fs _ (is_within-append d (name ∷ [])) h
      ∙ ground (arith, ==_iff (d / name) (d / name)) in
    let inside : any (λ q. is_within (d / name) q && not (q == d / name)) (paths fs) ≡ false =
      sym (any-subtree d (d / name) fs (is_within-append d (name ∷ [])))
      ∙ ap (λ l. any (λ q. is_within (d / name) q && not (q == d / name)) (paths l)) h
      ∙ ground (arith, ==_iff (d / name) (d / name), not_within_shorter d name []) in
    ground arith

without_marker :
    (d : FilePath) (name : String) (t : ℕ)
    → without (λ q. q == d / name) ((d / name, file "" t) ∷ (d, dir) ∷ []) ≡ (d, dir) ∷ []
unfolding without
without_marker d name t = ground (arith, ==_iff (d / name) (d / name), ne_child d name)

-- Removing the marker leaves the directory empty.
pub remove_file-Holds :
    (d : FilePath) (name : String) (fs : Fs)
    → Holds d (some name) fs
    → ((remove_file (d / name) fs).0 ≡ none) × Holds d none (remove_file (d / name) fs).1
unfolding node_at
remove_file-Holds d name fs (t, h) = rw (remove_marker d name fs t h) (
  refl,
  subtree-without d (λ q. q == d / name) fs
      ∙ ap (without (λ q. q == d / name)) h
      ∙ without_marker d name t,
)

-- Removing a marker that is not there is an error and changes nothing.
pub remove_file_other :
    (d : FilePath) (name other : String) (fs : Fs)
    → Holds d (some other) fs
    → other ≢ name
    → ((remove_file (d / name) fs).0 ≢ none) × ((remove_file (d / name) fs).1 ≡ fs)
unfolding remove_file
remove_file_other d name other fs (t, h) ne =
    let absent : node_at (d / name) fs ≡ none =
      node_in d (d / name) fs _ (is_within-append d (name ∷ [])) h
      ∙ unfold node_at in
        ground (arith, ne_child d name, child_eq d other name, ==_iff other name) in
    ground arith

pub remove_file_clean :
    (d : FilePath) (name : String) (fs : Fs)
    → Holds d none fs
    → ((remove_file (d / name) fs).0 ≢ none) × ((remove_file (d / name) fs).1 ≡ fs)
unfolding remove_file
remove_file_clean d name fs h =
    let absent : node_at (d / name) fs ≡ none =
      node_in d (d / name) fs _ (is_within-append d (name ∷ [])) h
      ∙ unfold node_at in ground (arith, ne_child d name) in
    ground arith

-- A second marker.
pub create_second :
    (d : FilePath) (name other : String) (now : ℕ) (fs : Fs)
    → Holds d (some other) fs
    → other ≢ name
    → create_file now (d / name) fs ≡ (none, (d / name, file "" now) ∷ fs)
unfolding node_at
create_second d name other now fs (t, h) ne =
    let absent : node_at (d / name) fs ≡ none =
      node_in d (d / name) fs _ (is_within-append d (name ∷ [])) h
      ∙ ground (arith, ne_child d name, child_eq d other name, ==_iff other name) in
    let there : node_at d fs ≡ some dir =
      node_in d d fs _ (is_within_self d) h ∙ ground (arith, ==_iff d d, child_ne d other) in
    create_absent d name now fs absent there

-- `os.RemoveAll` and then `os.MkdirAll`, whatever was there.
pub mkdir_tree-Holds :
    (d : FilePath) (a : String) (fs : Fs)
    → subtree (d / a) fs ≡ []
    → (mkdir_tree (d / a) fs).0 ≡ none
    → Holds (d / a) none (mkdir_tree (d / a) fs).1
unfolding mkdir_tree
mkdir_tree-Holds [] a fs h k = subtree-mkdir_from [] a [] fs h k
mkdir_tree-Holds (b ∷ d) a fs h k = subtree-mkdir_from [] b (d / a) fs h k

pub mkdir_tree_failed :
    (d : FilePath) (a : String) (fs : Fs)
    → subtree (d / a) fs ≡ []
    → (mkdir_tree (d / a) fs).0 ≢ none
    → subtree (d / a) (mkdir_tree (d / a) fs).1 ≡ []
unfolding mkdir_tree
mkdir_tree_failed [] a fs h k = subtree-mkdir_failed [] a [] fs h k
mkdir_tree_failed (b ∷ d) a fs h k = subtree-mkdir_failed [] b (d / a) fs h k

-- In a directory that is not there, no marker can be made or removed.
pub create_file_missing :
    (base : FilePath) (step name : String) (now : ℕ) (fs : Fs)
    → subtree (base / step) fs ≡ []
    → create_file now (base / step / name) fs ≡ (some not_exist, fs)
unfolding create_file
create_file_missing base step name now fs h =
    let d = base / step in
    let absent : node_at (d / name) fs ≡ none =
      node_in d (d / name) fs _ (is_within-append d (name ∷ [])) h ∙ unfold node_at in refl in
    ground (arith, parent-child d name, not_dir base step fs (node_at_empty d fs h))

pub remove_file_missing :
    (d : FilePath) (name : String) (fs : Fs)
    → subtree d fs ≡ []
    → remove_file (d / name) fs ≡ (some not_exist, fs)
unfolding remove_file
remove_file_missing d name fs h =
    let absent : node_at (d / name) fs ≡ none =
      node_in d (d / name) fs _ (is_within-append d (name ∷ [])) h ∙ unfold node_at in refl in
    ground arith
