-- ===== src/System/Files.antt =====
-- The file tree of a host: every directory and file with its path, and what each call of `os`
-- does to it. Contents are texts, written and measured by characters.
use Prim.Native.String.{compare}
use Prim.Native.Nat.{Ordering}
use gpupgrade.Base.{
  ℕ, String, Bool, true, false, not, ◌&&◌, Option, none, some, List, [], ◌∷◌, ◌==◌, string_eq,
  list_eq, select, any, ◌≡◌, refl, ◌⊎◌, inl, inr, if◌then◌else◌,
}
use gpupgrade.System.Path.{FilePath, ◌/◌, is_within, Pattern, path_matches}

-- Go's `error` values that the program tells apart, each with its text.
pub data Error : Type 0 where
  -- `errors.New`, `fmt.Errorf`, and every error of a library
  plain : String → Error
  -- those for which `os.IsNotExist` and `os.IsExist` hold
  not_exist : Error
  exist : Error
  -- `utils.DatabaseConnectionError{Parent: err}`
  database_connection : Error → Error

pub data Result {ℓ} (A : Type ℓ) : Type ℓ where
  ok : A → Result A
  err : Error → Result A

pub Result-cases {ℓ} :
    {A : Type ℓ} (r : Result A) → ((e : Error) × (r ≡ err e)) ⊎ ((a : A) × (r ≡ ok a))
Result-cases (ok a) = inr (a, refl)
Result-cases (err e) = inl (e, refl)

pub data Node : Type 0 where
  dir : Node
  -- a file's content and the time of its last change
  file : String → ℕ → Node

abbrev pub Fs : Type 0
Fs = List (FilePath × Node)

unfoldable pub node_at : FilePath → Fs → Option Node
node_at p [] = none
node_at p ((q, n) ∷ fs) = let rest = node_at p fs in if q == p then some n else rest

unfoldable pub is_dir : FilePath → Fs → Bool
unfolding node_at
is_dir [] fs = true
is_dir (a ∷ p) fs = elim (node_at (a ∷ p) fs) [ some dir ↦ true | _ ↦ false ]

abbrev pub parent : FilePath → FilePath
parent [] = []
parent (a ∷ []) = []
parent (a ∷ b ∷ p) = a ∷ parent (b ∷ p)

abbrev pub paths : Fs → List FilePath
paths [] = []
paths ((q, n) ∷ fs) = q ∷ paths fs

-- The tree without the entries that pass a test on their paths.
unfoldable pub without : (FilePath → Bool) → Fs → Fs
without gone [] = []
without gone ((q, n) ∷ fs) = let rest = without gone fs in if gone q then rest else (q, n) ∷ rest

-- `os.Stat`
unfoldable pub stat_file : FilePath → Fs → Result Node
unfolding node_at
stat_file p fs = elim (node_at p fs) [ none ↦ err not_exist | some n ↦ ok n ]

-- `os.ReadFile`
unfoldable pub read_content : FilePath → Fs → Result String
unfolding node_at
read_content p fs = elim (node_at p fs) [
  | none ↦ err not_exist
  | some dir ↦ err (plain "is a directory")
  | some (file text t) ↦ ok text
]

-- `os.OpenFile` with `os.O_CREATE` and no `os.O_TRUNC`: the file is there afterwards, and what it
-- held is kept.
unfoldable pub create_file : ℕ → FilePath → Fs → Option Error × Fs
unfolding node_at is_dir
create_file now p fs = elim (node_at p fs) [
  | some dir ↦ (some (plain "is a directory"), fs)
  | some (file text t) ↦ (none, fs)
  | none ↦ if is_dir (parent p) fs then (none, (p, file "" now) ∷ fs) else (some not_exist, fs)
]

-- `os.Remove`: a file, or a directory with nothing in it.
unfoldable pub remove_file : FilePath → Fs → Option Error × Fs
unfolding node_at without is_within
remove_file p fs = elim (node_at p fs) [
  | none ↦ (some not_exist, fs)
  | some n ↦
      if any (λ q. is_within p q && not (q == p)) (paths fs)
      then (some (plain "directory not empty"), fs)
      else (none, without (λ q. q == p) fs)
]

-- `os.RemoveAll`: nothing to remove is no error.
unfoldable pub remove_tree : FilePath → Fs → Option Error × Fs
unfolding without is_within
remove_tree p fs = (none, without (is_within p) fs)

-- `os.MkdirAll`, from a directory that is there downwards.
unfoldable pub mkdir_from : FilePath → List String → Fs → Option Error × Fs
unfolding node_at
mkdir_from d [] fs = (none, fs)
mkdir_from d (a ∷ rest) fs =
    let deeper = mkdir_from (d / a) rest fs in
    let made = mkdir_from (d / a) rest ((d / a, dir) ∷ fs) in
    elim (node_at (d / a) fs) [
      | none ↦ made
      | some dir ↦ deeper
      | some (file text t) ↦ (some (plain "not a directory"), fs)
    ]

unfoldable pub mkdir_tree : FilePath → Fs → Option Error × Fs
unfolding mkdir_from
mkdir_tree p fs = mkdir_from [] p fs

-- `filepath.Glob` sorts the names that it finds.
abbrev path_le : FilePath → FilePath → Bool
path_le [] q = true
path_le (a ∷ p) [] = false
path_le (a ∷ p) (b ∷ q) =
    let rest = path_le p q in
    elim (compare a b) [ Ordering.lt ↦ true | Ordering.gt ↦ false | Ordering.eq ↦ rest ]

unfoldable pub insert_path : FilePath → List FilePath → List FilePath
insert_path p [] = p ∷ []
insert_path p (q ∷ qs) = let rest = insert_path p qs in if path_le p q then p ∷ q ∷ qs else q ∷ rest

unfoldable pub sort_paths : List FilePath → List FilePath
unfolding insert_path
sort_paths [] = []
sort_paths (p ∷ ps) = insert_path p (sort_paths ps)

-- The paths that a pattern matches, in the order in which the tree lists them.
unfoldable pub matching : Pattern → Fs → List FilePath
unfolding path_matches
matching pat fs = select (path_matches pat) (paths fs)

unfoldable pub glob_files : Pattern → Fs → List FilePath
unfolding matching sort_paths
glob_files pat fs = sort_paths (matching pat fs)

-- What a file holds after a write at its start: the text, and what stood behind its length before.
unfoldable pub overwrite : String → String → String
overwrite String.[] old = old
overwrite (String.◌∷◌ c text) String.[] = String.◌∷◌ c text
overwrite (String.◌∷◌ c text) (String.◌∷◌ d old) = String.◌∷◌ c (overwrite text old)

unfoldable pub set_node : FilePath → Node → Fs → Fs
set_node p n [] = []
set_node p n ((q, m) ∷ fs) = if q == p then (p, n) ∷ fs else (q, m) ∷ set_node p n fs

-- `Write` to a file that was opened for writing and not truncated.
unfoldable pub write_content : ℕ → String → FilePath → Fs → Option Error × Fs
unfolding node_at overwrite set_node
write_content now text p fs = elim (node_at p fs) [
  | none ↦ (some not_exist, fs)
  | some dir ↦ (some (plain "is a directory"), fs)
  | some (file old t) ↦ (none, set_node p (file (overwrite text old) now) fs)
]

-- `os.OpenFile` with `os.O_CREATE|os.O_TRUNC`.
unfoldable pub truncate_file : ℕ → FilePath → Fs → Option Error × Fs
unfolding node_at is_dir set_node
truncate_file now p fs = elim (node_at p fs) [
  | some dir ↦ (some (plain "is a directory"), fs)
  | some (file text t) ↦ (none, set_node p (file "" now) fs)
  | none ↦ if is_dir (parent p) fs then (none, (p, file "" now) ∷ fs) else (some not_exist, fs)
]

-- `os.Mkdir`: one directory, in one that is there.
unfoldable pub make_dir : FilePath → Fs → Option Error × Fs
unfolding node_at is_dir
make_dir p fs = elim (node_at p fs) [
  | some n ↦ (some exist, fs)
  | none ↦ if is_dir (parent p) fs then (none, (p, dir) ∷ fs) else (some not_exist, fs)
]
