-- ===== src/System/Path.antt =====
-- File paths by their components, so that `filepath.Join(p, "a")` is `p / "a"`, and the patterns
-- of `filepath.Glob` that the program uses.
use gpupgrade.Base.{
  String, Bool, true, false, Option, none, some, List, [], ◌∷◌, ◌++◌, ◌==◌, ◌&&◌, string_eq,
  if◌then◌else◌, after_prefix, has_suffix, ◌<>◌,
}

-- The components of an absolute path; `[]` is the root.
abbrev pub FilePath : Type 0
FilePath = List String

-- `filepath.Join(p, name)`
infixl 68 ◌/◌
abbrev pub ◌/◌ : FilePath → String → FilePath
p / name = p ++ (name ∷ [])

-- The rest of a path below a directory, if it lies there.
unfoldable pub below : FilePath → FilePath → Option FilePath
below [] q = some q
below (a ∷ d) [] = none
below (a ∷ d) (b ∷ q) = let rest = below d q in if a == b then rest else none

-- A path is the directory itself or lies in it, at any depth.
abbrev pub is_some {ℓ} : {A : Type ℓ} → Option A → Bool
is_some none = false
is_some (some a) = true

unfoldable pub is_within : FilePath → FilePath → Bool
is_within d q = is_some (below d q)

-- One component of a pattern: a name, `*`, or `*` between two texts.
pub data Part : Type 0 where
  name : String → Part
  star : Part
  around : String → String → Part

-- What follows the text before `*` ends with the text after it, so the two do not overlap.
abbrev ends_with : Option String → String → Bool
ends_with none after = false
ends_with (some rest) after = has_suffix rest after

unfoldable pub part_matches : Part → String → Bool
unfolding after_prefix has_suffix
part_matches (name s) t = s == t
part_matches star t = true
part_matches (around before after) t = ends_with (after_prefix before t) after

-- `filepath.Glob(dir + "/" + parts)`
pub record Pattern : Type 0 where
  pub dir : FilePath
  pub parts : List Part

unfoldable pub parts_match : List Part → FilePath → Bool
unfolding part_matches
parts_match [] [] = true
parts_match [] (t ∷ q) = false
parts_match (p ∷ ps) [] = false
parts_match (p ∷ ps) (t ∷ q) = part_matches p t && parts_match ps q

abbrev pub rest_matches : List Part → Option FilePath → Bool
rest_matches ps none = false
rest_matches ps (some q) = parts_match ps q

unfoldable pub path_matches : Pattern → FilePath → Bool
unfolding below parts_match
path_matches pat q = rest_matches pat.parts (below pat.dir q)

-- The text of a path, as commands are given it.
components_text : FilePath → String
components_text [] = ""
components_text (a ∷ p) = "/" <> (a <> components_text p)

unfoldable pub path_text : FilePath → String
unfolding components_text
path_text [] = "/"
path_text (a ∷ p) = components_text (a ∷ p)
