-- ===== src/Config/Segment.antt =====
-- hub/configutils/config.go, and what the model takes from outside: JSON, and the order of Go's maps.
use gpupgrade.Base.{ℕ, suc, String, ℤ, ◌≡◌, List, [], ◌∷◌, ◌==◌, string_eq, if◌then◌else◌, All}
use gpupgrade.System.{FilePath, ◌/◌, Result}

pub record Segment : Type 0 where
  pub address : String
  pub content : ℤ
  pub datadir : String
  pub dbid : ℤ
  pub hostname : String
  pub mode : String
  pub status : String
  pub port : ℤ
  pub preferred_role : String
  pub role : String

pub record ClusterConfig : Type 0 where
  pub seg_config : List Segment
  pub bin_dir : String

abbrev pub get_config_file_path : FilePath → FilePath
get_config_file_path base = base / "cluster_config.json"

abbrev pub get_version_file_path : FilePath → FilePath
get_version_file_path base = base / "cluster_version.json"

abbrev pub get_new_cluster_config_file_path : FilePath → FilePath
get_new_cluster_config_file_path base = base / "new_cluster_config.json"

-- `json.Marshal` and `json.Unmarshal` at `ClusterConfig`.
pub record Codec : Type 0 where
  pub marshal : ClusterConfig → Result String
  pub unmarshal : String → Result ClusterConfig

-- How often an element stands in a list.
abbrev pub times : String → List String → ℕ
times x [] = 0
times x (y ∷ l) = let rest = times x l in if x == y then suc rest else rest

-- `range` over a map visits every key once, in an order that Go leaves open.
pub record MapOrder : Type 0 where
  pub keys : List String → List String
  pub keys-times : (x : String) (l : List String) → times x (keys l) ≡ times x l

-- The same for a map from content ids to segments, as the list of its segments.
pub record SegmentOrder : Type 1 where
  pub range : List Segment → List Segment
  pub range-All : (P : Segment → Type 0) (l : List Segment) → All P l → All P (range l)
  pub All-range : (P : Segment → Type 0) (l : List Segment) → All P (range l) → All P l
