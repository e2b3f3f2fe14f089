-- ===== src/Config/Reader.antt =====
-- hub/configutils/config_reader.go. A method takes the reader and returns what becomes of it. The
-- reader's mutex is left out: each method runs alone.
pub mod Laws
pub mod Keeps
pub mod Again
use gpupgrade.Base.{
  String, ℤ, minus_one, int_eq, Bool, true, false, Option, none, some, List, [], ◌∷◌, ◌==◌,
  string_eq, if◌then◌else◌, find_first, any,
}
use gpupgrade.System.{FilePath, Error, plain, Result, ok, err, Sys, pure, ◌>>=◌, read_file}
use gpupgrade.Config.Segment.{
  Segment, ClusterConfig, Codec, MapOrder, get_config_file_path, get_new_cluster_config_file_path,
}

pub record Reader : Type 0 where
  pub config : List Segment
  -- `none` is the empty text: no file was named
  pub file_location : Option FilePath
  pub bin_dir : String
  pub is_initialized : Bool

abbrev pub new_reader : Reader
new_reader = record { config = []; file_location = none; bin_dir = ""; is_initialized = false }

unfoldable pub of_old_cluster_config : FilePath → Reader → Reader
of_old_cluster_config base r = if r.is_initialized then r else record r {
  file_location = some (get_config_file_path base);
  config = [];
  is_initialized = true;
}

unfoldable pub of_new_cluster_config : FilePath → Reader → Reader
of_new_cluster_config base r = if r.is_initialized then r else record r {
  file_location = some (get_new_cluster_config_file_path base);
  config = [];
  is_initialized = true;
}

-- The keys of `hostnamesSeen`, each once.
unfoldable pub hostnames_seen : List Segment → List String → List String
hostnames_seen [] seen = seen
hostnames_seen (s ∷ segments) seen =
    hostnames_seen segments (if any (λ h. h == s.hostname) seen then seen else s.hostname ∷ seen)

abbrev pub is_master : Segment → Bool
is_master s = s.content == minus_one

abbrev port_of : Option Segment → ℤ
port_of none = minus_one
port_of (some s) = s.port

abbrev pub datadir_of : Option Segment → String
datadir_of none = ""
datadir_of (some s) = s.datadir

abbrev pub decoded : Reader → Result ClusterConfig → Option Error × Reader
decoded r (err e) = (some e, r)
decoded r (ok c) = (none, record r { config = c.seg_config; bin_dir = c.bin_dir })

abbrev pub answered : {A : Type 0} → (Error → A) → (Reader → A) → Option Error → Reader → A
answered failed answer none r = answer r
answered failed answer (some e) r = failed e

module _ (json : Codec) where
  -- What `Read` makes of the file's contents.
  abbrev pub stored : Reader → Result String → Option Error × Reader
  stored r (err e) = (some e, r)
  stored r (ok contents) = decoded r (json.unmarshal contents)

  pub read_from : Option FilePath → Reader → Sys (Option Error × Reader)
  read_from none r = pure (some (plain "Reader file location unknown"), r)
  read_from (some path) r = do contents ← read_file path; pure (stored r contents)

  unfoldable pub read : Reader → Sys (Option Error × Reader)
  unfolding read_from
  read r = read_from r.file_location r

  -- `if len(reader.config) == 0 { err := reader.Read() … }`, with which every getter begins.
  pub load_unless : List Segment → Reader → Sys (Option Error × Reader)
  unfolding read
  load_unless [] r = read r
  load_unless (s ∷ segments) r = pure (none, r)

  unfoldable pub load : Reader → Sys (Option Error × Reader)
  unfolding load_unless
  load r = load_unless r.config r

  -- A getter: its answer if the file cannot be read, and its answer from the reader.
  abbrev pub getting : {A : Type 0} → (Error → A) → (Reader → A) → Reader → Sys (A × Reader)
  getting failed answer r = do
    loaded ← load r
    pure (answered failed answer loaded.0 loaded.1, loaded.1)

  -- -1 for not found
  unfoldable pub get_port_for_segment : ℤ → Reader → Sys (ℤ × Reader)
  get_port_for_segment dbid =
      getting (λ e. minus_one) (λ r. port_of (find_first (λ s. s.dbid == dbid) r.config))

  unfoldable pub get_hostnames : MapOrder → Reader → Sys (Result (List String) × Reader)
  unfolding hostnames_seen
  get_hostnames order = getting err (λ r. ok (order.keys (hostnames_seen r.config [])))

  unfoldable pub get_segment_configuration : Reader → Sys (List Segment × Reader)
  get_segment_configuration = getting (λ e. []) (λ r. r.config)

  unfoldable pub get_master_data_dir : Reader → Sys (String × Reader)
  unfolding get_segment_configuration
  get_master_data_dir r = do
    found ← get_segment_configuration r
    pure (datadir_of (find_first is_master found.0), found.1)

  unfoldable pub get_master : Reader → Sys (Option Segment × Reader)
  unfolding get_segment_configuration
  get_master r = do
    found ← get_segment_configuration r
    pure (find_first is_master found.0, found.1)

  unfoldable pub get_bin_dir : Reader → Sys (String × Reader)
  get_bin_dir = getting (λ e. "") (λ r. r.bin_dir)

  -- `GetBaseDir` returns the reader's file.
  unfoldable pub get_base_dir : Reader → Sys (Option FilePath × Reader)
  get_base_dir = getting (λ e. none) (λ r. r.file_location)
