-- ===== src/Config/Reader/Keeps.antt =====
-- hub/configutils/config_reader.go: the files around the getters of a reader.
use gpupgrade.Base.{find_first, Option, none, some, List, [], ◌∷◌}
use gpupgrade.System.{FilePath, ok, err, read_file}
use gpupgrade.System.Keeps.{Keeps, Keeps-pure, Keeps-bind, Keeps-reading}
use gpupgrade.Config.Segment.{Segment, Codec, MapOrder}
use gpupgrade.Config.Reader.{
  Reader, read, read_from, load, load_unless, stored, answered, hostnames_seen, get_hostnames,
  get_segment_configuration, get_master_data_dir, datadir_of, is_master,
}

module _ (d : FilePath) (json : Codec) where
  read_from-Keeps : (p : Option FilePath) (r : Reader) → Keeps d (read_from json p r)
  unfolding read_from read_file
  read_from-Keeps none r = Keeps-pure d _
  read_from-Keeps (some path) r =
      Keeps-bind d (read_file path) _ (Keeps-reading d err _)
        λ contents. Keeps-pure d (stored json r contents)

  load-Keeps : (segments : List Segment) (r : Reader) → Keeps d (load_unless json segments r)
  unfolding load_unless read
  load-Keeps [] r = read_from-Keeps r.file_location r
  load-Keeps (s ∷ segments) r = Keeps-pure d _

  pub get_hostnames-Keeps : (order : MapOrder) (r : Reader) → Keeps d (get_hostnames json order r)
  unfolding get_hostnames load
  get_hostnames-Keeps order r = Keeps-bind d (load json r) _ (load-Keeps r.config r) λ loaded.
      Keeps-pure d (
        answered err (λ r. ok (order.keys (hostnames_seen r.config []))) loaded.0 loaded.1,
        loaded.1,
      )

  pub get_segment_configuration-Keeps : (r : Reader) → Keeps d (get_segment_configuration json r)
  unfolding get_segment_configuration load
  get_segment_configuration-Keeps r =
      Keeps-bind d (load json r) _ (load-Keeps r.config r)
        λ loaded. Keeps-pure d (answered (λ e. []) (λ r. r.config) loaded.0 loaded.1, loaded.1)

  pub get_master_data_dir-Keeps : (r : Reader) → Keeps d (get_master_data_dir json r)
  unfolding get_master_data_dir
  get_master_data_dir-Keeps r =
      Keeps-bind d (get_segment_configuration json r) _ (get_segment_configuration-Keeps r)
        λ found. Keeps-pure d (datadir_of (find_first is_master found.0), found.1)
