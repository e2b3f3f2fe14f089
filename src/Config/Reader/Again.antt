-- ===== src/Config/Reader/Again.antt =====
-- hub/configutils/config_reader.go: the second use of a reader.
use gpupgrade.Base.{
  String, ℤ, minus_one, int_eq, true, false, ◌≡◌, refl, ◌∙◌, ◌≢◌, Option, none, some, List, [], ◌∷◌,
  arith, ◌==◌, Option-cases, List-cases, inl, inr,
}
use gpupgrade.System.{FilePath, Result, ok, err, World, read_file}
use gpupgrade.Config.Segment.{Segment, ClusterConfig, Codec}
use gpupgrade.Config.Reader.{
  Reader, of_old_cluster_config, of_new_cluster_config, stored, decoded, read, read_from, load,
  load_unless, get_port_for_segment, get_segment_configuration,
}

of_old_set : (base : FilePath) (r : Reader) → (of_old_cluster_config base r).is_initialized ≡ true
unfolding of_old_cluster_config
of_old_set base r = ground arith

pub of_new_set :
    (base : FilePath) (r : Reader) → r.is_initialized ≡ true → of_new_cluster_config base r ≡ r
unfolding of_new_cluster_config
of_new_set base r h = ground arith

module _ (json : Codec) where
  decoded_set :
      (r : Reader) (c : Result ClusterConfig) → (decoded r c).1.is_initialized ≡ r.is_initialized
  decoded_set r (err e) = refl
  decoded_set r (ok c) = refl

  stored_set :
      (r : Reader) (contents : Result String)
      → (stored json r contents).1.is_initialized ≡ r.is_initialized
  stored_set r (err e) = refl
  stored_set r (ok text) = decoded_set r (json.unmarshal text)

  -- Loading leaves a reader as it was set.
  read_from_set :
      (p : Option FilePath) (r : Reader) (w : World)
      → (read_from json p r w).0.1.is_initialized ≡ r.is_initialized
  unfolding read_from
  read_from_set none r w = refl
  read_from_set (some path) r w = stored_set r (read_file path w).0

  load_unless_set :
      (l : List Segment) (r : Reader) (w : World)
      → (load_unless json l r w).0.1.is_initialized ≡ r.is_initialized
  unfolding load_unless read
  load_unless_set [] r w = read_from_set r.file_location r w
  load_unless_set (s ∷ l) r w = refl

  load_set : (r : Reader) (w : World) → (load json r w).0.1.is_initialized ≡ r.is_initialized
  unfolding load
  load_set r w = load_unless_set r.config r w

  load_again :
      (r : Reader) (v : World) (s : Segment) (l : List Segment)
      → r.config ≡ s ∷ l
      → load json r v ≡ ((none, r), v)
  unfolding load load_unless
  load_again r v s l h = rw h refl

  port_set :
      (c : ℤ) (r : Reader) (w : World)
      → (get_port_for_segment json c r w).0.1.is_initialized ≡ r.is_initialized
  unfolding get_port_for_segment
  port_set c r w = load_set r w

  -- A port that was found is found again, whatever has become of the files.
  port_again :
      (c : ℤ) (r : Reader) (w v : World)
      → let p = get_port_for_segment json c r w in
        (p.0.0 == minus_one) ≡ false → get_port_for_segment json c p.0.1 v ≡ (p.0, v)
  unfolding get_port_for_segment
  port_again c r w v found = elim (Option-cases (load json r w).0.0) [
    | inr (e, failed) ↦ absurd (ground arith)
    | inl loaded ↦ elim (List-cases (load json r w).0.1.config) [
      | inl empty ↦ absurd (ground arith)
      | inr (s, l, full) ↦ ground (arith, load_again (load json r w).0.1 v s l full)
    ]
  ]

  -- After `OfOldClusterConfig`, a port, `OfNewClusterConfig` and the same port: the same is found.
  pub port-of_new :
      (c : ℤ) (base base' : FilePath) (r : Reader) (w v : World)
      → let p = get_port_for_segment json c (of_old_cluster_config base r) w in
        (p.0.0 == minus_one) ≡ false
        → get_port_for_segment json c (of_new_cluster_config base' p.0.1) v ≡ (p.0, v)
  port-of_new c base base' r w v found =
      let p = get_port_for_segment json c (of_old_cluster_config base r) w in
      rw (of_new_set base' p.0.1 (port_set c (of_old_cluster_config base r) w ∙ of_old_set base r))
        (port_again c (of_old_cluster_config base r) w v found)

  segments_set :
      (r : Reader) (w : World)
      → (get_segment_configuration json r w).0.1.is_initialized ≡ r.is_initialized
  unfolding get_segment_configuration
  segments_set r w = load_set r w

  segments_again :
      (r : Reader) (w v : World)
      → let p = get_segment_configuration json r w in
        p.0.0 ≢ [] → get_segment_configuration json p.0.1 v ≡ (p.0, v)
  unfolding get_segment_configuration
  segments_again r w v found = elim (Option-cases (load json r w).0.0) [
    | inr (e, failed) ↦ absurd (ground arith)
    | inl loaded ↦ elim (List-cases (load json r w).0.1.config) [
      | inl empty ↦ absurd (ground arith)
      | inr (s, l, full) ↦ ground (arith, load_again (load json r w).0.1 v s l full)
    ]
  ]

  -- The segments of the old configuration, if there are any, are taken for those of the new one.
  pub segments-of_new :
      (base base' : FilePath) (r : Reader) (w v : World)
      → let p = get_segment_configuration json (of_old_cluster_config base r) w in
        p.0.0 ≢ [] → get_segment_configuration json (of_new_cluster_config base' p.0.1) v ≡ (p.0, v)
  segments-of_new base base' r w v found =
      let p = get_segment_configuration json (of_old_cluster_config base r) w in
      rw
        (of_new_set base' p.0.1 (segments_set (of_old_cluster_config base r) w ∙ of_old_set base r))
        (segments_again (of_old_cluster_config base r) w v found)
