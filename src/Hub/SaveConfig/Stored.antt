-- ===== src/Hub/SaveConfig/Stored.antt =====
-- hub/services/hub_check_config.go: the file of the configuration, and its reader.
use gpupgrade.Base.{
  ℕ, suc, ◌≤◌, ◌<◌, String, ◌≡◌, refl, ap, ◌≢◌, Option, none, some, List, [], ◌∷◌, arith, ==_iff,
  string_eq, list_eq, Option-cases, inl, inr,
}
use gpupgrade.System.{
  FilePath, Error, ok, Fs, Node, dir, file, node_at, overwrite, set_node, World, open_create,
  create_file, write_text, write_content, writing_calm, read_content,
}
use gpupgrade.Status.DoneFile.{chars}
use gpupgrade.Config.Segment.{Segment, ClusterConfig, Codec, get_config_file_path}
use gpupgrade.Config.Reader.{new_reader, of_old_cluster_config, read}
use gpupgrade.Config.Reader.Laws.{read-ok}
use gpupgrade.Hub.Database.{DbConn, Database}
use gpupgrade.Hub.SaveConfig.{save_old_cluster_config, config_query, reported}

-- The text of a file, and none where there is no file.
abbrev pub text_at : FilePath → Fs → String
text_at p fs = elim (node_at p fs) [ some (file text t) ↦ text | _ ↦ "" ]

node_at-set_node :
    (p : FilePath) (n m : Node) (fs : Fs)
    → node_at p fs ≡ some m
    → node_at p (set_node p n fs) ≡ some n
unfolding node_at set_node
node_at-set_node p n m [] h = ground arith
node_at-set_node p n m ((q, k) ∷ fs) h =
    ground (arith, ==_iff q p, ==_iff p p, node_at-set_node p n m fs)

overwrite-shorter : (text old : String) → chars old ≤ chars text → overwrite text old ≡ text
unfolding overwrite
overwrite-shorter String.[] String.[] h = refl
overwrite-shorter String.[] (String.◌∷◌ d old) h = absurd (omega arith)
overwrite-shorter (String.◌∷◌ c text) String.[] h = refl
overwrite-shorter (String.◌∷◌ c text) (String.◌∷◌ d old) h =
    ap (String.◌∷◌ c) (overwrite-shorter text old (omega arith))

chars-overwrite :
    (text old : String) → chars text ≤ chars old → chars (overwrite text old) ≡ chars old
unfolding overwrite
chars-overwrite String.[] old h = refl
chars-overwrite (String.◌∷◌ c text) String.[] h = absurd (omega arith)
chars-overwrite (String.◌∷◌ c text) (String.◌∷◌ d old) h =
    ap suc (chars-overwrite text old (omega arith))

dir_not_created :
    (p : FilePath) (now : ℕ) (fs : Fs) → node_at p fs ≡ some dir → (create_file now p fs).0 ≢ none
unfolding create_file
dir_not_created p now fs h = ground arith

created :
    (p : FilePath) (now : ℕ) (fs : Fs)
    → (create_file now p fs).0 ≡ none
    → (t : ℕ) × (node_at p (create_file now p fs).1 ≡ some (file (text_at p fs) t))
unfolding create_file node_at
created p now fs h = elim (Option-cases (node_at p fs)) [
  | inl absent ↦ (now, ground (arith, ==_iff p p))
  | inr (dir, e) ↦ absurd (dir_not_created p now fs e h)
  | inr (file text t, e) ↦ (t, ground arith)
]

rewritten :
    (p : FilePath) (now t : ℕ) (text old : String) (fs : Fs)
    → node_at p fs ≡ some (file old t)
    → ((write_content now text p fs).0 ≡ none)
      × (node_at p (write_content now text p fs).1 ≡ some (file (overwrite text old) now))
unfolding write_content
rewritten p now t text old fs h =
    ground (arith, node_at-set_node p (file (overwrite text old) now) (file old t) fs h)

module _ (json : Codec) (db : Database) (conn : DbConn) (base : FilePath) (bin : String) (w : World)
    (calm : w.faults ≡ []) (segments : List Segment) (text : String)
    (selected : db.select_segments conn (config_query json db conn) ≡ ok segments)
    (marshalled : json.marshal (record { seg_config = segments; bin_dir = bin }) ≡ ok text) where
  abbrev path : FilePath
  path = get_config_file_path base

  abbrev old : String
  old = text_at path w.fs

  abbrev saved : Option Error × World
  saved = save_old_cluster_config json db conn base bin w

  -- If the file can be opened, saving succeeds, and the file holds the text over what it held.
  save_old-text :
      (create_file w.now path w.fs).0 ≡ none
      → (saved.0 ≡ none)
        × (saved.1.faults ≡ [])
        × (node_at path saved.1.fs ≡ some (file (overwrite text old) w.now))
  unfolding save_old_cluster_config open_create write_text
  save_old-text opened =
      let (t, there) = created path w.now w.fs opened in
      let v = record w { fs = (create_file w.now path w.fs).1 } in
      let (wrote, after) = rewritten path w.now t text old v.fs there in
      rw (writing_calm (create_file w.now path) w calm) (
        rw (opened, selected, marshalled)
          (rw (writing_calm (write_content w.now text path) v calm)
            (ap (reported "Unable to write query results to file.") wrote, calm, after)))

  -- If the database answers the query, the configuration is marshalled and the codec decodes what
  -- it marshals, no file operation fails, the file can be opened, and what it held before is no
  -- longer than what is written, then saving succeeds, and a fresh reader of the old cluster reads
  -- without an error and has the segments and the directory that were saved.
  pub save_old-read :
      ((c : ClusterConfig) (t : String) → json.marshal c ≡ ok t → json.unmarshal t ≡ ok c)
      → (create_file w.now path w.fs).0 ≡ none
      → chars old ≤ chars text
      → let (r, w') = read json (of_old_cluster_config base new_reader) saved.1 in
        (r.0 ≡ none) × (r.1.config ≡ segments) × (r.1.bin_dir ≡ bin) × (saved.0 ≡ none)
  unfolding of_old_cluster_config read_content
  save_old-read decodes opened shorter =
      let (done, quiet, held) = save_old-text opened in
      let back = decodes (record { seg_config = segments; bin_dir = bin }) text marshalled in
      let content : read_content path saved.1.fs ≡ ok text =
        ground (arith, overwrite-shorter text old shorter) in
      rw
        (read-ok json (of_old_cluster_config base new_reader) path text
          (record { seg_config = segments; bin_dir = bin }) saved.1 quiet refl content back)
        (refl, refl, refl, done)

  -- If the database answers the query and the configuration is marshalled, no file operation
  -- fails, the file can be opened, and it held more than is written, then saving succeeds, and the
  -- file does not hold the configuration's text.
  pub save_old-tail :
      (create_file w.now path w.fs).0 ≡ none
      → chars text < chars old
      → (saved.0 ≡ none) × (read_content path saved.1.fs ≢ ok text)
  unfolding read_content
  save_old-tail opened longer =
      let (done, quiet, held) = save_old-text opened in
      (
        done,
        λ e.
            let same : overwrite text old ≡ text = ground arith in
            omega (arith, chars-overwrite text old (omega arith), ap chars same),
      )
