-- ===== src/Status/ShutDown/Markers.antt =====
-- hub/upgradestatus/shutdown_clusters.go: the markers in the directory of the shutdown, counted over the
-- directories of the two clusters.
use gpupgrade.Base.{
  ℕ, ◌+◌, String, Bool, true, false, not, ◌&&◌, ◌≡◌, refl, sym, ◌∙◌, ap, Option, none, some, [],
  ◌∷◌, ◌++◌, List, arith, text_ne, length, select, ◌==◌, string_eq, list_eq, if◌then◌else◌,
}
use gpupgrade.System.{
  FilePath, ◌/◌, is_within, below, Fs, Node, dir, star, path_matches, parts_match, part_matches,
  matching, paths, without, mkdir_from, mkdir_tree, glob_files,
}
use gpupgrade.System.PathLaws.{
  siblings_apart, is_within-append, join-append, below-append, below_self,
}
use gpupgrade.System.FilesLaws.{subtree, length-glob}
use gpupgrade.Checklist.Lifecycle.{Phase, missing, idle, started, failed, done, Shows}
use gpupgrade.Checklist.Stable.{Outside}
use gpupgrade.Status.ShutDown.Laws.{markers}

module _ (gpstop : FilePath) where
  abbrev old : FilePath
  old = gpstop / "gpstop.old"

  abbrev new : FilePath
  new = gpstop / "gpstop.new"

  -- Two names below the directory, and not in that of a cluster.
  unfoldable pub is_stray : FilePath → Bool
  is_stray q =
      path_matches (record { dir = gpstop; parts = star ∷ star ∷ [] }) q
      && (not (is_within old q) && not (is_within new q))

  -- No marker in the directory of the shutdown but in those of the two clusters.
  unfoldable pub NoStrays : Fs → Type 0
  NoStrays fs = select is_stray (paths fs) ≡ []

  marker-two :
      (marker : String) (d q : FilePath)
      → path_matches (markers d marker) q ≡ true
      → path_matches (record { dir = d; parts = star ∷ star ∷ [] }) q ≡ true
  unfolding path_matches below parts_match part_matches
  marker-two marker [] [] h = ground arith
  marker-two marker [] (a ∷ []) h = ground arith
  marker-two marker [] (a ∷ b ∷ []) h = ground arith
  marker-two marker [] (a ∷ b ∷ c ∷ q) h = ground arith
  marker-two marker (x ∷ d) [] h = ground arith
  marker-two marker (x ∷ d) (a ∷ q) h = ground (arith, marker-two marker d q)

  -- A directory on the way to one in `d` has not two names below `d`.
  short :
      (d p : FilePath) (step : String)
      → is_within p (d / step) ≡ true
      → path_matches (record { dir = d; parts = star ∷ star ∷ [] }) p ≡ false
  unfolding path_matches below parts_match part_matches is_within
  short [] [] step h = refl
  short [] (a ∷ []) step h = ground arith
  short [] (a ∷ b ∷ p) step h = ground arith
  short (x ∷ d) [] step h = refl
  short (x ∷ d) (a ∷ p) step h = ground (arith, short d p step)

  strays-without : (gone : FilePath → Bool) (fs : Fs) → NoStrays fs → NoStrays (without gone fs)
  unfolding without NoStrays
  strays-without gone [] h = refl
  strays-without gone ((q, n) ∷ fs) h = ground (arith, strays-without gone fs)

  strays-cons :
      (q : FilePath) (n : Node) (fs : Fs)
      → is_stray q ≡ false
      → NoStrays fs
      → NoStrays ((q, n) ∷ fs)
  unfolding NoStrays
  strays-cons q n fs h k = ground arith

  strays-mkdir_from :
      (e : FilePath) (rest : List String) (step : String) (fs : Fs)
      → e ++ rest ≡ gpstop / step
      → NoStrays fs
      → NoStrays (mkdir_from e rest fs).1
  unfolding mkdir_from is_stray
  strays-mkdir_from e [] step fs h k = k
  strays-mkdir_from e (a ∷ rest) step fs h k = ground (
    arith,
    join-append e a rest,
    is_within-append (e / a) rest,
    short gpstop (e / a) step,
    strays-cons (e / a) dir fs,
    strays-mkdir_from (e / a) rest step fs,
    strays-mkdir_from (e / a) rest step ((e / a, dir) ∷ fs),
  )

  strays-subtree :
      (fs : Fs) → select is_stray (paths (subtree gpstop fs)) ≡ select is_stray (paths fs)
  unfolding is_stray subtree without path_matches is_within
  strays-subtree [] = refl
  strays-subtree ((q, n) ∷ fs) = ground (arith, strays-subtree fs)

  -- A directory of the shutdown that holds nothing.
  pub NoStrays-fresh : (fs : Fs) → subtree gpstop fs ≡ (gpstop, dir) ∷ [] → NoStrays fs
  unfolding NoStrays is_stray path_matches parts_match
  NoStrays-fresh fs h = sym (strays-subtree fs) ∙ rw (h, below_self gpstop) refl

  -- Commands that leave the directory alone bring no marker.
  pub NoStrays-spared :
      (fs fs' : Fs) → subtree gpstop fs' ≡ subtree gpstop fs → NoStrays fs → NoStrays fs'
  unfolding NoStrays
  NoStrays-spared fs fs' same h =
      sym (strays-subtree fs') ∙ ap (λ t. select is_stray (paths t)) same ∙ strays-subtree fs ∙ h

  cluster-Outside :
      (step : String)
      → ((q : FilePath) → is_within (gpstop / step) q ≡ true → is_stray q ≡ false)
      → Outside (gpstop / step) NoStrays
  unfolding mkdir_tree
  cluster-Outside step own = record {
    fewer = λ gone fs h k. strays-without gone fs k;
    more = λ q n fs h k. strays-cons q n fs (own q h) k;
    made = λ fs k. strays-mkdir_from [] (gpstop / step) step fs refl k;
  }

  pub old-Outside : Outside old NoStrays
  old-Outside = cluster-Outside "gpstop.old" (λ q h. unfold is_stray in ground (arith, h))

  pub new-Outside : Outside new NoStrays
  new-Outside = cluster-Outside "gpstop.new" (λ q h. unfold is_stray in ground (arith, h))

  -- The markers of the shutdown are those of the two clusters.
  length-matching :
      (marker : String) (fs : Fs)
      → NoStrays fs
      → length (matching (markers gpstop marker) fs)
        ≡ length (matching (markers gpstop marker) (subtree old fs))
          + length (matching (markers gpstop marker) (subtree new fs))
  unfolding NoStrays is_stray matching subtree without
  length-matching marker [] h = refl
  length-matching marker ((q, n) ∷ fs) h = ground (
    arith,
    marker-two marker gpstop q,
    siblings_apart gpstop "gpstop.old" "gpstop.new" q (text_ne _ _ refl),
    length-matching marker fs,
  )

  marker_matches :
      (marker step held : String)
      → path_matches (markers gpstop marker) (gpstop / step / held) ≡ (marker == held)
  unfolding path_matches parts_match part_matches
  marker_matches marker step held =
      rw (join-append gpstop step (held ∷ []), below-append) (ground arith)

  dir_matches :
      (marker step : String) → path_matches (markers gpstop marker) (gpstop / step) ≡ false
  unfolding path_matches parts_match part_matches
  dir_matches marker step = rw (below-append) refl

-- The marker in a directory that shows a phase.
abbrev pub marker_of : Phase → Option String
marker_of missing = none
marker_of idle = none
marker_of started = some "in.progress"
marker_of failed = some "failed"
marker_of done = some "completed"

abbrev pub count : String → Option String → ℕ
count marker none = 0
count marker (some held) = if marker == held then 1 else 0

module _ (gpstop : FilePath) (step marker : String) (fs : Fs) where
  length-held :
      (p : Phase)
      → Shows (gpstop / step) p fs
      → length (matching (markers gpstop marker) (subtree (gpstop / step) fs))
        ≡ count marker (marker_of p)
  unfolding matching
  length-held missing h = rw h refl
  length-held idle h = rw (h, dir_matches gpstop marker step) refl
  length-held started (t, h) =
      ground
        (arith, h, dir_matches gpstop marker step, marker_matches gpstop marker step "in.progress")
  length-held failed (t, h) =
      ground (arith, h, dir_matches gpstop marker step, marker_matches gpstop marker step "failed")
  length-held done (t, h) =
      ground
        (arith, h, dir_matches gpstop marker step, marker_matches gpstop marker step "completed")

pub length-markers :
    (gpstop : FilePath) (marker : String) (p q : Phase) (fs : Fs)
    → NoStrays gpstop fs
    → Shows (gpstop / "gpstop.old") p fs
    → Shows (gpstop / "gpstop.new") q fs
    → length (glob_files (markers gpstop marker) fs)
      ≡ count marker (marker_of p) + count marker (marker_of q)
length-markers gpstop marker p q fs none_else h k =
    length-glob (markers gpstop marker) fs
    ∙ length-matching gpstop marker fs none_else
    ∙ rw
        (
          length-held gpstop "gpstop.old" marker fs p h,
          length-held gpstop "gpstop.new" marker fs q k,
        )
        refl
