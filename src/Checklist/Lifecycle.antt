-- ===== src/Checklist/Lifecycle.antt =====
-- The life of one step: which markers its directory can hold, and how the checklist's operations move
-- between them when any file operation may fail.
use gpupgrade.Base.{
  String, Bool, true, false, ◌≡◌, refl, sym, Option-cases, text_ne, ◌∙◌, ◌≢◌, Option, none, some,
  [], inl, inr,
}
use gpupgrade.System.{
  FilePath, ◌/◌, Fs, Error, Sys, World, ◌>>=◌, open_create, remove, remove_all, mkdir_all,
  remove_tree, mkdir_tree, create_file, remove_file, writing_rule,
}
use gpupgrade.System.FilesLaws.{subtree, subtree-remove_tree}
use gpupgrade.Checklist.{
  new_checklist_manager, mark_failed, mark_complete, mark_in_progress, reset_state_dir,
  unless_error,
}
use gpupgrade.Checklist.Marks.{
  Holds, mkdir_tree-Holds, mkdir_tree_failed, create_file_missing, create_file-Holds,
  create_file_again, remove_file-Holds, remove_file_other, remove_file_clean, remove_file_missing,
}
use mathlib.Core.Path.{subst}

pub data Phase : Type 0 where
  missing idle started failed done : Phase

-- What a step's directory holds in each phase.
abbrev pub Shows : FilePath → Phase → Fs → Type 0
Shows d missing fs = subtree d fs ≡ []
Shows d idle fs = Holds d none fs
Shows d started fs = Holds d (some "in.progress") fs
Shows d failed fs = Holds d (some "failed") fs
Shows d done fs = Holds d (some "completed") fs

pub data Op : Type 0 where
  reset start fail finish : Op

-- The four operations of a `ChecklistManager`.
abbrev pub perform : FilePath → String → Op → Sys (Option Error)
perform base step reset = reset_state_dir (new_checklist_manager base) step
perform base step start = mark_in_progress (new_checklist_manager base) step
perform base step fail = mark_failed (new_checklist_manager base) step
perform base step finish = mark_complete (new_checklist_manager base) step

abbrev pub succeeded : Option Error → Bool
succeeded none = true
succeeded (some e) = false

-- Which phase may follow, by the operation and whether it returned an error.
pub data Moves : Phase → Op → Bool → Phase → Type 0 where
  cleared : {p : Phase} → Moves p reset true idle
  half_cleared : {p : Phase} → Moves p reset false missing
  begun : Moves idle start true started
  begun_again : Moves started start true started
  finished : Moves started finish true done
  gave_up : Moves started fail true failed
  half_finished : Moves started finish false idle
  half_given_up : Moves started fail false idle
  refused : {p : Phase} {op : Op} → Moves p op false p

-- A step that has ended is reset before it starts again.
abbrev pub Ready : Phase → Op → Type 0
Ready failed start = ⊥
Ready done start = ⊥
Ready p op = Unit

abbrev pub After : FilePath → Phase → Op → Option Error × World → Type 0
After d p op r = (q : Phase) × Moves p op (succeeded r.0) q × Shows d q r.1.fs

module _ (base : FilePath) (step : String) where
  Shows-of :
      (p : Phase) (fs fs' : Fs) → fs' ≡ fs → Shows (base / step) p fs → Shows (base / step) p fs'
  Shows-of p fs fs' e h = subst (Shows (base / step) p) (sym e) h

  -- `MkdirAll` in the second half of `ResetStateDir`.
  mkdir-moves :
      (p : Phase) (w : World)
      → subtree (base / step) w.fs ≡ []
      → After (base / step) p reset (mkdir_all (base / step) w)
  unfolding mkdir_all
  mkdir-moves p w h =
      writing_rule (After (base / step) p reset) (mkdir_tree (base / step)) w
        (λ e w' k. (missing, half_cleared, rw k h))
        (λ w' k. elim (Option-cases (mkdir_tree (base / step) w.fs).0) [
          | inl made ↦ (idle, rw made cleared, rw k (mkdir_tree-Holds base step w.fs h made))
          | inr (e, not_made) ↦ (
            missing,
            rw not_made half_cleared,
            rw k (mkdir_tree_failed base step w.fs h (rw not_made (λ q. cc))),
          )
        ])

  reset-moves :
      (p : Phase) (w : World)
      → Shows (base / step) p w.fs
      → After (base / step) p reset (perform base step reset w)
  unfolding reset_state_dir remove_all
  reset-moves p w h =
      writing_rule
        (λ r. After (base / step) p reset (unless_error r.0 (mkdir_all (base / step)) r.1))
        (remove_tree (base / step)) w (λ e w' k. (p, refused, Shows-of p w.fs w'.fs k h))
        (λ w' k.
          unfold remove_tree in
          mkdir-moves p w' (rw k (unfold remove_tree in subtree-remove_tree (base / step) w.fs)))

  start-moves :
      (p : Phase) (w : World)
      → Ready p start
      → Shows (base / step) p w.fs
      → After (base / step) p start (perform base step start w)
  unfolding mark_in_progress open_create
  start-moves missing w r h =
      writing_rule (After (base / step) missing start)
        (create_file w.now (base / step / "in.progress")) w (λ e w' k. (missing, refused, rw k h))
        (rw (create_file_missing base step "in.progress" w.now w.fs h)
          (λ w' k. (missing, refused, rw k h)))
  start-moves idle w r h =
      let (made, shown) = create_file-Holds (base / step) "in.progress" w.now w.fs h in
      writing_rule (After (base / step) idle start)
        (create_file w.now (base / step / "in.progress")) w (λ e w' k. (idle, refused, rw k h))
        (λ w' k. (started, rw made begun, Shows-of started _ w'.fs k shown))
  start-moves started w r h =
      writing_rule (After (base / step) started start)
        (create_file w.now (base / step / "in.progress")) w
        (λ e w' k. (started, refused, Shows-of started w.fs w'.fs k h))
        (rw (create_file_again (base / step) "in.progress" w.now w.fs h)
          (λ w' k. (started, begun_again, Shows-of started w.fs w'.fs k h)))
  start-moves failed w r h = absurd r
  start-moves done w r h = absurd r

-- `MarkFailed` and `MarkComplete` differ in the marker that they leave.
module _ (base : FilePath) (step name : String) (op : Op) (q : Phase)
    (ended : Moves started op true q) (half : Moves started op false idle)
    (shown : (fs : Fs) → Holds (base / step) (some name) fs → Shows (base / step) q fs) where
  abbrev end_marker : Sys (Option Error)
  end_marker = open_create (base / step / name)

  abbrev end_step : Sys (Option Error)
  end_step = do error ← remove (base / step / "in.progress"); unless_error error end_marker

  create-moves :
      (w : World) → Holds (base / step) none w.fs → After (base / step) started op (end_marker w)
  unfolding open_create
  create-moves w h =
      let (made, held) = create_file-Holds (base / step) name w.now w.fs h in
      writing_rule (After (base / step) started op) (create_file w.now (base / step / name)) w
        (λ e w' k. (idle, half, rw k h)) (λ w' k. (q, rw made ended, rw k (shown _ held)))

  -- Where no step is in progress, the marker cannot be removed and nothing changes.
  not_started :
      (p : Phase) (w : World)
      → Shows (base / step) p w.fs
      → ((remove_file (base / step / "in.progress") w.fs).0 ≢ none)
        × ((remove_file (base / step / "in.progress") w.fs).1 ≡ w.fs)
      → After (base / step) p op (end_step w)
  unfolding remove
  not_started p w h (error, same) =
      writing_rule (λ r. After (base / step) p op (unless_error r.0 end_marker r.1))
        (remove_file (base / step / "in.progress")) w
        (λ e w' k. (p, refused, Shows-of base step p w.fs w'.fs k h))
        (λ w' k. elim (Option-cases (remove_file (base / step / "in.progress") w.fs).0) [
          | inl none_at ↦ absurd (error none_at)
          | inr (e, at) ↦ rw at (p, refused, Shows-of base step p w.fs w'.fs (k ∙ same) h)
        ])

  end-moves :
      (p : Phase) (w : World) → Shows (base / step) p w.fs → After (base / step) p op (end_step w)
  unfolding remove
  end-moves missing w h =
      not_started missing w h
        (rw (remove_file_missing (base / step) "in.progress" w.fs h) ((λ e. cc), refl))
  end-moves idle w h = not_started idle w h (remove_file_clean (base / step) "in.progress" w.fs h)
  end-moves failed w h =
      not_started failed w h
        (remove_file_other (base / step) "in.progress" "failed" w.fs h (text_ne _ _ refl))
  end-moves done w h =
      not_started done w h
        (remove_file_other (base / step) "in.progress" "completed" w.fs h (text_ne _ _ refl))
  end-moves started w h =
      let (removed, held) = remove_file-Holds (base / step) "in.progress" w.fs h in
      writing_rule (λ r. After (base / step) started op (unless_error r.0 end_marker r.1))
        (remove_file (base / step / "in.progress")) w
        (λ e w' k. (started, refused, Shows-of base step started w.fs w'.fs k h))
        (λ w' k. rw removed (create-moves w' (rw k held)))

-- Of a step whose directory shows a phase, every operation of the checklist leaves the directory
-- showing a phase that `Moves` allows after that one, by the operation and by whether it returned an
-- error, and whichever file operation fails; only, a step that has ended is not started again before
-- it is reset.
pub perform-moves :
    (base : FilePath) (step : String) (p : Phase) (op : Op) (w : World)
    → Ready p op
    → Shows (base / step) p w.fs
    → After (base / step) p op (perform base step op w)
unfolding mark_failed mark_complete
perform-moves base step p reset w r h = reset-moves base step p w h
perform-moves base step p start w r h = start-moves base step p w r h
perform-moves base step p fail w r h =
    end-moves base step "failed" fail failed gave_up half_given_up (λ fs k. k) p w h
perform-moves base step p finish w r h =
    end-moves base step "completed" finish done finished half_finished (λ fs k. k) p w h
