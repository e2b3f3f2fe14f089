-- ===== src/System/Calls.antt =====
-- The calls of `utils.System` and of `helpers.CommandExecer`, on a world that records them. Any call
-- may fail: `faults` says how the coming calls fare, and a call beyond its end does not fail of
-- itself. A call that fails changes no file.
use gpupgrade.Base.{ℕ, String, ◌≡◌, refl, Option, none, some, List, [], ◌∷◌, ◌++◌}
use gpupgrade.System.Path.{FilePath, Pattern}
use gpupgrade.System.Files.{
  Error, Result, err, Node, Fs, stat_file, read_content, create_file, remove_file, remove_tree,
  mkdir_tree, glob_files, truncate_file, write_content, make_dir,
}

-- The four ways to run a `Command`.
pub data Mode : Type 0 where
  output combined_output start run : Mode

pub record Cmd : Type 0 where
  pub mode : Mode
  pub name : String
  pub args : List String

pub record Outcome : Type 0 where
  pub text : String
  pub error : Option Error

pub record World : Type 0 where
  pub fs : Fs
  pub faults : List (Option Error)
  pub now : ℕ
  -- the commands run so far, the latest first
  pub commands : List Cmd

-- What a command does: programs are not part of the source, so this is a parameter of all that runs
-- them. It sees the commands before it, and may change files.
abbrev pub Execer : Type 0
Execer = List Cmd → Cmd → Fs → Outcome × Fs

abbrev pub Sys : Type 0 → Type 0
Sys A = World → A × World

abbrev pub pure : {A : Type 0} → A → Sys A
pure a w = (a, w)

infixl 5 ◌>>=◌ ◌>>◌
abbrev pub ◌>>=◌ : {A B : Type 0} → Sys A → (A → Sys B) → Sys B
◌>>=◌ m f w = let (a, w') = m w in f a w'

abbrev pub ◌>>◌ : {A B : Type 0} → Sys A → Sys B → Sys B
◌>>◌ m n w = let (a, w') = m w in n w'

-- A call that reads, by what is to come: no entry and `none` let it pass, an error stops it.
read_by : {A : Type 0} → List (Option Error) → (Error → A) → (Fs → A) → Sys A
read_by [] failed f w = (f w.fs, w)
read_by (none ∷ rest) failed f w = (f w.fs, record w { faults = rest })
read_by (some e ∷ rest) failed f w = (failed e, record w { faults = rest })

unfoldable pub reading : {A : Type 0} → (Error → A) → (Fs → A) → Sys A
unfolding read_by
reading failed f w = read_by w.faults failed f w

-- A call that changes the tree.
settle : Option Error × Fs → World → Option Error × World
settle (e, fs) w = (e, record w { fs = fs })

write_by : List (Option Error) → (Fs → Option Error × Fs) → Sys (Option Error)
unfolding settle
write_by [] f w = settle (f w.fs) w
write_by (none ∷ rest) f w = settle (f w.fs) (record w { faults = rest })
write_by (some e ∷ rest) f w = (some e, record w { faults = rest })

unfoldable pub writing : (Fs → Option Error × Fs) → Sys (Option Error)
unfolding write_by
writing f w = write_by w.faults f w

unfoldable pub stat : FilePath → Sys (Result Node)
unfolding reading
stat p = reading err (stat_file p)

unfoldable pub read_file : FilePath → Sys (Result String)
unfolding reading
read_file p = reading err (read_content p)

-- The files and the error of `FilePathGlob`.
unfoldable pub glob : Pattern → Sys (List FilePath × Option Error)
unfolding reading
glob pat = reading (λ e. ([], some e)) (λ fs. (glob_files pat fs, none))

unfoldable pub open_create : FilePath → Sys (Option Error)
unfolding writing
open_create p w = writing (create_file w.now p) w

unfoldable pub open_truncate : FilePath → Sys (Option Error)
unfolding writing
open_truncate p w = writing (truncate_file w.now p) w

unfoldable pub write_text : FilePath → String → Sys (Option Error)
unfolding writing
write_text p text w = writing (write_content w.now text p) w

unfoldable pub mkdir_one : FilePath → Sys (Option Error)
unfolding writing
mkdir_one p = writing (make_dir p)

unfoldable pub remove : FilePath → Sys (Option Error)
unfolding writing
remove p = writing (remove_file p)

unfoldable pub remove_all : FilePath → Sys (Option Error)
unfolding writing
remove_all p = writing (remove_tree p)

unfoldable pub mkdir_all : FilePath → Sys (Option Error)
unfolding writing
mkdir_all p = writing (mkdir_tree p)

unfoldable pub run_command : Execer → Cmd → Sys Outcome
run_command exec c w =
    let (outcome, fs) = exec w.commands c w.fs in
    (outcome, record w { fs = fs; commands = c ∷ w.commands })

-- What a `go` statement starts, where the code reaches one: an action of its own, which runs after the
-- call that started it or beside it.
abbrev pub Background : Type 0
Background = Option (Sys (Unit {0}))

-- It has run to its end.
abbrev pub run_background : Background → Sys (Unit {0})
run_background none w = (tt, w)
run_background (some job) w = job w

-- What holds after a call that reads: it fails, or it answers from the tree; no file changes.
module _ {A : Type 0} (P : A × World → Type 0) (failed : Error → A) (f : Fs → A) (w : World) where
  read_by_rule :
      (l : List (Option Error))
      → ((e : Error) (w' : World) → w'.fs ≡ w.fs → P (failed e, w'))
      → ((w' : World) → w'.fs ≡ w.fs → P (f w.fs, w'))
      → P (read_by l failed f w)
  unfolding read_by
  read_by_rule [] no_call call = call w refl
  read_by_rule (none ∷ rest) no_call call = call (record w { faults = rest }) refl
  read_by_rule (some e ∷ rest) no_call call = no_call e (record w { faults = rest }) refl

  pub reading_rule :
      ((e : Error) (w' : World) → w'.fs ≡ w.fs → P (failed e, w'))
      → ((w' : World) → w'.fs ≡ w.fs → P (f w.fs, w'))
      → P (reading failed f w)
  unfolding reading
  reading_rule = read_by_rule w.faults

-- What holds after a call that writes: it fails and changes nothing, or it acts on the tree.
module _ (P : Option Error × World → Type 0) (f : Fs → Option Error × Fs) (w : World) where
  write_by_rule :
      (l : List (Option Error))
      → ((e : Error) (w' : World) → w'.fs ≡ w.fs → P (some e, w'))
      → ((w' : World) → w'.fs ≡ (f w.fs).1 → P ((f w.fs).0, w'))
      → P (write_by l f w)
  unfolding write_by settle
  write_by_rule [] no_call call = call (record w { fs = (f w.fs).1 }) refl
  write_by_rule (none ∷ rest) no_call call = call (record w { fs = (f w.fs).1; faults = rest }) refl
  write_by_rule (some e ∷ rest) no_call call = no_call e (record w { faults = rest }) refl

  pub writing_rule :
      ((e : Error) (w' : World) → w'.fs ≡ w.fs → P (some e, w'))
      → ((w' : World) → w'.fs ≡ (f w.fs).1 → P ((f w.fs).0, w'))
      → P (writing f w)
  unfolding writing
  writing_rule = write_by_rule w.faults

-- Where nothing is to fail, a call does what it does to the tree.
pub reading_calm :
    {A : Type 0} (failed : Error → A) (f : Fs → A) (w : World)
    → w.faults ≡ []
    → reading failed f w ≡ (f w.fs, w)
unfolding reading
reading_calm failed f w h = rw (h, read_by)

pub writing_calm :
    (f : Fs → Option Error × Fs) (w : World)
    → w.faults ≡ []
    → writing f w ≡ ((f w.fs).0, record w { fs = (f w.fs).1 })
unfolding writing settle
writing_calm f w h = rw (h, write_by)

pub stat_calm : (p : FilePath) (w : World) → w.faults ≡ [] → stat p w ≡ (stat_file p w.fs, w)
unfolding stat
stat_calm p w h = reading_calm err (stat_file p) w h

pub read_file_calm :
    (p : FilePath) (w : World) → w.faults ≡ [] → read_file p w ≡ (read_content p w.fs, w)
unfolding read_file
read_file_calm p w h = reading_calm err (read_content p) w h

pub glob_calm :
    (pat : Pattern) (w : World) → w.faults ≡ [] → glob pat w ≡ ((glob_files pat w.fs, none), w)
unfolding glob
glob_calm pat w h = reading_calm (λ e. ([], some e)) (λ fs. (glob_files pat fs, none)) w h

read_by-commands :
    {A : Type 0} (l : List (Option Error)) (failed : Error → A) (f : Fs → A) (w : World)
    → (read_by l failed f w).1.commands ≡ w.commands
unfolding read_by
read_by-commands [] failed f w = refl
read_by-commands (none ∷ rest) failed f w = refl
read_by-commands (some e ∷ rest) failed f w = refl

-- A call that reads or writes is not recorded as a command.
pub reading-commands :
    {A : Type 0} (failed : Error → A) (f : Fs → A) (w : World)
    → (reading failed f w).1.commands ≡ w.commands
unfolding reading
reading-commands failed f w = read_by-commands w.faults failed f w

write_by-commands :
    (l : List (Option Error)) (f : Fs → Option Error × Fs) (w : World)
    → (write_by l f w).1.commands ≡ w.commands
unfolding write_by settle
write_by-commands [] f w = refl
write_by-commands (none ∷ rest) f w = refl
write_by-commands (some e ∷ rest) f w = refl

pub writing-commands :
    (f : Fs → Option Error × Fs) (w : World) → (writing f w).1.commands ≡ w.commands
unfolding writing
writing-commands f w = write_by-commands w.faults f w

-- The record of commands, the latest first, once some have been run in order.
abbrev pub log_after : List Cmd → List Cmd → List Cmd
log_after [] log = log
log_after (c ∷ commands) log = log_after commands (c ∷ log)

pub log_after-append : (a b log : List Cmd) → log_after (a ++ b) log ≡ log_after b (log_after a log)
log_after-append [] b log = refl
log_after-append (c ∷ a) b log = log_after-append a b (c ∷ log)
