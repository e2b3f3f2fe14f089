-- ===== src/System/Keeps.antt =====
-- Actions that leave one directory as it is, and fail no call of themselves.
use gpupgrade.Base.{
  ℕ, String, Bool, true, false, if◌then◌else◌, ◌≡◌, refl, ◌∙◌, ap, Option, none, some, List, [],
  ◌∷◌, arith, ==_iff, list_eq, string_eq, Option-cases, inl, inr,
}
use gpupgrade.System.Path.{Pattern, FilePath, is_within}
use gpupgrade.System.Files.{
  glob_files, stat_file, read_content, err, Fs, Node, Error, overwrite, dir, node_at, create_file,
  truncate_file, write_content, set_node, file,
}
use gpupgrade.System.FilesLaws.{subtree, subtree-cons}
use gpupgrade.System.Calls.{
  stat, read_file, glob, World, Sys, pure, ◌>>=◌, Execer, Cmd, run_command, writing, writing_rule,
  writing_calm, reading, reading_rule, reading_calm, open_create, open_truncate, write_text,
}

pub record Keeps {A : Type 0} (d : FilePath) (m : Sys A) : Type 0 where
  pub kept : (w : World) → subtree d (m w).1.fs ≡ subtree d w.fs
  pub calm : (w : World) → w.faults ≡ [] → (m w).1.faults ≡ []

pub Keeps-pure : {A : Type 0} (d : FilePath) (a : A) → Keeps d (pure a)
Keeps-pure d a = record { kept = λ w. refl; calm = λ w h. h }

pub Keeps-bind :
    {A B : Type 0} (d : FilePath) (m : Sys A) (f : A → Sys B)
    → Keeps d m
    → ((a : A) → Keeps d (f a))
    → Keeps d (m >>= f)
Keeps-bind d m f k h = record {
  kept = λ w. (h (m w).0).kept (m w).1 ∙ k.kept w;
  calm = λ w quiet. (h (m w).0).calm (m w).1 (k.calm w quiet);
}

subtree-set_node :
    (d p : FilePath) (n : Node) (fs : Fs)
    → is_within d p ≡ false
    → subtree d (set_node p n fs) ≡ subtree d fs
unfolding set_node
subtree-set_node d p n [] h = refl
subtree-set_node d p n ((q, m) ∷ fs) h = ground (
  arith,
  ==_iff q p,
  subtree-cons d q m fs,
  subtree-cons d p n fs,
  subtree-cons d q m (set_node p n fs),
  subtree-set_node d p n fs h,
)

module _ (d : FilePath) where
  pub Keeps-writing :
      (f : Fs → Option Error × Fs)
      → ((fs : Fs) → subtree d (f fs).1 ≡ subtree d fs)
      → Keeps d (writing f)
  Keeps-writing f h = record {
    kept = λ w.
        writing_rule (λ r. subtree d r.1.fs ≡ subtree d w.fs) f w (λ e w' k. ap (subtree d) k)
          (λ w' k. ap (subtree d) k ∙ h w.fs);
    calm = λ w quiet. ap (λ r. r.1.faults) (writing_calm f w quiet) ∙ quiet;
  }

  pub Keeps-reading : {A : Type 0} (failed : Error → A) (f : Fs → A) → Keeps d (reading failed f)
  Keeps-reading failed f = record {
    kept = λ w.
        reading_rule (λ r. subtree d r.1.fs ≡ subtree d w.fs) failed f w
          (λ e w' k. ap (subtree d) k) (λ w' k. ap (subtree d) k);
    calm = λ w quiet. ap (λ r. r.1.faults) (reading_calm failed f w quiet) ∙ quiet;
  }

  create_file-apart :
      (p : FilePath) (now : ℕ) (fs : Fs)
      → is_within d p ≡ false
      → subtree d (create_file now p fs).1 ≡ subtree d fs
  unfolding create_file
  create_file-apart p now fs h = ground (arith, subtree-cons d p (file "" now) fs)

  truncate_file-apart :
      (p : FilePath) (now : ℕ) (fs : Fs)
      → is_within d p ≡ false
      → subtree d (truncate_file now p fs).1 ≡ subtree d fs
  unfolding truncate_file
  truncate_file-apart p now fs h =
      ground (arith, subtree-cons d p (file "" now) fs, subtree-set_node d p (file "" now) fs h)

  write_content-apart :
      (p : FilePath) (now : ℕ) (text : String) (fs : Fs)
      → is_within d p ≡ false
      → subtree d (write_content now text p fs).1 ≡ subtree d fs
  unfolding write_content
  write_content-apart p now text fs h = elim (Option-cases (node_at p fs)) [
    | inl absent ↦ ground arith
    | inr (dir, e) ↦ ground arith
    | inr (file old t, e) ↦
        ground (arith, subtree-set_node d p (file (overwrite text old) now) fs h)
  ]

  pub Keeps-open_create : (p : FilePath) → is_within d p ≡ false → Keeps d (open_create p)
  unfolding open_create
  Keeps-open_create p h = record {
    kept = λ w. (Keeps-writing (create_file w.now p) (λ fs. create_file-apart p w.now fs h)).kept w;
    calm = λ w quiet.
        (Keeps-writing (create_file w.now p) (λ fs. create_file-apart p w.now fs h)).calm w quiet;
  }

  pub Keeps-open_truncate : (p : FilePath) → is_within d p ≡ false → Keeps d (open_truncate p)
  unfolding open_truncate
  Keeps-open_truncate p h = record {
    kept = λ w.
        (Keeps-writing (truncate_file w.now p) (λ fs. truncate_file-apart p w.now fs h)).kept w;
    calm = λ w quiet.
        (Keeps-writing (truncate_file w.now p) (λ fs. truncate_file-apart p w.now fs h)).calm w
          quiet;
  }

  pub Keeps-write_text :
      (p : FilePath) (text : String) → is_within d p ≡ false → Keeps d (write_text p text)
  unfolding write_text
  Keeps-write_text p text h = record {
    kept = λ w.
        (Keeps-writing (write_content w.now text p)
            (λ fs. write_content-apart p w.now text fs h)).kept
          w;
    calm = λ w quiet.
        (Keeps-writing (write_content w.now text p)
            (λ fs. write_content-apart p w.now text fs h)).calm
          w quiet;
  }

  -- A command that leaves the directory alone.
  pub Keeps-run_command :
      (exec : Execer) (c : Cmd)
      → ((log : List Cmd) (fs : Fs) → subtree d (exec log c fs).1 ≡ subtree d fs)
      → Keeps d (run_command exec c)
  unfolding run_command
  Keeps-run_command exec c spares = record {
    kept = λ w. spares w.commands w.fs;
    calm = λ w quiet. quiet;
  }

  pub Keeps-if :
      {A : Type 0} (b : Bool) (m n : Sys A) → Keeps d m → Keeps d n → Keeps d (if b then m else n)
  Keeps-if true m n h k = h
  Keeps-if false m n h k = k

  pub Keeps-stat : (p : FilePath) → Keeps d (stat p)
  unfolding stat
  Keeps-stat p = Keeps-reading err (stat_file p)

  pub Keeps-read_file : (p : FilePath) → Keeps d (read_file p)
  unfolding read_file
  Keeps-read_file p = Keeps-reading err (read_content p)

  pub Keeps-glob : (pat : Pattern) → Keeps d (glob pat)
  unfolding glob
  Keeps-glob pat = Keeps-reading (λ e. ([], some e)) (λ fs. (glob_files pat fs, none))
