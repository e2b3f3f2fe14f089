-- ===== src/System/Stable.antt =====
-- What stays true of the file tree over an action, whichever call of it fails.
use gpupgrade.Base.{ℕ, List, sym, if◌then◌else◌, Bool, true, false, Option}
use gpupgrade.System.Path.{FilePath}
use gpupgrade.System.Files.{Fs, Error, create_file}
use gpupgrade.System.Calls.{
  World, Sys, pure, ◌>>=◌, Execer, Cmd, run_command, writing, writing_rule, open_create,
}
use mathlib.Core.Path.{subst}

pub record Stable {A : Type 0} (P : Fs → Type 0) (m : Sys A) : Type 0 where
  pub stays : (w : World) → P w.fs → P (m w).1.fs

module _ (P : Fs → Type 0) where
  pub Stable-pure : {A : Type 0} (a : A) → Stable P (pure a)
  Stable-pure a = record { stays = λ w p. p }

  pub Stable-bind :
      {A B : Type 0} (m : Sys A) (f : A → Sys B)
      → Stable P m
      → ((a : A) → Stable P (f a))
      → Stable P (m >>= f)
  Stable-bind m f h k = record { stays = λ w p. (k (m w).0).stays (m w).1 (h.stays w p) }

  pub Stable-writing :
      (f : Fs → Option Error × Fs) → ((fs : Fs) → P fs → P (f fs).1) → Stable P (writing f)
  Stable-writing f h = record {
    stays = λ w p.
        writing_rule (λ r. P r.1.fs) f w (λ e w' k. subst P (sym k) p)
          (λ w' k. subst P (sym k) (h w.fs p));
  }

  pub Stable-open_create :
      (path : FilePath)
      → ((now : ℕ) (fs : Fs) → P fs → P (create_file now path fs).1)
      → Stable P (open_create path)
  unfolding open_create
  Stable-open_create path h = record {
    stays = λ w. (Stable-writing (create_file w.now path) (h w.now)).stays w;
  }

  pub Stable-run_command :
      (exec : Execer) (c : Cmd)
      → ((log : List Cmd) (fs : Fs) → P fs → P (exec log c fs).1)
      → Stable P (run_command exec c)
  unfolding run_command
  Stable-run_command exec c h = record { stays = λ w. h w.commands w.fs }

  pub Stable-if :
      {A : Type 0} (b : Bool) (m n : Sys A)
      → Stable P m
      → Stable P n
      → Stable P (if b then m else n)
  Stable-if true m n h k = h
  Stable-if false m n h k = k
