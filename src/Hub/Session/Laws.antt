-- ===== src/Hub/Session/Laws.antt =====
-- What the works of the steps leave in their directories.
use mathlib.Core.Path.{subst}
use gpupgrade.Base.{
  String, ◌≡◌, ◌≢◌, ◌⊎◌, inl, inr, refl, sym, ◌∙◌, ap, [], ◌==◌, string_eq, ==_iff, text_ne,
  Bool-cases, if◌then◌else◌,
}
use gpupgrade.System.{FilePath, ◌/◌, World}
use gpupgrade.System.FilesLaws.{subtree}
use gpupgrade.Checklist.Lifecycle.{
  Phase, Shows, missing, idle, started, failed, done, perform, fail,
}
use gpupgrade.Checklist.Calm.{
  fail_again, Shows-subtree, cleared-Gives, start-Gives, fail-Gives, finish-Gives,
}
use gpupgrade.Checklist.Keeps.{
  Keeps-reset_state_dir, Keeps-mark_in_progress, Keeps-mark_failed, Keeps-mark_complete,
}
use gpupgrade.Status.StateCheck.{get_status, reply}
use gpupgrade.Status.StateCheck.Laws.{get_status-Shows, phase_status}
use gpupgrade.Cluster.Ssher.Laws.{Spares}
use gpupgrade.Hub.SaveConfig.Keeps.{check_config-Keeps}
use gpupgrade.Hub.Hosts.Keeps.{check_seginstall-kept, prepare_start_agents-kept}
use gpupgrade.Hub.Steps.Keeps.{
  share_oid_files-Keeps, start_new_cluster-Keeps, reconfigure_ports-Keeps,
}
use gpupgrade.Hub.Session.{
  Step, checking, installing, starting_agents, sharing, validating, reconfiguring, dir_name,
  upgrade_step, Setting, Serves, checks_config, checks_seginstall, starts_agents, shares_oids,
  validates, reconfigures, Stage, resting, launched, cleared, working, failing, Does, clears,
  begins, goes_on, fails, still_goes_on, fails_again, finishes, gives_up, set_stage, Session, opens,
  launches, works, meanwhile,
}

pub not_config_file : (s : Step) → "cluster_config.json" ≢ dir_name s
not_config_file checking = text_ne _ _ refl
not_config_file installing = text_ne _ _ refl
not_config_file starting_agents = text_ne _ _ refl
not_config_file sharing = text_ne _ _ refl
not_config_file validating = text_ne _ _ refl
not_config_file reconfiguring = text_ne _ _ refl

-- A request for one step, with what it starts in the background, leaves the directory of every other
-- step as it is, whichever file operation fails, if the commands leave that directory alone.
pub Serves-own :
    (h : Setting) (s t : Step) (v u : World)
    → dir_name s ≢ dir_name t
    → Spares h.exec (h.base / dir_name t)
    → Serves h v s u
    → subtree (h.base / dir_name t) u.fs ≡ subtree (h.base / dir_name t) v.fs
Serves-own h checking t v u apart spares (checks_config port bin) =
    (check_config-Keeps h.json h.db h.env h.base port bin (dir_name t) apart
        (not_config_file t)).kept
      v
Serves-own h installing t v u apart spares (checks_seginstall r) =
    check_seginstall-kept h.exec h.json h.order h.base h.gphome r (dir_name t) spares v apart
Serves-own h starting_agents t v u apart spares (starts_agents pinged r) =
    prepare_start_agents-kept h.exec h.json h.order h.base h.gphome r (dir_name t) spares v pinged
      apart
Serves-own h sharing t v u apart spares (shares_oids r) =
    (share_oid_files-Keeps h.exec h.base (dir_name t) spares apart h.json h.order r).kept v
Serves-own h validating t v u apart spares (validates new_bin_dir new_data_dir) =
    (start_new_cluster-Keeps h.exec h.base (dir_name t) spares apart h.pythonpath new_bin_dir
        new_data_dir).kept
      v
Serves-own h reconfiguring t v u apart spares (reconfigures cp) =
    (reconfigure_ports-Keeps h.exec h.base (dir_name t) spares apart cp).kept v

step_of : String → Step
step_of name =
    if name == "check-config"
    then checking
    else if name == "seginstall"
    then installing
    else if name == "start-agents"
    then starting_agents
    else if name == "share-oids"
    then sharing
    else if name == "validate-start-cluster"
    then validating
    else reconfiguring

step_of-dir_name : (s : Step) → step_of (dir_name s) ≡ s
unfolding step_of
step_of-dir_name checking = refl
step_of-dir_name installing = refl
step_of-dir_name starting_agents = refl
step_of-dir_name sharing = refl
step_of-dir_name validating = refl
step_of-dir_name reconfiguring = refl

same_step : (s t : Step) → dir_name s ≡ dir_name t → s ≡ t
same_step s t e = sym (step_of-dir_name s) ∙ ap step_of e ∙ step_of-dir_name t

-- What the directory of a step shows, by the stage of its work.
abbrev pub ShownAt : Stage → Phase → Type 0
ShownAt resting p = (p ≡ missing) ⊎ ((p ≡ failed) ⊎ (p ≡ done))
ShownAt launched p = (p ≡ missing) ⊎ ((p ≡ failed) ⊎ (p ≡ done))
ShownAt cleared p = p ≡ idle
ShownAt working p = p ≡ started
ShownAt failing p = p ≡ failed

module _ (base : FilePath) where
  abbrev pub At : Step → Stage → World → Type 0
  At s g w = (p : Phase) × ShownAt g p × Shows (base / dir_name s) p w.fs

  At-subtree :
      (s : Step) (g : Stage) (v u : World)
      → subtree (base / dir_name s) u.fs ≡ subtree (base / dir_name s) v.fs
      → At s g v
      → At s g u
  At-subtree s g v u same (p, at, h) = (p, at, Shows-subtree (base / dir_name s) p v.fs u.fs same h)

  marked_again :
      (s : Step) (w : World)
      → w.faults ≡ []
      → Shows (base / dir_name s) failed w.fs
      → let w' = (perform base (dir_name s) fail w).1 in
        (w'.faults ≡ []) × Shows (base / dir_name s) failed w'.fs
  marked_again s w calm h = fail_again base (dir_name s) w calm h

  -- A step of the work moves its own directory along.
  Does-At :
      (s : Step) (g l : Stage) (v u : World)
      → v.faults ≡ []
      → At s g v
      → Does base s v g l u
      → (u.faults ≡ []) × At s l u
  Does-At s g l v u calm at (clears there) =
      let (e, quiet, h) = cleared-Gives base (dir_name s) v calm there in (quiet, (idle, refl, h))
  Does-At s g l v u calm (p, at, h) begins =
      let (e, quiet, k) =
        start-Gives base (dir_name s) v calm (subst (λ q. Shows (base / dir_name s) q v.fs) at h) in
      (quiet, (started, refl, k))
  Does-At s g l v u calm at (goes_on _ a) = (a.calm, At-subtree s working v u (a.same s) at)
  Does-At s g l v u calm (p, at, h) fails =
      let (e, quiet, k) =
        fail-Gives base (dir_name s) v calm (subst (λ q. Shows (base / dir_name s) q v.fs) at h) in
      (quiet, (failed, refl, k))
  Does-At s g l v u calm at (still_goes_on _ a) = (a.calm, At-subtree s failing v u (a.same s) at)
  Does-At s g l v u calm (p, at, h) fails_again =
      let (quiet, k) = marked_again s v calm (subst (λ q. Shows (base / dir_name s) q v.fs) at h) in
      (quiet, (failed, refl, k))
  Does-At s g l v u calm (p, at, h) finishes =
      let (e, quiet, k) =
        finish-Gives base (dir_name s) v calm
          (subst (λ q. Shows (base / dir_name s) q v.fs) at h) in
      (quiet, (done, inr (inr refl), k))
  Does-At s g l v u calm (p, at, h) gives_up = (calm, (p, inr (inl at), h))

  -- It leaves the other directories alone.
  Does-other :
      (s t : Step) (g l : Stage) (v u : World)
      → dir_name s ≢ dir_name t
      → Does base s v g l u
      → subtree (base / dir_name t) u.fs ≡ subtree (base / dir_name t) v.fs
  Does-other s t g l v u apart (clears there) =
      (Keeps-reset_state_dir base (dir_name s) (dir_name t) apart).kept v
  Does-other s t g l v u apart begins =
      (Keeps-mark_in_progress base (dir_name s) (dir_name t) apart).kept v
  Does-other s t g l v u apart (goes_on _ a) = a.same t
  Does-other s t g l v u apart fails =
      (Keeps-mark_failed base (dir_name s) (dir_name t) apart).kept v
  Does-other s t g l v u apart (still_goes_on _ a) = a.same t
  Does-other s t g l v u apart fails_again =
      (Keeps-mark_failed base (dir_name s) (dir_name t) apart).kept v
  Does-other s t g l v u apart finishes =
      (Keeps-mark_complete base (dir_name s) (dir_name t) apart).kept v
  Does-other s t g l v u apart gives_up = refl

  -- What holds at each moment.
  record InOrder (at : Step → Stage) (w : World) : Type 0 where
    calm : w.faults ≡ []
    shown : (s : Step) → At s (at s) w

  launched-At :
      (at : Step → Stage) (s t : Step) (w : World)
      → at s ≡ resting
      → ((r : Step) → At r (at r) w)
      → At t (set_stage at s launched t) w
  launched-At at s t w rests shown = elim (Bool-cases (dir_name t == dir_name s)) [
    | inl e ↦
        let same = same_step t s ((==_iff (dir_name t) (dir_name s)).0 e) in
        rw e (subst (λ r. At r resting w) (sym same) (subst (λ g. At s g w) rests (shown s)))
    | inr e ↦ rw e (shown t)
  ]

  worked-At :
      (at : Step → Stage) (s t : Step) (g : Stage) (v u : World)
      → Does base s v (at s) g u
      → At s g u
      → ((r : Step) → At r (at r) v)
      → At t (set_stage at s g t) u
  worked-At at s t g v u does moved shown = elim (Bool-cases (dir_name t == dir_name s)) [
    | inl e ↦
        let same = same_step t s ((==_iff (dir_name t) (dir_name s)).0 e) in
        rw e (subst (λ r. At r g u) (sym same) moved)
    | inr e ↦
        let apart : dir_name s ≢ dir_name t = λ k. text_ne (dir_name t) (dir_name s) e (sym k) in
        rw e (At-subtree t (at t) v u (Does-other s t (at s) g v u apart does) (shown t))
  ]

  Session-InOrder :
      {w u : World} {at : Step → Stage}
      → Session base w at u
      → InOrder (λ t. resting) w
      → InOrder at u
  Session-InOrder opens i = i
  Session-InOrder (launches {at} {v} s session rests) i =
      let before = Session-InOrder session i in
      record { calm = before.calm; shown = λ t. launched-At at s t v rests before.shown }
  Session-InOrder (works {at} {v} {u} s g session does) i =
      let before = Session-InOrder session i in
      let (quiet, moved) = Does-At s (at s) g v u before.calm (before.shown s) does in
      record { calm = quiet; shown = λ t. worked-At at s t g v u does moved before.shown }
  Session-InOrder (meanwhile {at} {v} u session a) i =
      let before = Session-InOrder session i in
      record { calm = a.calm; shown = λ t. At-subtree t (at t) v u (a.same t) (before.shown t) }

  -- Let the works of the steps go on side by side, in any order of their calls of the checklist and of
  -- what they do elsewhere, with at most one work of a step at a time; let no file operation fail, the
  -- state directory be in its place where a work resets its own, and what is no call of the checklist
  -- leave the directories of the steps alone. If at the start there is no work, and the directory of each
  -- step is not there or shows the step as failed or complete, then at each moment the status of each
  -- step can be read, without an error, and tells how far it is: PENDING, FAILED or COMPLETE where it has
  -- no work or the work has not begun, PENDING once its directory has been reset, RUNNING as long as the
  -- work is marked as in progress, and FAILED once the work has been marked as failed.
  pub Session-status :
      (w u : World) (at : Step → Stage) (s : Step)
      → w.faults ≡ []
      → ((t : Step) → At t resting w)
      → Session base w at u
      → (p : Phase) × ShownAt (at s) p
        × (get_status (record { path = base / dir_name s; step = upgrade_step s }) u
            ≡ (reply (upgrade_step s) (phase_status p), u))
  Session-status w u at s calm rests session =
      let i = Session-InOrder session (record { calm = calm; shown = rests }) in
      let (p, stage, shows) = i.shown s in
      (
        p,
        stage,
        get_status-Shows (record { path = base / dir_name s; step = upgrade_step s }) p u i.calm
            shows,
      )
