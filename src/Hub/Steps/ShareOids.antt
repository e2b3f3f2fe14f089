-- ===== src/Hub/Steps/ShareOids.antt =====
-- hub/services/hub_upgrade_share_oids.go: the state directory after the step.
use mathlib.Core.Path.{subst}
use gpupgrade.Base.{
  String, Bool, true, false, ◌||◌, ◌≡◌, refl, ◌∙◌, Option, none, some, List, [], ◌∷◌, arith, any,
}
use gpupgrade.System.{FilePath, ◌/◌, Fs, Error, World, Execer, Cmd, run_command}
use gpupgrade.Idl.{share_oids}
use gpupgrade.Config.Segment.{Codec, MapOrder}
use gpupgrade.Config.Reader.{Reader, get_hostnames}
use gpupgrade.Config.Reader.Keeps.{get_hostnames-Keeps}
use gpupgrade.Checklist.{new_checklist_manager}
use gpupgrade.Checklist.Lifecycle.{Phase, Shows, started, failed}
use gpupgrade.Checklist.Calm.{
  fail_again, Exists, begun, begun-Gives, fail-Gives, finish-Gives, Shows-subtree,
}
use gpupgrade.Status.StateCheck.{get_status, reply}
use gpupgrade.Cluster.Ssher.{is_error}
use gpupgrade.Cluster.Ssher.Laws.{Spares, outcome_status}
use gpupgrade.Hub.Steps.{
  rsync_command, hosts_of, rsync_all, after_rsync, finish_share, share_oid_files,
}
use gpupgrade.Hub.Steps.Laws.{step_check, shown_status, Ended, ran}

module _ (exec : Execer) (base : FilePath) where
  -- The phase while `rsync` runs over the hosts: started until one failed.
  abbrev pub copying : Bool → Phase
  copying true = failed
  copying false = started

  pub after_rsync-copying :
      (e : Option Error) (b : Bool) (w : World)
      → w.faults ≡ []
      → Shows (base / "share-oids") (copying b) w.fs
      → let r = after_rsync exec (new_checklist_manager base) e b w in
        (r.0 ≡ (b || is_error e))
        × (r.1.faults ≡ [])
        × Shows (base / "share-oids") (copying r.0) r.1.fs
  unfolding after_rsync
  after_rsync-copying none true w calm h = (refl, calm, h)
  after_rsync-copying none false w calm h = (refl, calm, h)
  after_rsync-copying (some e) true w calm h =
      let (quiet, k) = fail_again base "share-oids" w calm h in (refl, quiet, k)
  after_rsync-copying (some e) false w calm h =
      let (_, quiet, k) = fail-Gives base "share-oids" w calm h in (refl, quiet, k)

  finish_share-Ended :
      (b : Bool) (w : World)
      → w.faults ≡ []
      → Shows (base / "share-oids") (copying b) w.fs
      → Ended base "share-oids" b (finish_share exec (new_checklist_manager base) b w).1
  unfolding finish_share
  finish_share-Ended true w calm h = (calm, h)
  finish_share-Ended false w calm h =
      let (e, quiet, k) = finish-Gives base "share-oids" w calm h in (quiet, k)

  module _ (spares : Spares exec (base / "share-oids")) where
    rsync_all-Shows :
        (hosts : List String) (b : Bool) (w : World)
        → w.faults ≡ []
        → Shows (base / "share-oids") (copying b) w.fs
        → let r = rsync_all exec base hosts b w in
          (r.1.faults ≡ []) × Shows (base / "share-oids") (copying r.0) r.1.fs
    unfolding rsync_all run_command
    rsync_all-Shows [] b w calm h = (calm, h)
    rsync_all-Shows (host ∷ hosts) b w calm h =
        let r = run_command exec (rsync_command base host) w in
        let (one, quiet, k) =
          after_rsync-copying r.0.error b r.1 calm
            (ran exec base "share-oids" _ (copying b) w spares h) in
        let s = after_rsync exec (new_checklist_manager base) r.0.error b r.1 in
        rsync_all-Shows hosts s.0 s.1 quiet k

    -- Whatever the commands do elsewhere, the step ends.
    pub share_oid_files-ends :
        (json : Codec) (order : MapOrder) (reader : Reader) (w : World)
        → w.faults ≡ []
        → Exists base w.fs
        → let found = get_hostnames json order reader (begun base "share-oids" w) in
          (b : Bool) × (b ≡ (rsync_all exec base (hosts_of found.0.0) false found.1).0)
          × Ended base "share-oids" b (share_oid_files exec json order base reader w).1
    unfolding share_oid_files
    share_oid_files-ends json order reader w calm there =
        let (_, quiet, h) = begun-Gives base "share-oids" w calm there in
        let v = begun base "share-oids" w in
        let keeps = get_hostnames-Keeps (base / "share-oids") json order reader in
        let found = get_hostnames json order reader v in
        let (calm', k) =
          rsync_all-Shows (hosts_of found.0.0) false found.1 (keeps.calm v quiet)
            (Shows-subtree (base / "share-oids") started v.fs _ (keeps.kept v) h) in
        let r = rsync_all exec base (hosts_of found.0.0) false found.1 in
        (r.0, refl, finish_share-Ended r.0 r.1 calm' k)

  after_rsync-or :
      (e : Option Error) (b : Bool) (w : World)
      → (after_rsync exec (new_checklist_manager base) e b w).0 ≡ (b || is_error e)
  unfolding after_rsync
  after_rsync-or none true w = refl
  after_rsync-or none false w = refl
  after_rsync-or (some e) true w = refl
  after_rsync-or (some e) false w = refl

  module _ (spares : Spares exec (base / "share-oids")) (fails : String → Bool)
      (rsync : (h : String) (log : List Cmd) (fs : Fs)
        → is_error (exec log (rsync_command base h) fs).0.error ≡ fails h) where
    rsync_all-any :
        (hosts : List String) (b : Bool) (w : World)
        → (rsync_all exec base hosts b w).0 ≡ (b || any fails hosts)
    unfolding rsync_all run_command
    rsync_all-any [] b w = ground arith
    rsync_all-any (host ∷ hosts) b w =
        let r = run_command exec (rsync_command base host) w in
        let s = after_rsync exec (new_checklist_manager base) r.0.error b r.1 in
        ground (
          arith,
          rsync host w.commands w.fs,
          rsync_all-any hosts s.0 s.1,
          after_rsync-or r.0.error b r.1,
        )

    pub share_oid_files-Ended :
        (json : Codec) (order : MapOrder) (reader : Reader) (w : World)
        → w.faults ≡ []
        → Exists base w.fs
        → let w' = (share_oid_files exec json order base reader w).1 in
          let found = (get_hostnames json order reader (begun base "share-oids" w)).0.0 in
          Ended base "share-oids" (any fails (hosts_of found)) w'
    share_oid_files-Ended json order reader w calm there =
        let found = get_hostnames json order reader (begun base "share-oids" w) in
        let (b, same, ended) = share_oid_files-ends spares json order reader w calm there in
        subst (λ b. Ended base "share-oids" b (share_oid_files exec json order base reader w).1)
          (same ∙ rsync_all-any (hosts_of found.0.0) false found.1) ended

    -- If whether `rsync` fails depends on the host alone, no file operation fails, the state
    -- directory exists and the commands leave the step's own directory alone, then after
    -- `shareOidFiles` the step is failed if `rsync` fails on a host that the reader names, and
    -- else complete: so it is complete too if the reader could name no host.
    pub share_oid_files-status :
        (json : Codec) (order : MapOrder) (reader : Reader) (w : World)
        → w.faults ≡ []
        → Exists base w.fs
        → let w' = (share_oid_files exec json order base reader w).1 in
          let found = (get_hostnames json order reader (begun base "share-oids" w)).0.0 in
          (get_status (step_check base "share-oids" share_oids) w').0
          ≡ reply share_oids (outcome_status (any fails (hosts_of found)))
    share_oid_files-status json order reader w calm there =
        shown_status base "share-oids" share_oids _ _
          (share_oid_files-Ended json order reader w calm there)
