-- ===== src/Server/Laws.antt =====
-- Runs of `Start` and `Stop`: they end, a `Stop` returns, and it does so once.
use gpupgrade.Base.{ℕ, suc, Bool, true, false, ◌≡◌, ◌≢◌, refl, ◌+◌, ◌*◌, ◌≤◌, arith}
use gpupgrade.Server.{
  StartPc, listening, locking, setting, registering, serving, sending, ended, fatal, StopPc,
  waiting, testing, closing, receiving, returned, Mutex, Server, new_server, StartStep, StopStep,
  Step, by_start, by_stop, Runs, begin, next,
}

-- The steps that are left at most.
abbrev pub start_rank : StartPc → ℕ
start_rank listening = 6
start_rank locking = 5
start_rank setting = 4
start_rank registering = 3
start_rank serving = 2
start_rank sending = 1
start_rank ended = 0
start_rank fatal = 0

abbrev pub stop_rank : StopPc → ℕ
stop_rank waiting = 4
stop_rank testing = 3
stop_rank closing = 2
stop_rank receiving = 1
stop_rank returned = 0

abbrev pub measure : Server → ℕ
measure s = start_rank s.start + stop_rank s.stop + 5 * s.calls

StartStep-measure : {s t : Server} → StartStep s t → suc (measure t) ≤ measure s
StartStep-measure (StartStep.listen e) = ground arith
StartStep-measure (StartStep.no_listen e) = ground arith
StartStep-measure (StartStep.lock e f) = ground arith
StartStep-measure (StartStep.set e) = ground arith
StartStep-measure (StartStep.serve e) = ground arith
StartStep-measure (StartStep.fail e) = ground arith
StartStep-measure (StartStep.end_serve e f) = ground arith
StartStep-measure (StartStep.send e f) = ground arith

StopStep-measure : {s t : Server} → StopStep s t → suc (measure t) ≤ measure s
StopStep-measure (StopStep.lock e f) = ground arith
StopStep-measure (StopStep.leave e f) = ground arith
StopStep-measure (StopStep.found e f) = ground arith
StopStep-measure (StopStep.stop_server e) = ground arith
StopStep-measure (StopStep.receive n e f) = ground arith
StopStep-measure (StopStep.again n e f) = ground arith

Step-measure : {s t : Server} → Step s t → suc (measure t) ≤ measure s
Step-measure (by_start l st) = StartStep-measure st
Step-measure (by_stop l st) = StopStep-measure st

Runs-measure : {s t : Server} {n : ℕ} → Runs s n t → n + measure t ≤ measure s
Runs-measure begin = omega arith
Runs-measure (next r st) = omega (arith, Runs-measure r, Step-measure st)

-- Every interleaving of `Start` with a `Stop` that is called `calls` more times ends, after at most
-- ten steps and five for each further call.
pub Runs-bounded : (calls n : ℕ) (t : Server) → Runs (new_server calls) n t → n ≤ 10 + 5 * calls
Runs-bounded calls n t r = omega (arith, Runs-measure r)

abbrev early : StartPc → Bool
early listening = true
early locking = true
early setting = true
early other = false

abbrev in_lock : StopPc → Bool
in_lock waiting = false
in_lock returned = false
in_lock other = true

abbrev deep : StopPc → Bool
deep closing = true
deep receiving = true
deep other = false

-- What holds in each state that a new server reaches.
pub record IsSound (s : Server) : Type 0 where
  pub held_by_start : s.mutex ≡ Mutex.by_start → s.start ≡ setting
  pub held_by_stop : s.mutex ≡ Mutex.by_stop → in_lock s.stop ≡ true
  pub unmade : early s.start ≡ true → s.made ≡ false
  pub is_made : early s.start ≡ false → s.start ≢ fatal → s.made ≡ true
  pub deep_made : deep s.stop ≡ true → s.made ≡ true
  pub few : s.tokens ≤ 1
  pub token : s.tokens ≢ 0 → s.start ≡ ended
  pub called : s.stop ≡ receiving → s.stopped ≡ true
  pub settled : s.stopped ≡ true → s.stop ≢ receiving → s.start ≡ ended
  pub taken : s.stopped ≡ true → s.stop ≢ receiving → s.tokens ≡ 0
  pub stopped_made : s.stopped ≡ true → s.made ≡ true

new_server-IsSound : (calls : ℕ) → IsSound (new_server calls)
new_server-IsSound calls = record {
  held_by_start = λ h. cc;
  held_by_stop = λ h. cc;
  unmade = λ h. refl;
  is_made = λ h l. cc;
  deep_made = λ h. cc;
  few = omega arith;
  token = λ h. absurd (h refl);
  called = λ h. cc;
  settled = λ h l. cc;
  taken = λ h l. refl;
  stopped_made = λ h. cc;
}

StartStep-IsSound : {s t : Server} → IsSound s → StartStep s t → IsSound t
StartStep-IsSound i (StartStep.listen e) = ground arith
StartStep-IsSound i (StartStep.no_listen e) = ground arith
StartStep-IsSound i (StartStep.lock e f) = ground arith
StartStep-IsSound i (StartStep.set e) = ground arith
StartStep-IsSound i (StartStep.serve e) = ground arith
StartStep-IsSound i (StartStep.fail e) = ground arith
StartStep-IsSound i (StartStep.end_serve e f) = ground arith
StartStep-IsSound i (StartStep.send e f) = ground arith

StopStep-IsSound : {s t : Server} → IsSound s → StopStep s t → IsSound t
StopStep-IsSound i (StopStep.lock e f) = ground arith
StopStep-IsSound i (StopStep.leave e f) = ground arith
StopStep-IsSound i (StopStep.found e f) = ground arith
StopStep-IsSound i (StopStep.stop_server e) = ground arith
StopStep-IsSound i (StopStep.receive n e f) = ground arith
StopStep-IsSound i (StopStep.again n e f) = ground arith

pub Runs-IsSound : {calls n : ℕ} {s : Server} → Runs (new_server calls) n s → IsSound s
Runs-IsSound {calls} begin = new_server-IsSound calls
Runs-IsSound (next r (by_start l st)) = StartStep-IsSound (Runs-IsSound r) st
Runs-IsSound (next r (by_stop l st)) = StopStep-IsSound (Runs-IsSound r) st
