-- ===== src/Server/Progress.antt =====
-- A first `Stop` returns; a second one does not.
use gpupgrade.Base.{ℕ, Bool, true, false, ◌≡◌, ◌≢◌, arith}
use gpupgrade.Server.{
  ended, StopPc, waiting, receiving, returned, Server, new_server, StartStep, StopStep, Step,
  by_start, by_stop, Runs, begin, next,
}
use gpupgrade.Server.Laws.{Runs-IsSound}

abbrev late : StopPc → Bool
late receiving = true
late returned = true
late other = false

-- What else holds where `Stop` is called once.
record IsFirst (s : Server) : Type 0 where
  none_left : s.calls ≡ 0
  once : s.stopped ≡ true → late s.stop ≡ true
  used : s.start ≡ ended → s.tokens ≡ 0 → s.stop ≡ returned

-- Some step is possible.
abbrev pub Moves : Server → Type 0
Moves s = (t : Server) × Step s t

-- However often `Stop` is called: when the server has been stopped and no `Stop` waits for the token,
-- `Start` has sent the token and ended, and the token has been taken.
stop-after-start :
    (calls n : ℕ) (s : Server)
    → Runs (new_server calls) n s
    → s.stopped ≡ true
    → s.stop ≢ receiving
    → (s.start ≡ ended) × (s.tokens ≡ 0)
stop-after-start calls n s r stopped ne =
    let sound = Runs-IsSound r in (sound.settled stopped ne, sound.taken stopped ne)

-- `Stop` has been called again, after a call that stopped the server.
record IsStuck (s : Server) : Type 0 where
  over : s.start ≡ ended
  empty : s.tokens ≡ 0
  there : s.made ≡ true
  unreturned : s.stop ≢ returned

Step-IsStuck : {s t : Server} → IsStuck s → Step s t → IsStuck t
Step-IsStuck i (by_start l (StartStep.listen e)) = ground arith
Step-IsStuck i (by_start l (StartStep.no_listen e)) = ground arith
Step-IsStuck i (by_start l (StartStep.lock e f)) = ground arith
Step-IsStuck i (by_start l (StartStep.set e)) = ground arith
Step-IsStuck i (by_start l (StartStep.serve e)) = ground arith
Step-IsStuck i (by_start l (StartStep.fail e)) = ground arith
Step-IsStuck i (by_start l (StartStep.end_serve e f)) = ground arith
Step-IsStuck i (by_start l (StartStep.send e f)) = ground arith
Step-IsStuck i (by_stop l (StopStep.lock e f)) = ground arith
Step-IsStuck i (by_stop l (StopStep.leave e f)) = ground arith
Step-IsStuck i (by_stop l (StopStep.found e f)) = ground arith
Step-IsStuck i (by_stop l (StopStep.stop_server e)) = ground arith
Step-IsStuck i (by_stop l (StopStep.receive n e f)) = ground arith
Step-IsStuck i (by_stop l (StopStep.again n e f)) = ground arith

Runs-IsStuck : {s t : Server} {n : ℕ} → IsStuck s → Runs s n t → IsStuck t
Runs-IsStuck i begin = i
Runs-IsStuck i (next r st) = Step-IsStuck (Runs-IsStuck i r) st

-- After a `Stop` that has stopped the server, a further `Stop` never returns, whatever runs: it waits for
-- a second token.
pub stop_again-blocked :
    (calls n n' k : ℕ) (s t : Server)
    → Runs (new_server calls) n s
    → s.stop ≡ returned
    → s.stopped ≡ true
    → Runs (record s { stop = waiting; calls = k }) n' t
    → t.stop ≢ returned
stop_again-blocked calls n n' k s t r h stopped later =
    let sound = Runs-IsSound r in
    (Runs-IsStuck
      (record {
        over = sound.settled stopped (λ other. cc);
        empty = sound.taken stopped (λ other. cc);
        there = sound.stopped_made stopped;
        unreturned = λ other. cc;
      })
      later).unreturned
