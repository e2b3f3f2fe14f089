-- ===== src/Server.antt =====
-- hub/services/hub.go, `Start`, `Stop` and `closeConns`, and agent/services/agent_server.go, whose `Start`
-- and `Stop` are the same but for the connections. `Start` runs in one goroutine and `Stop` in another;
-- a step is what one of them does between two points where the other may come in.
pub mod Laws
pub mod Progress
use gpupgrade.Base.{
  ℕ, zero, suc, String, Bool, true, false, ◌≡◌, ◌≢◌, Option, none, some, List, [], ◌∷◌, ◌++◌,
}
use gpupgrade.System.{Error}

-- Where `Start` stands.
pub data StartPc : Type 0 where
  listening : StartPc  -- before `net.Listen`
  locking : StartPc  -- before `h.mu.Lock()`
  setting : StartPc  -- in the lock, before `h.server = server`
  registering : StartPc  -- after the lock, before `server.Serve`
  serving : StartPc  -- in `server.Serve`
  sending : StartPc  -- before `h.stopped <- struct{}{}`
  ended : StartPc
  fatal : StartPc  -- `gplog.Fatal` has ended the process

-- Where `Stop` stands.
pub data StopPc : Type 0 where
  waiting : StopPc  -- before `h.mu.Lock()`
  testing : StopPc  -- in the lock, before `h.server != nil`
  closing : StopPc  -- before `h.closeConns()` and `h.server.Stop()`
  receiving : StopPc  -- before `<-h.stopped`
  returned : StopPc

pub data Mutex : Type 0 where
  free by_start by_stop : Mutex

pub record Server : Type 0 where
  pub start : StartPc
  pub stop : StopPc
  pub mutex : Mutex
  -- `h.server != nil`, and whether its `Stop` has been called
  pub made : Bool
  pub stopped : Bool
  -- the tokens in the channel `h.stopped`, which has room for one
  pub tokens : ℕ
  -- how often `Stop` will be called again once it has returned
  pub calls : ℕ

-- A server of `NewHub`, with `Start` and a first `Stop` about to run.
abbrev pub new_server : ℕ → Server
new_server calls = record {
  start = listening;
  stop = waiting;
  mutex = free;
  made = false;
  stopped = false;
  tokens = 0;
  calls = calls;
}

-- What `Start` does. The library's `Serve` returns with no error only after the server's `Stop`; called
-- after it, `Serve` may return with or without an error.
pub data StartStep (s : Server) : Server → Type 0 where
  listen : s.start ≡ listening → StartStep s (record s { start = locking })
  no_listen : s.start ≡ listening → StartStep s (record s { start = fatal })
  lock :
      s.start ≡ locking
      → s.mutex ≡ free
      → StartStep s (record s { start = setting; mutex = by_start })
  set :
      s.start ≡ setting → StartStep s (record s { start = registering; mutex = free; made = true })
  serve : s.start ≡ registering → StartStep s (record s { start = serving })
  fail : s.start ≡ serving → StartStep s (record s { start = fatal })
  end_serve : s.start ≡ serving → s.stopped ≡ true → StartStep s (record s { start = sending })
  send : s.start ≡ sending → s.tokens ≡ 0 → StartStep s (record s { start = ended; tokens = 1 })

-- What `Stop` does, while the process runs.
pub data StopStep (s : Server) : Server → Type 0 where
  lock :
      s.stop ≡ waiting → s.mutex ≡ free → StopStep s (record s { stop = testing; mutex = by_stop })
  leave :
      s.stop ≡ testing → s.made ≡ false → StopStep s (record s { stop = returned; mutex = free })
  found : s.stop ≡ testing → s.made ≡ true → StopStep s (record s { stop = closing })
  stop_server : s.stop ≡ closing → StopStep s (record s { stop = receiving; stopped = true })
  receive :
      (n : ℕ)
      → s.stop ≡ receiving
      → s.tokens ≡ suc n
      → StopStep s (record s { stop = returned; mutex = free; tokens = n })
  again :
      (n : ℕ)
      → s.stop ≡ returned
      → s.calls ≡ suc n
      → StopStep s (record s { stop = waiting; calls = n })

pub data Step (s t : Server) : Type 0 where
  by_start : s.start ≢ fatal → StartStep s t → Step s t
  by_stop : s.start ≢ fatal → StopStep s t → Step s t

-- `Runs n s t`: n steps lead from s to t.
pub data Runs (s : Server) : ℕ → Server → Type 0 where
  begin : Runs s 0 s
  next : {n : ℕ} {t u : Server} → Runs s n t → Step t u → Runs s (suc n) u

-- What `closeConns` does to a connection.
pub data Event : Type 0 where
  closed cancelled : String → Event
  close_failed : String → Error → Event

-- A deferred call runs when the function returns, the last one first.
abbrev run_deferred : List String → List Event
run_deferred [] = []
run_deferred (host ∷ hosts) = cancelled host ∷ run_deferred hosts

abbrev close_event : String → Option Error → Event
close_event host none = closed host
close_event host (some e) = close_failed host e

close_loop : (String → Option Error) → List String → List String → List Event
close_loop close [] deferred = run_deferred deferred
close_loop close (host ∷ hosts) deferred =
    close_event host (close host) ∷ close_loop close hosts (host ∷ deferred)

-- `closeConns`, on the hosts of the connections and what `Close` returns for each.
unfoldable pub close_conns : (String → Option Error) → List String → List Event
unfolding close_loop
close_conns close hosts = close_loop close hosts []
