-- ===== src/Tests/Server.antt =====
-- A run of `Start` and `Stop`: the server serves, is found and stopped, and `Stop` takes the token.
use gpupgrade.Base.{
  ℕ, ◌≡◌, ◌≢◌, refl, true, [], ◌∷◌, none, some, Option, String, if◌then◌else◌, ◌==◌, string_eq,
}
use gpupgrade.System.{plain, Error}
use gpupgrade.Server.{
  ended, serving, receiving, returned, waiting, Mutex, Server, new_server, StartStep, StopStep,
  by_start, by_stop, Runs, begin, next, close_conns, closed, close_failed, cancelled,
}
use gpupgrade.Server.Progress.{stop_again-blocked}

abbrev stopping : ℕ → Server
stopping calls = record {
  start = serving;
  stop = receiving;
  mutex = Mutex.by_stop;
  made = true;
  stopped = true;
  tokens = 0;
  calls = calls;
}

stopping_run : (calls : ℕ) → Runs (new_server calls) 7 (stopping calls)
stopping_run calls =
    next
      (next
        (next
          (next
            (next
              (next (next begin (by_start (λ e. cc) (StartStep.listen refl)))
                (by_start (λ e. cc) (StartStep.lock refl refl)))
              (by_start (λ e. cc) (StartStep.set refl)))
            (by_start (λ e. cc) (StartStep.serve refl)))
          (by_stop (λ e. cc) (StopStep.lock refl refl)))
        (by_stop (λ e. cc) (StopStep.found refl refl)))
      (by_stop (λ e. cc) (StopStep.stop_server refl))

abbrev finished : ℕ → Server
finished calls = record {
  start = ended;
  stop = returned;
  mutex = Mutex.free;
  made = true;
  stopped = true;
  tokens = 0;
  calls = calls;
}

finished_run : (calls : ℕ) → Runs (new_server calls) 10 (finished calls)
finished_run calls =
    next
      (next (next (stopping_run calls) (by_start (λ e. cc) (StartStep.end_serve refl refl)))
        (by_start (λ e. cc) (StartStep.send refl refl)))
      (by_stop (λ e. cc) (StopStep.receive 0 refl refl))

stop_again-blocked_example : (record (finished 1) { stop = waiting; calls = 0 }).stop ≢ returned
stop_again-blocked_example =
    stop_again-blocked 1 10 0 0 (finished 1) (record (finished 1) { stop = waiting; calls = 0 })
      (finished_run 1) refl refl begin

abbrev close_by : String → Option Error
close_by host = if host == "sdw1" then some (plain "closing") else none

-- Every connection is closed, one that fails included; then they are cancelled, the last one first.
closes :
    close_conns close_by ("sdw1" ∷ "sdw2" ∷ [])
    ≡ close_failed "sdw1" (plain "closing")
      ∷ closed "sdw2"
      ∷ cancelled "sdw2"
      ∷ cancelled "sdw1"
      ∷ []
unfolding close_conns
closes = refl
