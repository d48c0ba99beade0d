-- ===== src/ExtProcess/Lifetime.antt =====
-- `terminate`, `pause` and `restart`: the signals that they send.
use modglue.Common.{
  false, ℕ, ◌≡◌, ◌≢◌, refl, ap, ◌∙◌, Bool, true, List, [], ◌∷◌, ◌++◌, ◌==◌, if◌then◌else◌, arith,
  none,
}
use modglue.System.{
  Call, Signal, closes, nonblock, kills, dups, execs, waits, writes, sets_modes, sigterm,
}
use modglue.Pipe.{Pipe, close_pipe}
use modglue.ExtProcess.{ExtProcess, each_pipe, terminate, pause, restart, probe_and_kill}

-- The signals that a list of calls sends.
abbrev pub signals : List Call → List (ℕ × Signal)
signals [] = []
signals (kills pid s ∷ calls) = (pid, s) ∷ signals calls
signals (_ ∷ calls) = signals calls

signals-append : (xs ys : List Call) → signals (xs ++ ys) ≡ signals xs ++ signals ys
signals-append [] ys = refl
signals-append (kills pid s ∷ xs) ys = ap (◌∷◌ (pid, s)) (signals-append xs ys)
signals-append (closes n ∷ xs) ys = signals-append xs ys
signals-append (nonblock n ∷ xs) ys = signals-append xs ys
signals-append (dups n m ∷ xs) ys = signals-append xs ys
signals-append (execs n m ∷ xs) ys = signals-append xs ys
signals-append (waits n ∷ xs) ys = signals-append xs ys
signals-append (writes n t ∷ xs) ys = signals-append xs ys
signals-append (sets_modes n ∷ xs) ys = signals-append xs ys

signals-close_pipe : (p : Pipe) → signals (close_pipe p).1 ≡ []
unfolding close_pipe
signals-close_pipe p = ground arith

signals-each_pipe : (ps : List Pipe) → signals (each_pipe close_pipe ps).1 ≡ []
unfolding each_pipe
signals-each_pipe [] = refl
signals-each_pipe (p ∷ ps) =
    signals-append (close_pipe p).1 (each_pipe close_pipe ps).1
    ∙ rw (signals-close_pipe p) (signals-each_pipe ps)

abbrev pub IsClosed : List Pipe → Type 0
IsClosed [] = Unit {0}
IsClosed (p ∷ ps) = (p.fd ≡ none) × IsClosed ps

each_pipe-IsClosed : (ps : List Pipe) → IsClosed (each_pipe close_pipe ps).0
unfolding each_pipe close_pipe
each_pipe-IsClosed [] = tt
each_pipe-IsClosed (p ∷ ps) = (ground arith, each_pipe-IsClosed ps)

-- `terminate` closes our end of every pipe, forgets the process and stores the exit code. It sends
-- SIGTERM if there is a process and the probe does not find it alive, and no other signal.
pub terminate_lem :
    (p : ExtProcess) (exit_code : ℕ) (alive : Bool)
    → let (p', calls) = terminate p exit_code alive in
      (p'.pid ≡ 0)
      × (p'.exit_code ≡ exit_code)
      × IsClosed p'.input_pipes
      × IsClosed p'.output_pipes
      × (signals calls ≡ (if p.pid == 0 then [] else if alive then [] else (p.pid, sigterm) ∷ []))
unfolding terminate
terminate_lem p exit_code alive = (
  refl,
  refl,
  each_pipe-IsClosed p.input_pipes,
  each_pipe-IsClosed p.output_pipes,
  signals-append (each_pipe close_pipe p.input_pipes).1 _
      ∙ rw (signals-each_pipe p.input_pipes) (
          signals-append (each_pipe close_pipe p.output_pipes).1 _
          ∙ rw (signals-each_pipe p.output_pipes) (unfold probe_and_kill in ground arith)),
)

-- A process that is alive is sent no signal: not by `terminate`, nor by `pause` and `restart`, though
-- these change the flag that says whether it is paused. `kill(pid, 0)` is 0 where the process is
-- there, and the code takes that for a failure.
pub alive_no_signal :
    (p : ExtProcess) (exit_code : ℕ)
    → p.pid ≢ 0
    → (signals (terminate p exit_code true).1 ≡ [])
      × (signals (pause p true).1 ≡ [])
      × (signals (restart p true).1 ≡ [])
      × ((pause p true).0.paused ≡ true)
      × ((restart p true).0.paused ≡ false)
unfolding pause restart
alive_no_signal p exit_code there = (
  (terminate_lem p exit_code true).4 ∙ ground arith,
  ground arith,
  ground arith,
  ground arith,
  ground arith,
)
