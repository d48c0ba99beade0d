-- ===== src/Prompt/Session/Ends.antt =====
-- The end of a session of src/prompt.cc: its `died` in the event loop of src/main.cc.
use modglue.Common.{
  ℕ, ◌≡◌, ap, sym, inl, inr, Bool, true, List, [], ◌∷◌, ◌++◌, Bytes, codes, Result, ok, >>=-eq-ok,
  Result-cases, Bool-cases, arith,
}
use modglue.System.{Call}
use modglue.Pipe.{Pipe}
use modglue.ExtProcess.Setup.{Host, setup_pipes}
use modglue.ExtProcess.Fork.{Sockets, child, fork}
use modglue.ExtProcess.Fork.Joined.{fork-pid}
use modglue.ExtProcess.{ExtProcess, new_process, input_pipe, output_pipe}
use modglue.Main.Notice.{ChildEnd, notice, pid_of}
use modglue.Main.Loop.{Handlers, Selected, ready, finished, select_loop}
use modglue.Main.Loop.Round.{has_pid}
use modglue.Main.Loop.Leave.{AreQuiet, select_loop-Leaves}
use modglue.Main.{Main, add_process, check}
use modglue.Prompt.Session.{died, runs, session, connect_program, add_streams}

has_pid-append :
    (pid : ℕ) (ps : List ExtProcess) (p : ExtProcess)
    → p.pid ≡ pid
    → has_pid pid (ps ++ p ∷ []) ≡ true
has_pid-append pid [] p h = ground arith
has_pid-append pid (q ∷ ps) p h = ground (arith, has_pid-append pid ps p h)

processes_added :
    (p : ExtProcess) (mm : Main) (stdin : Pipe) {m : Main} {t_stdin : Pipe}
    → ◌≡◌ {A = Result (Main × Pipe)} (ok (add_process p mm, stdin)) (ok (m, t_stdin))
    → m.processes ≡ mm.processes ++ p ∷ []
unfolding add_process
processes_added p mm stdin e = cc

connect_program-has_pid :
    (host : Host) (sockets : Sockets) (pid : ℕ) (proc : ExtProcess) (mm : Main) {m : Main}
    {t_stdin : Pipe}
    → connect_program host sockets (child pid) proc mm ≡ ok (m, t_stdin)
    → has_pid pid m.processes ≡ true
unfolding connect_program
connect_program-has_pid host sockets pid proc mm {m} h =
    let (set_up, first, h1) = >>=-eq-ok (setup_pipes host proc) _ h in
    let (f, forked, h2) = >>=-eq-ok (fork host sockets (child pid) set_up) _ h1 in
    let (_, out, h3) = >>=-eq-ok (input_pipe f.parent (codes "stdout")) _ h2 in
    let (_, err, h4) = >>=-eq-ok (input_pipe f.parent (codes "stderr")) _ h3 in
    let (stdin, inp, e) = >>=-eq-ok (output_pipe f.parent (codes "stdin")) _ h4 in
    rw (processes_added f.parent mm stdin e)
      (has_pid-append pid mm.processes f.parent (fork-pid host sockets pid set_up forked))

session-has_pid :
    (program : Bytes) (args : List Bytes) (sig_chld_pipe pid : ℕ) (host : Host) (sockets : Sockets)
    {m : Main} {t_stdin : Pipe}
    → session (program ∷ args) true sig_chld_pipe host sockets (child pid) ≡ runs m t_stdin
    → has_pid pid m.processes ≡ true
unfolding session
session-has_pid program args sig_chld_pipe pid host sockets {m} {t_stdin} h =
    elim (Result-cases (add_streams sig_chld_pipe (program ∷ args))) [
      | inr (e, failed) ↦ cc (rw (failed, session) at h)
      | inl (mm, added) ↦ elim (Bool-cases (check mm).0) [
        | inr listed ↦ cc (rw (added, listed, session) at h)
        | inl go ↦
            elim (Result-cases
              (connect_program host sockets (child pid) (new_process program args) mm)) [
                | inr (e, failed) ↦ cc (rw (added, go, failed, session) at h)
                | inl ((m', t), connected) ↦
                    let same : runs m' t ≡ runs m t_stdin =
                      rw (added, go, connected, session) at h in
                    let same_main : m' ≡ m = cc in
                    rw (sym same_main) (
                      connect_program-has_pid host sockets pid (new_process program args) mm
                        connected)
              ]
      ]
    ]

-- A session runs, and its loop makes any rounds in which `select` does not fail and the signal
-- handler's pipe is not ready. When then the wrapped program ends, by itself or by a signal, and the
-- handler's message is read alone, the loop ends at the latest with this round.
pub session_ends :
    (program : Bytes) (args : List Bytes) (sig_chld_pipe pid : ℕ) (host : Host) (sockets : Sockets)
    (h : Handlers) (is_set : ℕ → Bool) (answers quiet : List Selected) (e : ChildEnd) {m : Main}
    {t_stdin : Pipe}
    → session (program ∷ args) true sig_chld_pipe host sockets (child pid) ≡ runs m t_stdin
    → pid_of e ≡ pid
    → h.process_died ≡ died
    → AreQuiet m.sig_chld_pipe quiet
    → is_set m.sig_chld_pipe ≡ true
    → (m' : Main) × (all : List Call) × (select_loop h
          (quiet ++ ready is_set (notice e) ∷ answers)
          m
          []
        ≡ finished m' all)
session_ends program args sig_chld_pipe pid host sockets h is_set answers quiet e {m} started its
      handler others set =
    select_loop-Leaves h is_set answers e quiet m [] others set
      (rw its (session-has_pid program args sig_chld_pipe pid host sockets started))
      (λ q _. ap (λ (d : ExtProcess → Bool). d q) handler)
