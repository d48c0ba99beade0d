-- ===== src/PtyWrap/Tests.antt =====
-- The theorems on `ptywrap`, at concrete inputs.
use modglue.Common.{
  ◌≡◌, refl, true, false, ok, List, [], ◌∷◌, ◌++◌, some, none, codes, arith, signed_char,
}
use modglue.System.{got, failed}
use modglue.PtyWrap.{Answers, Ready, wrap}
use modglue.System.Terminal.{Termios}
use modglue.System.Table.{Table, run_calls, AreClosed, AreFiles}
use modglue.System.{Call}
use modglue.ExtProcess.Fork.{child}
use modglue.PtyWrap.Start.{started, start_child, child_part, open_pty_slave, Modes}
use modglue.PtyWrap.Streams.{ptys, start_child-run_calls}
use modglue.PtyWrap.Copying.{AreQuiet, streamed, last_streamed, end_round, wrap_exited}

abbrev one_round : List Answers
one_round =
    record {
      sig_chld = none;
      on_stdin = some (record { answer = got (codes "a"); written = some 1024 });
      on_stdout = some (record { answer = got (codes "bc"); written = some 1024 });
      on_stderr = none;
    }
    ∷ []

one_round-AreQuiet : AreQuiet one_round
one_round-AreQuiet = (
  record {
    running = refl;
    stdin_copied = ((_, refl), (_, _, refl));
    stdout_copied = ((_, refl), (_, _, refl));
    stderr_copied = tt;
  },
  tt,
)

abbrev left : List Ready
left =
    record { answer = got (codes "d"); written = some 1 }
    ∷ record { answer = failed; written = some 0 }
    ∷ []

wrap_exited_example :
    wrap (one_round ++ end_round 3 ∷ []) left []
    ≡ some (record {
      to_program = streamed (λ a. a.on_stdin) one_round;
      out = streamed (λ a. a.on_stdout) one_round ++ last_streamed left;
      err = streamed (λ a. a.on_stderr) one_round ++ last_streamed [];
      retcode = signed_char 3;
    })
wrap_exited_example =
    wrap_exited one_round left [] 3 one_round-AreQuiet ((_, refl, omega arith), tt)
      ((_, refl, omega arith), tt) (tt, tt) ((_, refl, omega arith), ((_, refl, omega arith), tt))
      tt (omega arith)

abbrev modes : Termios
modes = record {
  iflag = 1;
  opost = true;
  isig = true;
  icanon = true;
  echo = true;
  csize = 7;
  parenb = false;
  vmin = 1;
  vtime = 0;
}

abbrev on_slaves : Modes
on_slaves = (some modes, some modes, some modes)

abbrev files : Table
files n = some n

started_cat :
    (calls : List Call) × (in_parent : List Call) × (start_child
        (codes "cat" ∷ [])
        (ptys 3 4 5 6 7 8)
        on_slaves
        (some (9, 10))
        true
        (child 42)
      ≡ ok (started 42 (ok calls) in_parent))
unfolding start_child child_part open_pty_slave
started_cat = (_, _, refl)

start_child-run_calls_example :
    let t' = run_calls started_cat.0 files in
    AreFiles t' (0, 1, 2) (4, 6, 8) × AreClosed t' (3 ∷ 4 ∷ 5 ∷ 6 ∷ 7 ∷ 8 ∷ [])
start_child-run_calls_example =
    start_child-run_calls 3 4 5 6 7 8 (codes "cat") [] on_slaves 9 10 42 files (4, 6, 8)
      (ground arith) (refl, refl, refl) started_cat.2
