-- ===== src/ModWrap.antt =====
-- The program of src/modwrap.cc, an older form of `ptywrap` that is not built: the start of the child,
-- and the copying loop, which has no test for the end of a stream or for a failed write. The
-- functions `open_pty_master` and `open_pty_slave` that it calls are nowhere defined: the descriptors
-- that they give are arguments.
pub mod Copying
pub mod Tests
use modglue.Common.{
  ℕ, Bool, true, false, not, List, [], ◌∷◌, ◌++◌, Option, none, some, Bytes, codes, Result, ok,
  throw, if◌then◌else◌, signed_char,
}
use modglue.System.{
  Call, nonblock, dups, execs, kills, sigterm, ReadAnswer, got, interrupted, failed,
}
use modglue.Main.Notice.{WaitAnswer, echild, wait_error, ended, exited, signalled}
use modglue.ExtProcess.Fork.{ForkAnswer, no_fork, child}
use modglue.PtyWrap.{Ready, taken, Answers, Wrap, new_wrap, last_reads, is_minus_one}

-- `sig_kill`; then the program exits.
pub mod_sig_kill : ℕ → List Call
mod_sig_kill childpid = kills childpid sigterm ∷ []

-- `sig_chld`: the byte that it writes. An exit code is a byte.
unfoldable pub mod_sig_chld : WaitAnswer → Result Bytes
mod_sig_chld echild = throw (codes "waitpid failed")
mod_sig_chld (wait_error errno) = throw (codes "waitpid failed")
mod_sig_chld (ended (exited pid exit_code)) = ok (exit_code ∷ [])
mod_sig_chld (ended (signalled pid)) = ok (255 ∷ [])

-- The descriptors of the three slaves, in the child, and of the masters for output and errors.
pub record Slaves : Type 0 where
  pub in_fd : ℕ
  pub out_fd : ℕ
  pub err_fd : ℕ
  pub out_master : ℕ
  pub err_master : ℕ

pub data ModStarted : Type 0 where
  mod_usage : ModStarted
  mod_started : ℕ → List Call → List Call → ModStarted

-- `main` before the loop: the usage, or the child's process id, its calls and the parent's. The
-- arguments are those behind the program's own name, whether `pipe` and each `sigaction` succeed, and
-- the answer of `fork`.
unfoldable pub mod_start : List Bytes → Slaves → Bool → Bool → ForkAnswer → Result ModStarted
mod_start [] slaves piped handled answer = ok mod_usage
mod_start (program ∷ args) slaves piped handled answer =
    if not piped
    then throw (codes "cannot create sig_chld_pipe")
    else if not handled
    then throw (codes "sigaction failed")
    else (elim answer [
      | no_fork ↦ throw (codes "cannot fork")
      | child pid ↦ ok (
          mod_started pid
            (dups (some slaves.in_fd) 0
              ∷ dups (some slaves.out_fd) 1
              ∷ dups (some slaves.err_fd) 2
              ∷ execs program (program ∷ args)
              ∷ [])
            (nonblock (some 0)
              ∷ nonblock (some slaves.out_master)
              ∷ nonblock (some slaves.err_master)
              ∷ []))
    ])

-- One of the copying steps: the bytes written. What `write` answers is not looked
-- at.
unfoldable pub mod_copied : Option Ready → Bytes
mod_copied none = []
mod_copied (some ready) = elim ready.answer [
  | got text ↦ taken ready.written text
  | interrupted ↦ []
  | failed ↦ []
]

-- One round of the loop, and whether it goes on.
unfoldable pub mod_round : Answers → Wrap → Wrap × Bool
unfolding mod_copied
mod_round a w = elim a.sig_chld [
  | some code ↦ (record w { retcode = signed_char code }, false)
  | none ↦ (
    record w {
      to_program = w.to_program ++ mod_copied a.on_stdin;
      out = w.out ++ mod_copied a.on_stdout;
      err = w.err ++ mod_copied a.on_stderr;
    },
    true,
  )
]

-- The loop; `none` where it has not ended.
unfoldable pub mod_loop : List Answers → Wrap → Option Wrap
unfolding mod_round
mod_loop [] w = none
mod_loop (a ∷ answers) w =
    let r = mod_round a w in let rest = mod_loop answers r.0 in if r.1 then rest else some r.0

-- The part of `main` from the loop on.
unfoldable pub mod_wrap : List Answers → List Ready → List Ready → Option Wrap
unfolding mod_loop
mod_wrap answers outs errs = elim (mod_loop answers new_wrap) [
  | none ↦ none
  | some w ↦ some (
      if is_minus_one w.retcode
      then w
      else record w { out = w.out ++ last_reads outs; err = w.err ++ last_reads errs })
]
