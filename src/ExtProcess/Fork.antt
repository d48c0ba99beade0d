-- ===== src/ExtProcess/Fork.antt =====
-- `open_pipes_`, `dup_unix_pipes_` and `fork` of src/ext_process.cc.
pub mod Descriptors
pub mod Joined
pub mod Streams
use modglue.Common.{
  ℕ, Bool, true, false, List, [], ◌∷◌, ◌++◌, map, Option, none, some, Bytes, codes, ◌==◌, equal,
  if◌then◌else◌, Result, ok, throw, ◌>>=◌,
}
use modglue.Decimal.{print_dec}
use modglue.System.{Fd, Call, closes, nonblock, dups, execs}
use modglue.Pipe.{Pipe, open_pipe}
use modglue.ExtProcess.{ExtProcess, close_childside, close_parentside}
use modglue.ExtProcess.Setup.{Host, setup_pipes, assertion}

-- What `socketpair` answers to the calls of `open`, in their order.
abbrev pub Sockets : Type 0
Sockets = List (Option (ℕ × ℕ))

-- One round of `open_pipes_`; the calls so far are the second argument.
unfoldable pub open_each :
    List Pipe → Sockets → List Call → Result (List Pipe × Sockets × List Call)
open_each [] sockets calls = ok ([], sockets, calls)
open_each (p ∷ ps) [] calls = throw (codes "cannot open sockets")
open_each (p ∷ ps) (s ∷ sockets) calls = do
  (p', more) ← open_pipe none none s p
  (ps', left, all) ← open_each ps sockets (calls ++ more)
  ok (p' ∷ ps', left, all)

-- `open_pipes_`: input pipes first. Where the answers are used up, there is no pair of sockets.
unfoldable pub open_pipes : Sockets → ExtProcess → Result (ExtProcess × List Call)
unfolding open_each
open_pipes sockets p = do
  (ins, left, calls) ← open_each p.input_pipes sockets []
  (outs, _, all) ← open_each p.output_pipes left calls
  ok (record p { input_pipes = ins; output_pipes = outs }, all)

-- What is left of the pipes where `open` throws: those before it stay open. The other results are the
-- answers of `socketpair` that are left, both ends of the pairs that it gave, and whether all pipes
-- were opened.
pub record Left : Type 0 where
  pub pipes : List Pipe
  pub sockets : Sockets
  pub given : List ℕ
  pub all_open : Bool

unfoldable pub open_left : List Pipe → Sockets → Left
open_left [] sockets = record { pipes = []; sockets = sockets; given = []; all_open = true }
open_left (p ∷ ps) [] = record { pipes = p ∷ ps; sockets = []; given = []; all_open = false }
open_left (p ∷ ps) (s ∷ sockets) =
    let rest = open_left ps sockets in
    elim (open_pipe none none s p) [
      | throw e ↦ record { pipes = p ∷ ps; sockets = sockets; given = []; all_open = false }
      | ok (p', calls) ↦ record rest {
        pipes = p' ∷ rest.pipes;
        given = (elim s [ none ↦ [] | some (ours, theirs) ↦ ours ∷ theirs ∷ [] ]) ++ rest.given;
      }
    ]

-- What `open_pipes_` leaves of the object, whether it throws or not, and the pairs that it was given.
unfoldable pub open_pipes_left : Sockets → ExtProcess → ExtProcess × List ℕ
unfolding open_left
open_pipes_left sockets p =
    let ins = open_left p.input_pipes sockets in
    let outs = open_left p.output_pipes ins.sockets in
    if ins.all_open
    then (record p { input_pipes = ins.pipes; output_pipes = outs.pipes }, ins.given ++ outs.given)
    else (record p { input_pipes = ins.pipes }, ins.given)

-- `--pipe=NAME,FD`. The zero byte of `std::ends` ends the text for `execvp`.
unfoldable pub pipe_arg : Pipe → Bytes
pipe_arg p =
    codes "--pipe="
    ++ (p.name ++ (b',' ∷ (elim p.fd_external [ some n ↦ print_dec n | none ↦ codes "-1" ])))

-- The arguments of `execvp` behind the name.
unfoldable pub real_args : ExtProcess → List Bytes
real_args p =
    if p.modglue_binary
    then p.args ++ (map pipe_arg p.input_pipes ++ map pipe_arg p.output_pipes)
    else p.args

-- `::close(fd)`; on -1 the kernel does nothing.
abbrev pub close_fd : Fd → List Call
close_fd none = []
close_fd (some n) = closes n ∷ []

-- `dup2` of the program's end over a standard stream, and the two calls of `close` behind it.
abbrev pub dup_over : Pipe → ℕ → List Call
dup_over p fd = dups p.fd_external fd ∷ (close_fd p.fd_external ++ close_fd p.fd)

dup_outputs : List Pipe → List Call
dup_outputs [] = []
dup_outputs (p ∷ ps) = (if equal p.name (codes "stdin") then dup_over p 0 else []) ++ dup_outputs ps

dup_inputs : List Pipe → List Call
dup_inputs [] = []
dup_inputs (p ∷ ps) =
    (if equal p.name (codes "stdout")
      then dup_over p 1
      else if equal p.name (codes "stderr")
      then dup_over p 2
      else [])
    ++ dup_inputs ps

-- `dup_unix_pipes_`, where each `dup2` succeeds.
unfoldable pub dup_unix_pipes : ExtProcess → List Call
unfolding dup_outputs dup_inputs
dup_unix_pipes p = dup_outputs p.output_pipes ++ dup_inputs p.input_pipes

-- What `::fork()` answers: an error, or the process id of the child. The program then runs on in
-- the parent and in the child.
pub data ForkAnswer : Type 0 where
  no_fork : ForkAnswer
  child : ℕ → ForkAnswer

-- The parent's object after `fork`, its calls from `open_pipes_` on, and the child's calls up to
-- `execvp`.
pub record Forked : Type 0 where
  pub parent : ExtProcess
  pub opening : List Call
  pub in_parent : List Call
  pub in_child : List Call

-- The branches of the `switch` on the answer.
unfoldable pub branches : ForkAnswer → ExtProcess → List Call → Result Forked
branches no_fork p calls = throw (codes "modglue::child_process::fork: cannot fork")
branches (child pid) p calls =
    let (ours, closing) = close_childside (record p { pid = pid }) in
    let (theirs, closing_ours) = close_parentside p in
    ok (record {
      parent = ours;
      opening = calls;
      in_parent = closing;
      in_child =
          closing_ours
          ++ ((if p.modglue_binary then [] else dup_unix_pipes theirs)
              ++ (nonblock (some 0) ∷ execs p.name (p.name ∷ real_args p) ∷ []));
    })

unfoldable pub fork : Host → Sockets → ForkAnswer → ExtProcess → Result Forked
unfolding branches
fork host sockets answer p =
    if p.pid == 0
    then (do
      ready ← if p.pipes_done then ok p else setup_pipes host p
      (opened, calls) ← open_pipes sockets ready
      branches answer (record opened { paused = false }) calls)
    else throw assertion

-- What `fork` leaves of the object where `open_pipes_` throws, and the pairs that it was given.
unfoldable pub fork_interrupted : Host → Sockets → ExtProcess → Option (ExtProcess × List ℕ)
unfolding open_pipes_left
fork_interrupted host sockets p =
    if p.pid == 0
    then (elim (if p.pipes_done then ok p else setup_pipes host p) [
      | throw e ↦ none
      | ok ready ↦ elim (open_pipes sockets ready) [
        | throw e ↦ some (open_pipes_left sockets ready)
        | ok _ ↦ none
      ]
    ])
    else none
