-- ===== src/Process.antt =====
-- `child_process` of src/process.cc and include/modglue/process.hh: a program that is talked to in a
-- blocking way.
pub mod Descriptors
pub mod Reading
pub mod Streams
pub mod Tests
use modglue.Common.{
  ℕ, zero, suc, ◌+◌, Bool, true, false, not, ◌&&◌, List, [], ◌∷◌, ◌++◌, map, Option, none, some,
  Bytes, codes, ltb, ◌==◌, if◌then◌else◌, length, take, ℤ, pos, minus_one, Result, ok, throw, ◌>>=◌,
}
use modglue.System.{
  Fd, Call, closes, dups, kills, execs, waits, writes, sigterm, ReadAnswer, got, interrupted,
  failed,
}

pub data Direction : Type 0 where
  child_output child_input : Direction

-- `fd_pair`: the descriptor in the child, and ours.
pub record FdPair : Type 0 where
  pub child_fd : ℕ
  pub parent_fd : Fd
  pub direction : Direction

pub record ChildProcess : Type 0 where
  pub name : Bytes
  pub args : List Bytes
  pub pipes : List FdPair
  pub pid : ℕ

unfoldable pub fd_pair : ℕ → Direction → FdPair
fd_pair fd dir = record { child_fd = fd; parent_fd = none; direction = dir }

-- The constructors.
unfoldable pub new_child : Bytes → List Bytes → ChildProcess
new_child name args = record { name = name; args = args; pipes = []; pid = 0 }

-- `operator<<`.
unfoldable pub push_arg : ChildProcess → Bytes → ChildProcess
push_arg p arg = record p { args = p.args ++ arg ∷ [] }

unfoldable pub standard_pipes : ChildProcess → Result ChildProcess
unfolding fd_pair
standard_pipes p =
    if p.pid == 0
    then ok (record p {
      pipes = fd_pair 0 child_input ∷ fd_pair 1 child_output ∷ fd_pair 2 child_output ∷ [];
    })
    else throw (codes "Assertion failed")

-- The parent's side of a pair of descriptors of `pipe`, the first to read and the second to write:
-- the child's end is closed.
unfoldable pub parent_side : List FdPair → List (ℕ × ℕ) → List FdPair × List Call
parent_side [] fds = ([], [])
parent_side (p ∷ ps) [] = (p ∷ ps, [])
parent_side (p ∷ ps) ((reading, writing) ∷ fds) =
    let (ps', calls) = parent_side ps fds in
    elim p.direction [
      | child_input ↦ (record p { parent_fd = some writing } ∷ ps', closes reading ∷ calls)
      | child_output ↦ (record p { parent_fd = some reading } ∷ ps', closes writing ∷ calls)
    ]

-- The child's side, where each `dup2` succeeds.
unfoldable pub child_side : List FdPair → List (ℕ × ℕ) → List Call
child_side [] fds = []
child_side (p ∷ ps) [] = []
child_side (p ∷ ps) ((reading, writing) ∷ fds) =
    let rest = child_side ps fds in
    elim p.direction [
      | child_input ↦ dups (some reading) p.child_fd ∷ closes writing ∷ closes reading ∷ rest
      | child_output ↦ dups (some writing) p.child_fd ∷ closes reading ∷ closes writing ∷ rest
    ]

-- What `::fork()` answers.
pub data ForkAnswer : Type 0 where
  no_fork : ForkAnswer
  child : ℕ → ForkAnswer

pub record Forked : Type 0 where
  pub parent : ChildProcess
  pub in_parent : List Call
  pub in_child : List Call

forked : List (ℕ × ℕ) → ForkAnswer → ChildProcess → Result Forked
forked fds no_fork p = throw (codes "modglue::child_process::fork: cannot fork")
forked fds (child pid) p =
    let (ps, calls) = parent_side p.pipes fds in
    ok (record {
      parent = record p { pipes = ps; pid = pid };
      in_parent = calls;
      in_child = child_side p.pipes fds ++ (execs p.name (p.name ∷ p.args) ∷ []);
    })

-- `fork`, where `pipe` gives the descriptors, one pair for each pipe; with another number of pairs a
-- call of `pipe` has failed.
unfoldable pub fork : List (ℕ × ℕ) → ForkAnswer → ChildProcess → Result Forked
unfolding forked
fork fds answer p = do
  ready ← if length p.pipes == 0 then standard_pipes p else ok p
  if length fds == length ready.pipes
      then forked fds answer ready
      else throw (codes "modglue::child_process::fork: cannot create pipes")

close_pairs : List FdPair → List FdPair × List Call
close_pairs [] = ([], [])
close_pairs (p ∷ ps) =
    let (ps', calls) = close_pairs ps in
    elim p.parent_fd [
      | none ↦ (p ∷ ps', calls)
      | some fd ↦ (record p { parent_fd = none } ∷ ps', closes fd ∷ calls)
    ]

unfoldable pub close_child : ChildProcess → ChildProcess × List Call
unfolding close_pairs
close_child p = let (ps, calls) = close_pairs p.pipes in (record p { pipes = ps }, calls)

unfoldable pub terminate_child : ChildProcess → ChildProcess × List Call
terminate_child p =
    if ltb 0 p.pid then (record p { pid = 0 }, kills p.pid sigterm ∷ []) else (p, [])

unfoldable pub wait_child : ChildProcess → ChildProcess × List Call
wait_child p = if ltb 0 p.pid then (record p { pid = 0 }, waits p.pid ∷ []) else (p, [])

-- The destructor.
unfoldable pub destroy_child : ChildProcess → List Call
unfolding close_child
destroy_child p = (close_child p).1 ++ (if ltb 0 p.pid then kills p.pid sigterm ∷ [] else [])

-- A buffer that is appended as a C string: up to its first zero byte.
unfoldable pub c_string : Bytes → Bytes
c_string [] = []
c_string (c ∷ text) = if c == 0 then [] else c ∷ c_string text

-- The loop of `call` that reads one stream of the child, with `goto` after EINTR. `none` is a call
-- that has not returned.
unfoldable pub read_all : List ReadAnswer → Bytes → Option Bytes
read_all [] text = none
read_all (got [] ∷ answers) text = some text
read_all (got (c ∷ chunk) ∷ answers) text = read_all answers (text ++ c_string (c ∷ chunk))
read_all (interrupted ∷ answers) text = read_all answers text
read_all (failed ∷ answers) text = some text

-- The first pipe, `pipes[0]`.
abbrev pub first_fd : List FdPair → Fd
first_fd [] = none
first_fd (p ∷ ps) = p.parent_fd

-- `write(const std::string&)`.
unfoldable pub write_child : ChildProcess → Bytes → List Call
write_child p text = writes (first_fd p.pipes) text ∷ []

-- What `call` leaves: the object, the two texts (`none` where it has not returned), and its calls in
-- the parent.
pub record Called : Type 0 where
  pub after : ChildProcess
  pub out_text : Option Bytes
  pub err_text : Option Bytes
  pub calls : List Call

-- `call`. The answers are those of `read` on the two streams.
unfoldable pub call :
    List (ℕ × ℕ)
    → ForkAnswer
    → List ReadAnswer
    → List ReadAnswer
    → Bytes
    → ChildProcess
    → Result Called
unfolding write_child
call fds answer outs errs inp p = do
  ready ← standard_pipes p
  run ← fork fds answer ready
  let written = if ltb 0 (length inp) then write_child run.parent inp else []
  let closed = close_child run.parent
  let ended = terminate_child closed.0
  ok (record {
    after = ended.0;
    out_text = read_all outs [];
    err_text = read_all errs [];
    calls = run.in_parent ++ (written ++ (closed.1 ++ ended.1));
  })

-- `read(std::string&)`, one byte to a call, up to a newline; an interrupted call ends it too.
unfoldable pub read_line : List ReadAnswer → Bytes → Bytes
read_line [] text = text
read_line (got [] ∷ answers) text = text
read_line (got (c ∷ more) ∷ answers) text =
    let rest = read_line answers (text ++ c ∷ []) in if c == b'\n' then text else rest
read_line (interrupted ∷ answers) text = text
read_line (failed ∷ answers) text = text

-- `pipes[1]`; where it does not exist, the code's access is undefined.
abbrev pub second_fd : List FdPair → Fd
second_fd [] = none
second_fd (p ∷ ps) = first_fd ps

-- `write(void *, size_t)`: the bytes that are in the buffer.
unfoldable pub write_bytes : ChildProcess → Bytes → List Call
write_bytes p buffer = writes (first_fd p.pipes) buffer ∷ []

-- `read(void *, size_t)`: the descriptor that is read, and the result with the bytes, of which at
-- most `len` fit.
unfoldable pub read_bytes : ChildProcess → ℕ → ReadAnswer → Fd × ℤ × Bytes
read_bytes p len (got text) =
    let taken = take len text in (second_fd p.pipes, pos (length taken), taken)
read_bytes p len _ = (second_fd p.pipes, minus_one, [])
