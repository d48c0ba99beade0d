-- ===== src/ExtProcess.antt =====
-- `ext_process` of src/ext_process.cc and include/modglue/ext_process.hh: an external program with
-- a pipe for each of its streams.
pub mod Setup
pub mod Fork
pub mod Lifetime
pub mod Ledger
pub mod Output
pub mod Tests
use modglue.Common.{
  ℕ, zero, suc, ◌+◌, ◌-◌, Bool, true, false, not, ◌||◌, ◌&&◌, List, [], ◌∷◌, ◌++◌, map, Option,
  none, some, Bytes, codes, ltb, leb, ◌==◌, equal, pred_u64, if◌then◌else◌, length, take, drop,
  get_or, Result, ok, throw, ◌>>=◌,
}
use modglue.Decimal.{print_dec}
use modglue.System.{
  Fd, Call, closes, nonblock, kills, dups, execs, Signal, sigterm, sigstop, sigcont,
}
use modglue.Pipe.{
  Pipe, input, output, new_pipe, open_pipe, close_pipe, close_external, set_unix_style,
}

pub record ExtProcess : Type 0 where
  pub name : Bytes
  pub args : List Bytes
  pub full_path : Bytes
  pub modglue_binary : Bool
  pub input_pipes : List Pipe
  pub output_pipes : List Pipe
  pub pid : ℕ
  pub paused : Bool
  pub exit_code : ℕ
  pub pipes_done : Bool

-- The constructors.
unfoldable pub new_process : Bytes → List Bytes → ExtProcess
new_process name args = record {
  name = name;
  args = args;
  full_path = [];
  modglue_binary = false;
  input_pipes = [];
  output_pipes = [];
  pid = 0;
  paused = false;
  exit_code = 0;
  pipes_done = false;
}

-- The copy constructor copies name and arguments only.
pub copy_process : ExtProcess → ExtProcess
unfolding new_process
copy_process other = new_process other.name other.args

-- `operator<<`.
unfoldable pub add_arg : ExtProcess → Bytes → ExtProcess
add_arg p arg = record p { args = p.args ++ arg ∷ [] }

find_pipe : Bytes → List Pipe → Option Pipe
find_pipe name [] = none
find_pipe name (p ∷ ps) = if equal p.name name then some p else find_pipe name ps

-- `input_pipe` and `output_pipe`.
unfoldable pub input_pipe : ExtProcess → Bytes → Result Pipe
unfolding find_pipe
input_pipe p name = elim (find_pipe name p.input_pipes) [
  | some q ↦ ok q
  | none ↦ throw (codes "ext_process::input_pipe: pipe " ++ (name ++ codes " not known"))
]

unfoldable pub output_pipe : ExtProcess → Bytes → Result Pipe
unfolding find_pipe
output_pipe p name = elim (find_pipe name p.output_pipes) [
  | some q ↦ ok q
  | none ↦ throw (codes "ext_process::output_pipe: pipe " ++ (name ++ codes " not known"))
]

-- A loop that calls one operation on each pipe, with the calls that it makes.
unfoldable pub each_pipe : (Pipe → Pipe × List Call) → List Pipe → List Pipe × List Call
each_pipe f [] = ([], [])
each_pipe f (p ∷ ps) =
    let (p', calls) = f p in let (ps', more) = each_pipe f ps in (p' ∷ ps', calls ++ more)

-- `close_childside_` and `close_parentside_`: output pipes first.
on_outputs_first : (Pipe → Pipe × List Call) → ExtProcess → ExtProcess × List Call
on_outputs_first f p =
    let (outs, calls) = each_pipe f p.output_pipes in
    let (ins, more) = each_pipe f p.input_pipes in
    (record p { output_pipes = outs; input_pipes = ins }, calls ++ more)

unfoldable pub close_childside : ExtProcess → ExtProcess × List Call
unfolding on_outputs_first each_pipe
close_childside p = on_outputs_first close_external p

unfoldable pub close_parentside : ExtProcess → ExtProcess × List Call
unfolding on_outputs_first each_pipe
close_parentside p = on_outputs_first close_pipe p

-- `if(kill(pid_, 0)) kill(pid_, signal)`: the probe with signal 0 returns 0 where the process is
-- alive, which is the second argument.
unfoldable pub probe_and_kill : ℕ → Bool → Signal → List Call
probe_and_kill pid alive signal = if not alive then kills pid signal ∷ [] else []

unfoldable pub terminate : ExtProcess → ℕ → Bool → ExtProcess × List Call
unfolding each_pipe probe_and_kill
terminate p exit_code alive =
    let (ins, calls) = each_pipe close_pipe p.input_pipes in
    let (outs, more) = each_pipe close_pipe p.output_pipes in
    let killing = if p.pid == 0 then [] else probe_and_kill p.pid alive sigterm in
    (
      record p { input_pipes = ins; output_pipes = outs; exit_code = exit_code; pid = 0 },
      calls ++ (more ++ killing),
    )

unfoldable pub pause : ExtProcess → Bool → ExtProcess × List Call
unfolding probe_and_kill
pause p alive =
    if not (p.pid == 0) && not p.paused
    then (record p { paused = true }, probe_and_kill p.pid alive sigstop)
    else (p, [])

unfoldable pub restart : ExtProcess → Bool → ExtProcess × List Call
unfolding probe_and_kill
restart p alive =
    if not (p.pid == 0) && p.paused
    then (record p { paused = false }, probe_and_kill p.pid alive sigcont)
    else (p, [])
