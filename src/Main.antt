-- ===== src/Main.antt =====
-- `modglue::main` of src/main.cc and include/modglue/main.hh: the pipes and processes of a program,
-- and its command line.
pub mod Notice
pub mod Loop
pub mod Signals
pub mod Wiring
pub mod Listing
pub mod Tests
use modglue.Common.{
  ℕ, zero, suc, ◌+◌, ◌-◌, Bool, true, false, not, ◌||◌, ◌&&◌, List, [], ◌∷◌, ◌++◌, map, Option,
  none, some, Bytes, codes, ltb, leb, ◌==◌, equal, if◌then◌else◌, length, take, drop, get_or,
  Result, ok, throw, ◌>>=◌,
}
use modglue.Decimal.{atoi}
use modglue.System.{Fd, Call}
use modglue.Pipe.{Pipe, input, output, open_pipe, set_unix_style, is_open}
use modglue.ExtProcess.{ExtProcess}

pub record Main : Type 0 where
  pub list_pipes : Bool
  pub ipipes : List Pipe
  pub opipes : List Pipe
  pub pipe_fds : List (Bytes × ℕ)
  pub processes : List ExtProcess
  pub terminate_main_loop : Bool
  -- The end of `sig_chld_pipe_` that is read.
  pub sig_chld_pipe : ℕ

-- `pipe_fds_.find(name)`; the newest entry for a name stands first.
unfoldable pub find_fd : Bytes → List (Bytes × ℕ) → Option ℕ
find_fd name [] = none
find_fd name ((key, fd) ∷ fds) = if equal key name then some fd else find_fd name fds

-- `find_first_of(",")`.
unfoldable pub find_comma : Bytes → Option ℕ
find_comma [] = none
find_comma (c ∷ text) =
    if c == b',' then some 0 else (elim (find_comma text) [ none ↦ none | some n ↦ some (suc n) ])

-- An argument `--pipe=NAME,FD`, where a number has no sign, as `fork` writes it. Without a comma `pos` is 2^32 - 1 and `pos+1` is 0.
unfoldable pub read_pipe_arg : Bytes → Bytes × ℕ
unfolding find_comma
read_pipe_arg arg = elim (find_comma arg) [
  | some pos ↦ (take (pos - 7) (drop 7 arg), atoi (drop (pos + 1) arg))
  | none ↦ (drop 7 arg, atoi arg)
]

unfoldable pub read_arg : Bytes → Main → Main
read_arg arg m =
    if equal (take 12 arg) (codes "--list-pipes")
    then record m { list_pipes = true }
    else if equal (take 7 arg) (codes "--pipe=")
    then record m { pipe_fds = read_pipe_arg arg ∷ m.pipe_fds }
    else m

abbrev pub is_option : Bytes → Bool
is_option [] = false
is_option (c ∷ arg) = c == b'-'

-- The loop of the constructor: it ends at the first argument that is no option.
unfoldable pub read_args : List Bytes → Main → Main
unfolding read_arg
read_args [] m = m
read_args (arg ∷ args) m =
    let rest = read_args args (read_arg arg m) in if is_option arg then rest else m

-- The constructor, on the arguments behind the program's name, with the descriptor that the call of
-- `pipe` in `setup_signal_handlers_` gave.
unfoldable pub new_main : ℕ → List Bytes → Main
unfolding read_args
new_main sig_chld_pipe args = read_args args (record {
  list_pipes = false;
  ipipes = [];
  opipes = [];
  pipe_fds = [];
  processes = [];
  terminate_main_loop = false;
  sig_chld_pipe = sig_chld_pipe;
})

-- `p->open(fd)`, and then `set_unix_style` or not.
abbrev pub open_as : Bool → Fd → Pipe → Result (Pipe × List Call)
open_as unix fd p = do
  (p', calls) ← open_pipe fd none none p
  ok (if unix then set_unix_style p' else p', calls)

open_default : Fd → Pipe → Result (Pipe × List Call)
open_default none p = ok (p, [])
open_default (some fd) p = open_as true (some fd) p

-- How `add` opens a pipe that is not open yet; the function is the part for a pipe whose name is not
-- in `pipe_fds_`.
connect : (Pipe → Result (Pipe × List Call)) → Main → Pipe → Result (Pipe × List Call)
connect unlisted m p = if is_open p.fd then ok (p, []) else (elim (find_fd p.name m.pipe_fds) [
  | some fd ↦ open_as false (some fd) p
  | none ↦ unlisted p
])

unlisted_opipe : Fd → Pipe → Result (Pipe × List Call)
unlisted_opipe default_fd p =
    if equal p.name (codes "stdin")
    then throw (codes "pipe name stdin and type output incompatible")
    else if equal p.name (codes "stdout")
    then open_as true (some 1) p
    else if equal p.name (codes "stderr")
    then open_as true (some 2) p
    else open_default default_fd p

unlisted_ipipe : Fd → Pipe → Result (Pipe × List Call)
unlisted_ipipe default_fd p =
    if equal p.name (codes "stdin")
    then open_as true (some 0) p
    else if equal p.name (codes "stdout")
    then throw (codes "pipe name stdout and type input incompatible")
    else if equal p.name (codes "stderr")
    then throw (codes "pipe name stdout and type input incompatible")
    else open_default default_fd p

-- `add(opipe *, int)`.
unfoldable pub add_opipe : Fd → Pipe → Main → Result (Main × List Call)
unfolding connect unlisted_opipe open_default find_fd
add_opipe default_fd p m = do
  (p', calls) ← connect (unlisted_opipe default_fd) m p
  ok (record m { opipes = m.opipes ++ p' ∷ [] }, calls)

-- `add(ipipe *, int)`.
unfoldable pub add_ipipe : Fd → Pipe → Main → Result (Main × List Call)
unfolding connect unlisted_ipipe open_default find_fd
add_ipipe default_fd p m = do
  (p', calls) ← connect (unlisted_ipipe default_fd) m p
  ok (record m { ipipes = m.ipipes ++ p' ∷ [] }, calls)

-- `add(ext_process *)`. A pipe knows its process by standing in it.
unfoldable pub add_process : ExtProcess → Main → Main
add_process p m = record m { processes = m.processes ++ p ∷ [] }

-- One line of `build_pipe_list`.
unfoldable pub pipe_line : Bytes → Pipe → Bytes
pipe_line kind p = codes "{ \"" ++ (p.name ++ (codes "\" , " ++ (kind ++ codes " }\n")))

unfoldable pub pipe_lines : Bytes → List Pipe → Bytes
unfolding pipe_line
pipe_lines kind [] = []
pipe_lines kind (p ∷ ps) = pipe_line kind p ++ pipe_lines kind ps

unfoldable pub build_pipe_list : Main → Bytes
unfolding pipe_lines
build_pipe_list m =
    pipe_lines (codes "input") m.ipipes ++ (pipe_lines (codes "output") m.opipes ++ 0 ∷ [])

-- `check`: the result, and what is printed.
unfoldable pub check : Main → Bool × Bytes
unfolding build_pipe_list
check m = if m.list_pipes then (false, build_pipe_list m) else (true, [])
