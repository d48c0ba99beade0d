-- ===== src/Main/Loop.antt =====
-- `fds_to_watch`, `select_callback`, `last_read` and `select_loop_` of src/main.cc. The handlers that
-- the user connects to the signals `receiver` and `process_died`, and the kernel's answers, are
-- arguments.
pub mod Watch
pub mod Death
pub mod Round
pub mod Leave
pub mod Stop
pub mod Valid
pub mod Tests
use modglue.Common.{
  ℕ, zero, suc, ◌+◌, max, Bool, true, false, not, ◌||◌, ◌&&◌, List, [], ◌∷◌, ◌++◌, Option, none,
  some, Bytes, codes, ltb, leb, ◌==◌, if◌then◌else◌, length, Result, ok, throw, ◌>>=◌,
}
use modglue.System.{Fd, Call}
use modglue.Pipe.{Pipe, first_read_after_select, is_open}
use modglue.ExtProcess.{ExtProcess, terminate}
use modglue.Main.Notice.{read_notice}
use modglue.Main.{Main}

-- `receiver` is called on a pipe, from which it may read, and answers whether to stay connected.
-- `process_died` answers whether to leave the loop. Handlers that change the process, or `main` itself,
-- are left out. `alive` is the kernel's answer to `terminate`.
pub record Handlers : Type 0 where
  pub receiver : Pipe → Pipe × Bool
  pub process_died : ExtProcess → Bool
  pub alive : ExtProcess → Bool

abbrev pub max_fd : ℕ → Fd → ℕ
max_fd n none = n
max_fd n (some fd) = max n fd

max_fds : ℕ → List Fd → ℕ
max_fds n [] = n
max_fds n (fd ∷ fds) = max_fds (max_fd n fd) fds

-- The separate pipes: those that are not broken and are open.
pub own_fds : List Pipe → List Fd
own_fds [] = []
own_fds (p ∷ ps) = if not p.broken && is_open p.fd then p.fd ∷ own_fds ps else own_fds ps

pub some_broken : List Pipe → Bool
some_broken [] = false
some_broken (p ∷ ps) = p.broken || some_broken ps

pub all_fds : List Pipe → List Fd
all_fds [] = []
all_fds (p ∷ ps) = p.fd ∷ all_fds ps

-- The pipes of the processes: none of a process that has a broken one.
pub process_fds : List ExtProcess → List Fd
unfolding some_broken all_fds
process_fds [] = []
process_fds (p ∷ ps) =
    (if not (some_broken p.input_pipes) then all_fds p.input_pipes else []) ++ process_fds ps

-- `fds_to_watch`: the descriptors, and the largest of them.
unfoldable pub fds_to_watch : Main → List Fd × ℕ
unfolding own_fds process_fds max_fds
fds_to_watch m =
    let fds = own_fds m.ipipes ++ process_fds m.processes in
    (fds ++ some m.sig_chld_pipe ∷ [], max_fds m.sig_chld_pipe fds)

abbrev pub has_fd : ℕ → Pipe → Bool
has_fd fd p = elim p.fd [ none ↦ false | some n ↦ n == fd ]

-- The first pipe that is not broken and has the descriptor is read: the pipes after that, and what
-- its handler answered.
pub receive_from : Handlers → ℕ → List Pipe → Option (List Pipe × Bool)
receive_from h fd [] = none
receive_from h fd (p ∷ ps) =
    if not p.broken && has_fd fd p
    then (let (p', stay) = h.receiver (first_read_after_select p) in some (p' ∷ ps, stay))
    else (elim (receive_from h fd ps) [ none ↦ none | some (ps', stay) ↦ some (p ∷ ps', stay) ])

-- The same over the processes, where the handler's answer is dropped.
pub receive_from_process : Handlers → ℕ → List ExtProcess → Option (List ExtProcess)
unfolding receive_from
receive_from_process h fd [] = none
receive_from_process h fd (p ∷ ps) = elim (receive_from h fd p.input_pipes) [
  | some (ins, _) ↦ some (record p { input_pipes = ins } ∷ ps)
  | none ↦ elim (receive_from_process h fd ps) [ none ↦ none | some ps' ↦ some (p ∷ ps') ]
]

-- Every pipe of a list is read, whatever its state.
drain : Handlers → List Pipe → List Pipe
drain h [] = []
drain h (p ∷ ps) = (h.receiver p).0 ∷ drain h ps

-- A process that died: all its data is read, and it is terminated. The results are the process, the
-- calls, and whether to leave the loop.
pub bury : Handlers → ℕ → ExtProcess → ExtProcess × List Call × Bool
unfolding drain
bury h exit_code p =
    let drained = record p { input_pipes = drain h p.input_pipes } in
    let (p', calls) = terminate drained exit_code (h.alive drained) in
    (p', calls, h.process_died p')

-- The first process with the process id is buried.
pub bury_first : Handlers → ℕ → ℕ → List ExtProcess → List ExtProcess × List Call × Bool
unfolding bury
bury_first h pid exit_code [] = ([], [], false)
bury_first h pid exit_code (p ∷ ps) =
    if p.pid == pid
    then (let (p', calls, leave) = bury h exit_code p in (p' ∷ ps, calls, leave))
    else (let (ps', calls, leave) = bury_first h pid exit_code ps in (p ∷ ps', calls, leave))

pub terminate_all : Handlers → List ExtProcess → List ExtProcess × List Call
terminate_all h [] = ([], [])
terminate_all h (p ∷ ps) =
    let (p', calls) = terminate p 0 (h.alive p) in
    let (ps', more) = terminate_all h ps in (p' ∷ ps', calls ++ more)

-- How a callback ends: with its result, by `exit(-1)`, or by an exception.
pub data Handled : Type 0 where
  returned : Main → List Call → Bool → Handled
  exits : Main → List Call → Handled
  throws : Bytes → Handled

-- A message on `sig_chld_pipe_`; the empty text stands for a `read` that failed for good.
pub on_notice : Handlers → Bytes → Main → Handled
unfolding bury_first terminate_all
on_notice h [] m = throws (codes "main::select_callback: read failed")
on_notice h (c ∷ text) m =
    if c == b'T'
    then (let (ps, calls) = terminate_all h m.processes in
        exits (record m { processes = ps }) calls)
    else (let (pid, exit_code) = read_notice (c ∷ text) in
        let (ps, calls, leave) = bury_first h pid exit_code m.processes in
        returned (record m { processes = ps; terminate_main_loop = m.terminate_main_loop || leave })
          calls true)

-- `select_callback`, with the message that waits on `sig_chld_pipe_`.
unfoldable pub select_callback : Handlers → Bytes → ℕ → Main → Handled
unfolding on_notice receive_from receive_from_process
select_callback h message fd m =
    if fd == m.sig_chld_pipe then on_notice h message m else (elim (receive_from h fd m.ipipes) [
      | some (ps, stay) ↦ returned (record m { ipipes = ps }) [] stay
      | none ↦ elim (receive_from_process h fd m.processes) [
        | some ps ↦ returned (record m { processes = ps }) [] true
        | none ↦ returned m [] false
      ]
    ])

read_unbroken : Handlers → List Pipe → List Pipe
read_unbroken h [] = []
read_unbroken h (p ∷ ps) =
    (if not p.broken then (h.receiver (first_read_after_select p)).0 else p) ∷ read_unbroken h ps

read_processes : Handlers → List ExtProcess → List ExtProcess
unfolding read_unbroken
read_processes h [] = []
read_processes h (p ∷ ps) =
    record p { input_pipes = read_unbroken h p.input_pipes } ∷ read_processes h ps

unfoldable pub last_read : Handlers → Main → Main
unfolding read_unbroken read_processes
last_read h m = record m {
  ipipes = read_unbroken h m.ipipes;
  processes = read_processes h m.processes;
}

-- What `select` answers: the descriptors that can be read, with the message that waits on
-- `sig_chld_pipe_` if it is one of them; EINTR; or another error.
pub data Selected : Type 0 where
  ready : (ℕ → Bool) → Bytes → Selected
  eintr : Selected
  broken_select : Selected

-- The loop over `fd`, from `fd` on, for `n` descriptors.
serve : Handlers → (ℕ → Bool) → Bytes → ℕ → ℕ → Main → List Call → Handled
serve h is_set message fd zero m calls = returned m calls true
serve h is_set message fd (suc n) m calls = elim (is_set fd) [
  | true ↦ elim (select_callback h message fd m) [
    | returned m' more _ ↦ serve h is_set message (fd + 1) n m' (calls ++ more)
    | exits m' more ↦ exits m' (calls ++ more)
    | throws e ↦ throws e
  ]
  | false ↦ serve h is_set message (fd + 1) n m calls
]

-- `select_loop_`, on the answers of `select`; `waiting` where the loop is left waiting for more.
pub data LoopEnd : Type 0 where
  finished : Main → List Call → LoopEnd
  exited_early : Main → List Call → LoopEnd
  threw : Bytes → LoopEnd
  waiting : Main → List Call → LoopEnd

unfoldable pub select_loop : Handlers → List Selected → Main → List Call → LoopEnd
unfolding serve
select_loop h [] m calls =
    if length (fds_to_watch m).0 == 1 then finished m calls else waiting m calls
select_loop h (answer ∷ answers) m calls =
    if length (fds_to_watch m).0 == 1 then finished m calls else (elim answer [
      | broken_select ↦ threw (codes "main::select_loop: select failed.")
      | eintr ↦ if m.terminate_main_loop then finished m calls else select_loop h answers m calls
      | ready is_set message ↦ elim (serve h is_set message 0 ((fds_to_watch m).1 + 1) m calls) [
        | exits m' more ↦ exited_early m' more
        | throws e ↦ threw e
        | returned m' more _ ↦ elim m'.terminate_main_loop [
          | true ↦ finished m' more
          | false ↦ select_loop h answers m' more
        ]
      ]
    ])
