-- ===== src/Main/Loop/Valid.antt =====
-- The descriptors that `fds_to_watch` gives to `FD_SET`, where -1 would be undefined.
pub mod Rounds
use modglue.Common.{
  ℕ, zero, suc, ◌+◌, ◌≡◌, ◌≢◌, refl, ◌∙◌, ◌⊎◌, inl, inr, Bool, true, false, not, ◌&&◌, ◌||◌, List,
  [], ◌∷◌, ◌++◌, ◌==◌, arith, Option, none, some, Bytes, Bool-cases, Option-cases, if◌then◌else◌,
}
use modglue.System.{Fd, Call}
use modglue.Pipe.{Pipe, is_open, close_pipe, first_read_after_select}
use modglue.ExtProcess.{ExtProcess, each_pipe, terminate}
use modglue.Main.{Main}
use modglue.Main.Loop.{
  Handlers, own_fds, some_broken, all_fds, process_fds, fds_to_watch, receive_from,
  receive_from_process, has_fd, terminate_all, drain, bury, bury_first, on_notice, select_callback,
  returned, Handled, serve, Selected, LoopEnd, waiting, select_loop,
}

-- A pipe that has no descriptor is marked broken.
abbrev pub IsMarked : Pipe → Type 0
IsMarked p = (p.broken ≡ true) ⊎ (is_open p.fd ≡ true)

abbrev pub AreMarked : List Pipe → Type 0
AreMarked [] = Unit {0}
AreMarked (p ∷ ps) = IsMarked p × AreMarked ps

-- All pipes that are read from the processes.
abbrev pub IsValid : List ExtProcess → Type 0
IsValid [] = Unit {0}
IsValid (p ∷ ps) = AreMarked p.input_pipes × IsValid ps

-- The user's handler for `receiver` leaves a pipe marked.
abbrev pub KeepsMarks : Handlers → Type 0
KeepsMarks h = (p : Pipe) → IsMarked p → IsMarked (h.receiver p).0

-- None of the descriptors is -1.
abbrev pub AreOpen : List Fd → Type 0
AreOpen [] = Unit {0}
AreOpen (fd ∷ fds) = (is_open fd ≡ true) × AreOpen fds

AreOpen-append : (xs ys : List Fd) → AreOpen xs → AreOpen ys → AreOpen (xs ++ ys)
AreOpen-append [] ys h k = k
AreOpen-append (x ∷ xs) ys (h, hs) k = (h, AreOpen-append xs ys hs k)

own_fds-AreOpen : (ps : List Pipe) → AreOpen (own_fds ps)
unfolding own_fds
own_fds-AreOpen [] = tt
own_fds-AreOpen (p ∷ ps) = elim (Bool-cases (not p.broken && is_open p.fd)) [
  | inl watched ↦ rw watched (ground arith, own_fds-AreOpen ps)
  | inr passed ↦ rw passed (own_fds-AreOpen ps)
]

all_fds-AreOpen : (ps : List Pipe) → AreMarked ps → some_broken ps ≡ false → AreOpen (all_fds ps)
unfolding all_fds some_broken
all_fds-AreOpen [] h k = tt
all_fds-AreOpen (p ∷ ps) (h, hs) k = (ground arith, all_fds-AreOpen ps hs (ground arith))

process_fds-AreOpen : (ps : List ExtProcess) → IsValid ps → AreOpen (process_fds ps)
unfolding process_fds
process_fds-AreOpen [] h = tt
process_fds-AreOpen (p ∷ ps) (h, hs) = elim (Bool-cases (some_broken p.input_pipes)) [
  | inl going ↦ rw going (process_fds-AreOpen ps hs)
  | inr whole ↦ rw whole (
      AreOpen-append (all_fds p.input_pipes) (process_fds ps)
        (all_fds-AreOpen p.input_pipes h whole) (process_fds-AreOpen ps hs))
]

pub fds_to_watch-AreOpen : (m : Main) → IsValid m.processes → AreOpen (fds_to_watch m).0
unfolding fds_to_watch
fds_to_watch-AreOpen m h =
    AreOpen-append (own_fds m.ipipes ++ process_fds m.processes) (some m.sig_chld_pipe ∷ [])
      (AreOpen-append (own_fds m.ipipes) (process_fds m.processes) (own_fds-AreOpen m.ipipes)
        (process_fds-AreOpen m.processes h))
      (refl, tt)

-- The pipes after `receive_from`.
abbrev pipes_after : List Pipe → Option (List Pipe × Bool) → List Pipe
pipes_after ps none = ps
pipes_after ps (some (ps', stay)) = ps'

receiver-IsMarked :
    (h : Handlers) (p : Pipe)
    → KeepsMarks h
    → IsMarked p
    → IsMarked (h.receiver (first_read_after_select p)).0
unfolding first_read_after_select
receiver-IsMarked h p keeps marked = keeps _ marked

receive_from-AreMarked :
    (h : Handlers) (fd : ℕ) (ps : List Pipe)
    → KeepsMarks h
    → AreMarked ps
    → AreMarked (pipes_after ps (receive_from h fd ps))
unfolding receive_from
receive_from-AreMarked h fd [] keeps marked = tt
receive_from-AreMarked h fd (p ∷ ps) keeps (marked, others) =
    elim (Bool-cases (not p.broken && has_fd fd p)) [
      | inl this ↦ rw this (receiver-IsMarked h p keeps marked, others)
      | inr other ↦ elim (Option-cases (receive_from h fd ps)) [
        | inl no_more ↦ rw (other, no_more) (marked, others)
        | inr (found, e) ↦
            rw (other, e) (marked, rw e at (receive_from-AreMarked h fd ps keeps others))
      ]
    ]

abbrev pub processes_after : List ExtProcess → Option (List ExtProcess) → List ExtProcess
processes_after ps none = ps
processes_after ps (some ps') = ps'

pub receive_from_process-IsValid :
    (h : Handlers) (fd : ℕ) (ps : List ExtProcess)
    → KeepsMarks h
    → IsValid ps
    → IsValid (processes_after ps (receive_from_process h fd ps))
unfolding receive_from_process
receive_from_process-IsValid h fd [] keeps valid = tt
receive_from_process-IsValid h fd (p ∷ ps) keeps (marked, others) =
    elim (Option-cases (receive_from h fd p.input_pipes)) [
      | inr (found, e) ↦
          rw (e, receive_from_process)
            (rw e at (receive_from-AreMarked h fd p.input_pipes keeps marked), others)
      | inl no_own ↦ elim (Option-cases (receive_from_process h fd ps)) [
        | inl no_more ↦ rw (no_own, no_more, receive_from_process) (marked, others)
        | inr (found, e) ↦
            rw (no_own, e, receive_from_process)
              (marked, rw e at (receive_from_process-IsValid h fd ps keeps others))
      ]
    ]

close_pipe-IsMarked : (p : Pipe) → IsMarked p → IsMarked (close_pipe p).0
unfolding close_pipe
close_pipe-IsMarked p marked = ground arith

each_pipe-AreMarked : (ps : List Pipe) → AreMarked ps → AreMarked (each_pipe close_pipe ps).0
unfolding each_pipe
each_pipe-AreMarked [] h = tt
each_pipe-AreMarked (p ∷ ps) (h, hs) = (close_pipe-IsMarked p h, each_pipe-AreMarked ps hs)

drain-AreMarked :
    (h : Handlers) (ps : List Pipe) → KeepsMarks h → AreMarked ps → AreMarked (drain h ps)
unfolding drain
drain-AreMarked h [] keeps marked = tt
drain-AreMarked h (p ∷ ps) keeps (marked, others) =
    (keeps p marked, drain-AreMarked h ps keeps others)

terminate-AreMarked :
    (p : ExtProcess) (exit_code : ℕ) (alive : Bool)
    → AreMarked p.input_pipes
    → AreMarked (terminate p exit_code alive).0.input_pipes
unfolding terminate
terminate-AreMarked p exit_code alive = each_pipe-AreMarked p.input_pipes

pub bury_first-IsValid :
    (h : Handlers) (pid exit_code : ℕ) (ps : List ExtProcess)
    → KeepsMarks h
    → IsValid ps
    → IsValid (bury_first h pid exit_code ps).0
unfolding bury_first bury
bury_first-IsValid h pid exit_code [] keeps valid = tt
bury_first-IsValid h pid exit_code (p ∷ ps) keeps (marked, others) =
    elim (Bool-cases (p.pid == pid)) [
      | inl this ↦ rw this (
        terminate-AreMarked (record p { input_pipes = drain h p.input_pipes }) exit_code _
            (drain-AreMarked h p.input_pipes keeps marked),
        others,
      )
      | inr other ↦ rw other (marked, bury_first-IsValid h pid exit_code ps keeps others)
    ]

pub terminate_all-IsValid :
    (h : Handlers) (ps : List ExtProcess) → IsValid ps → IsValid (terminate_all h ps).0
unfolding terminate_all
terminate_all-IsValid h [] valid = tt
terminate_all-IsValid h (p ∷ ps) (marked, others) =
    (terminate-AreMarked p 0 _ marked, terminate_all-IsValid h ps others)
