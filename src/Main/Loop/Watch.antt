-- ===== src/Main/Loop/Watch.antt =====
-- `fds_to_watch` and `select_callback`: what is watched, and what is served.
use modglue.Common.{
  ℕ, ◌≤◌, ◌≡◌, ◌≢◌, refl, ◌⊎◌, max, Bool, true, false, ◌||◌, List, [], ◌∷◌, ◌++◌, none, some, ◌==◌,
  arith,
}
use modglue.System.{Fd}
use modglue.Pipe.{Pipe}
use modglue.ExtProcess.{ExtProcess}
use modglue.Main.{Main}
use modglue.Main.Loop.{
  Handlers, max_fds, own_fds, some_broken, all_fds, process_fds, fds_to_watch, receive_from,
  receive_from_process,
}

abbrev pub is_fd : ℕ → Fd → Bool
is_fd n none = false
is_fd n (some fd) = fd == n

-- Whether a descriptor is among those to watch.
abbrev pub mem_fd : ℕ → List Fd → Bool
mem_fd n [] = false
mem_fd n (fd ∷ fds) = is_fd n fd || mem_fd n fds

mem_fd-append : (n : ℕ) (xs ys : List Fd) → mem_fd n (xs ++ ys) ≡ (mem_fd n xs || mem_fd n ys)
mem_fd-append n [] ys = refl
mem_fd-append n (x ∷ xs) ys = ground (arith, mem_fd-append n xs ys)

le-max_fds : (k : ℕ) (fds : List Fd) → k ≤ max_fds k fds
unfolding max_fds
le-max_fds k [] = omega arith
le-max_fds k (none ∷ fds) = le-max_fds k fds
le-max_fds k (some fd ∷ fds) = omega (arith, le-max_fds (max k fd) fds)

mem-le-max_fds : (n k : ℕ) (fds : List Fd) → mem_fd n fds ≡ true → n ≤ max_fds k fds
unfolding max_fds
mem-le-max_fds n k [] h = cc
mem-le-max_fds n k (none ∷ fds) h = mem-le-max_fds n k fds h
mem-le-max_fds n k (some fd ∷ fds) h =
    ground (arith, le-max_fds (max k fd) fds, mem-le-max_fds n (max k fd) fds)

pub fds_to_watch-pipe : (m : Main) → m.sig_chld_pipe ≤ (fds_to_watch m).1
unfolding fds_to_watch
fds_to_watch-pipe m = le-max_fds m.sig_chld_pipe (own_fds m.ipipes ++ process_fds m.processes)

-- Every descriptor to watch is at most the number that is returned, so that the loop, which goes up
-- to it, misses none; and the pipe of the signal handler is always among them.
pub fds_to_watch-max_fds :
    (m : Main) (n : ℕ)
    → mem_fd n (fds_to_watch m).0 ≡ true
    → (n ≤ (fds_to_watch m).1) × (mem_fd m.sig_chld_pipe (fds_to_watch m).0 ≡ true)
unfolding fds_to_watch
fds_to_watch-max_fds m n h =
    let fds = own_fds m.ipipes ++ process_fds m.processes in
    (
      ground (
        arith,
        mem_fd-append n fds (some m.sig_chld_pipe ∷ []),
        mem-le-max_fds n m.sig_chld_pipe fds,
        le-max_fds m.sig_chld_pipe fds,
      ),
      ground (arith, mem_fd-append m.sig_chld_pipe fds (some m.sig_chld_pipe ∷ [])),
    )

receive_own :
    (h : Handlers) (n : ℕ) (ps : List Pipe)
    → mem_fd n (own_fds ps) ≡ true
    → receive_from h n ps ≢ none
unfolding own_fds receive_from
receive_own h n [] m = cc
receive_own h n (p ∷ ps) m = ground (arith, receive_own h n ps)

receive_all :
    (h : Handlers) (n : ℕ) (ps : List Pipe)
    → some_broken ps ≡ false
    → mem_fd n (all_fds ps) ≡ true
    → receive_from h n ps ≢ none
unfolding some_broken all_fds receive_from
receive_all h n [] b m = cc
receive_all h n (p ∷ ps) b m = ground (arith, receive_all h n ps)

receive_process :
    (h : Handlers) (n : ℕ) (ps : List ExtProcess)
    → mem_fd n (process_fds ps) ≡ true
    → receive_from_process h n ps ≢ none
unfolding process_fds receive_from_process
receive_process h n [] m = cc
receive_process h n (p ∷ ps) m = ground (
  arith,
  receive_all h n p.input_pipes,
  receive_process h n ps,
  mem_fd-append n (all_fds p.input_pipes) (process_fds ps),
)

-- A watched descriptor is the pipe of the signal handler, or a pipe of the program or of a process
-- has it that `select_callback` finds and reads: the branch for an unknown descriptor is not
-- reached.
pub fds_to_watch-receive_from :
    (h : Handlers) (m : Main) (n : ℕ)
    → mem_fd n (fds_to_watch m).0 ≡ true
    → (n ≡ m.sig_chld_pipe)
      ⊎ ((receive_from h n m.ipipes ≢ none) ⊎ (receive_from_process h n m.processes ≢ none))
unfolding fds_to_watch
fds_to_watch-receive_from h m n w =
    let fds = own_fds m.ipipes ++ process_fds m.processes in
    ground (
      arith,
      mem_fd-append n fds (some m.sig_chld_pipe ∷ []),
      mem_fd-append n (own_fds m.ipipes) (process_fds m.processes),
      receive_own h n m.ipipes,
      receive_process h n m.processes,
    )
