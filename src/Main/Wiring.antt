-- ===== src/Main/Wiring.antt =====
-- The arguments that `ext_process::fork` gives to a modglue program, as `main::main` reads them.
pub mod Ours
pub mod Program
pub mod Tests
use modglue.Common.{
  ℕ, suc, ◌+◌, ◌-◌, ◌≡◌, ◌≢◌, refl, ap, ◌∙◌, true, false, List, [], ◌∷◌, ◌++◌, map, some, Bytes,
  codes, equal, equal_iff, arith, length, take, drop, take-length-append,
}
use mathlib.Core.Path.{ap₂}
use modglue.Decimal.{print_dec, atoi, atoi-print_dec}
use modglue.Pipe.{Pipe}
use modglue.ExtProcess.Fork.{pipe_arg, real_args}
use modglue.ExtProcess.{ExtProcess}
use modglue.Main.{Main, find_fd, find_comma, read_pipe_arg, read_arg, read_args, is_option}

abbrev pub Lacks : ℕ → Bytes → Type 0
Lacks b [] = Unit {0}
Lacks b (c ∷ cs) = (c ≢ b) × Lacks b cs

find_comma-Lacks :
    (text rest : Bytes) → Lacks b',' text → find_comma (text ++ (b',' ∷ rest)) ≡ some (length text)
unfolding find_comma
find_comma-Lacks [] rest h = ground arith
find_comma-Lacks (c ∷ text) rest h = ground (arith, find_comma-Lacks text rest h.1)

-- A pipe that `open_pipes_` has opened, on the descriptor `fd` at the program's side, with a name
-- that can stand in an argument.
abbrev pub IsPassed : ℕ → Pipe → Type 0
IsPassed fd p = (p.fd_external ≡ some fd) × Lacks b',' p.name

pub drop_behind : (text rest : Bytes) (c : ℕ) → drop (length text + 1) (text ++ (c ∷ rest)) ≡ rest
drop_behind [] rest c = refl
drop_behind (d ∷ text) rest c =
    let e : suc (length text) + 1 ≡ suc (length text + 1) = omega arith in
    rw e (drop_behind text rest c)

read_pipe_arg-at :
    (arg : Bytes) (pos : ℕ)
    → find_comma arg ≡ some pos
    → read_pipe_arg arg ≡ (take (pos - 7) (drop 7 arg), atoi (drop (pos + 1) arg))
unfolding read_pipe_arg
read_pipe_arg-at arg pos h = rw (h, read_pipe_arg)

-- An argument with a name and any text behind the comma.
read_pipe_arg_lem :
    (name text : Bytes)
    → Lacks b',' name
    → read_pipe_arg (codes "--pipe=" ++ (name ++ (b',' ∷ text))) ≡ (name, atoi text)
read_pipe_arg_lem name text h =
    let head : Bytes = codes "--pipe=" ++ name in
    read_pipe_arg-at (head ++ (b',' ∷ text)) (length head)
      (find_comma-Lacks head text (ground (arith, h)))
    ∙ ap₂ (λ (a : Bytes) (b : ℕ). (a, b)) named (ap atoi (drop_behind head text b','))
  where
    named : take (length (codes "--pipe=" ++ name) - 7) (name ++ (b',' ∷ text)) ≡ name
    named =
        let size : length (codes "--pipe=" ++ name) - 7 ≡ length name = omega arith in
        rw size (take-length-append name (b',' ∷ text))

read_pipe_arg-pipe_arg :
    (p : Pipe) (fd : ℕ) → IsPassed fd p → read_pipe_arg (pipe_arg p) ≡ (p.name, fd)
unfolding pipe_arg
read_pipe_arg-pipe_arg p fd (passed, named) =
    rw (passed, pipe_arg)
      (read_pipe_arg_lem p.name (print_dec fd) named
        ∙ ap (λ (n : ℕ). (p.name, n)) (atoi-print_dec fd))

read_arg-pipe_arg :
    (p : Pipe) (fd : ℕ) (m : Main)
    → IsPassed fd p
    → read_arg (pipe_arg p) m ≡ record m { pipe_fds = (p.name, fd) ∷ m.pipe_fds }
unfolding read_arg
read_arg-pipe_arg p fd m h = rw (read_pipe_arg-pipe_arg p fd h) (unfold pipe_arg equal in refl)

read_args-pipe_arg :
    (p : Pipe) (fd : ℕ) (args : List Bytes) (m : Main)
    → IsPassed fd p
    → read_args (pipe_arg p ∷ args) m
      ≡ read_args args (record m { pipe_fds = (p.name, fd) ∷ m.pipe_fds })
unfolding read_args
read_args-pipe_arg p fd args m h =
    unfold pipe_arg in ap (read_args args) (read_arg-pipe_arg p fd m h)

abbrev pub ArePassed : List Pipe → Type 0
ArePassed [] = Unit {0}
ArePassed (p ∷ ps) = ((fd : ℕ) × IsPassed fd p) × ArePassed ps

-- No pipe of the list has the name.
abbrev pub NotNamed : Bytes → List Pipe → Type 0
NotNamed name [] = Unit {0}
NotNamed name (p ∷ ps) = (p.name ≢ name) × NotNamed name ps

other_args :
    (name : Bytes) (ps : List Pipe) (m : Main)
    → ArePassed ps
    → NotNamed name ps
    → find_fd name (read_args (map pipe_arg ps) m).pipe_fds ≡ find_fd name m.pipe_fds
unfolding find_fd
other_args name [] m h k = unfold read_args in refl
other_args name (p ∷ ps) m ((fd, passed), h) k =
    ap (λ (n : Main). find_fd name n.pipe_fds) (read_args-pipe_arg p fd (map pipe_arg ps) m passed)
    ∙ other_args name ps _ h k.1
    ∙ ground (arith, equal_iff p.name name)

-- A modglue program that is started with the arguments that `fork` makes of its pipes finds each
-- pipe on the descriptor that it was opened on, if the pipe is the last of its name and the names
-- have no comma.
pub find_fd-pipe_arg :
    (before after : List Pipe) (p : Pipe) (fd : ℕ) (m : Main)
    → ArePassed before
    → IsPassed fd p
    → ArePassed after
    → NotNamed p.name after
    → find_fd p.name (read_args (map pipe_arg (before ++ p ∷ after)) m).pipe_fds ≡ some fd
find_fd-pipe_arg [] after p fd m hb hp ha fresh =
    ap (λ (n : Main). find_fd p.name n.pipe_fds) (read_args-pipe_arg p fd (map pipe_arg after) m hp)
    ∙ other_args p.name after _ ha fresh
    ∙ unfold find_fd in ground (arith, equal_iff p.name p.name)
find_fd-pipe_arg (q ∷ before) after p fd m ((fd', hq), hb) hp ha fresh =
    ap (λ (n : Main). find_fd p.name n.pipe_fds)
      (read_args-pipe_arg q fd' (map pipe_arg (before ++ p ∷ after)) m hq)
    ∙ find_fd-pipe_arg before after p fd _ hb hp ha fresh

-- `fork` puts these arguments behind the program's own, and `main::main` stops at the first argument
-- that is no option: a modglue program whose first own argument is no option learns of none of its
-- pipes.
pub real_args_positional :
    (p : ExtProcess) (arg : Bytes) (args : List Bytes) (m : Main)
    → p.modglue_binary ≡ true
    → p.args ≡ arg ∷ args
    → is_option arg ≡ false
    → (read_args (real_args p) m).pipe_fds ≡ m.pipe_fds
unfolding read_args real_args
real_args_positional p arg args m binary own positional = ground arith
