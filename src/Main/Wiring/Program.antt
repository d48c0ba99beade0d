-- ===== src/Main/Wiring/Program.antt =====
-- A program that `ext_process::fork` has started, when it adds its pipes to its own `main::main`.
use modglue.Common.{
  ℕ, ◌≡◌, refl, sym, ap, ◌∙◌, true, false, List, [], ◌∷◌, ◌++◌, map, none, some, Bytes, ok,
}
use mathlib.Core.Path.{ap₂, subst}
use modglue.System.{Call, execs}
use modglue.Pipe.{Pipe, Direction, input, output, new_pipe, do_fcntl, open_pipe}
use modglue.ExtProcess.Setup.{Host}
use modglue.ExtProcess.Fork.{Sockets, child, Forked, fork, pipe_arg, real_args}
use modglue.ExtProcess.Fork.Descriptors.{AllPipes}
use modglue.ExtProcess.Fork.Joined.{IsPair, IsJoined, fork-IsJoined}
use modglue.ExtProcess.{ExtProcess}
use modglue.Main.{Main, find_fd, read_arg, read_args, is_option, new_main, add_opipe, add_ipipe}
use modglue.Main.Wiring.Ours.{
  ours_of, close_external_kept, ours_of-append, ours_of-split, NotNamed-ours_of, IsPlain,
  IsPlain-ours_of, AllPipes-append, AllPipes-split,
}
use modglue.Main.Wiring.{ArePassed, IsPassed, NotNamed, find_fd-pipe_arg}

ArePassed-joined :
    (sockets : Sockets) (ps : List Pipe)
    → AllPipes (IsJoined sockets) ps
    → AllPipes IsPlain ps
    → ArePassed ps
ArePassed-joined sockets [] h k = tt
ArePassed-joined sockets (p ∷ ps) ((ours, theirs, among, fd, fd_external), h) (plain, k) =
    ((theirs, (fd_external, plain)), ArePassed-joined sockets ps h k)

-- All of a program's own arguments are options, so that `main::main` reads on behind them.
abbrev pub AreOptions : List Bytes → Type 0
AreOptions [] = Unit {0}
AreOptions (arg ∷ args) = (is_option arg ≡ true) × AreOptions args

read_args-append :
    (args more : List Bytes) (m : Main)
    → AreOptions args
    → read_args (args ++ more) m ≡ read_args more (read_args args m)
unfolding read_args
read_args-append [] more m h = refl
read_args-append (arg ∷ args) more m (h, k) = rw h (read_args-append args more (read_arg arg m) k)

map-append : (ps rs : List Pipe) → map pipe_arg ps ++ map pipe_arg rs ≡ map pipe_arg (ps ++ rs)
map-append [] rs = refl
map-append (p ∷ ps) rs = ap (◌∷◌ (pipe_arg p)) (map-append ps rs)

-- The descriptor that the started program finds for one of the pipes.
find_fd-real_args :
    (q : ExtProcess) (before after : List Pipe) (p : Pipe) (theirs : ℕ) (m : Main)
    → q.modglue_binary ≡ true
    → AreOptions q.args
    → q.input_pipes ++ q.output_pipes ≡ before ++ p ∷ after
    → ArePassed before
    → IsPassed theirs p
    → ArePassed after
    → NotNamed p.name after
    → find_fd p.name (read_args (real_args q) m).pipe_fds ≡ some theirs
unfolding real_args
find_fd-real_args q before after p theirs m binary options split hb hp ha fresh =
    let own = read_args q.args m in
    let all = map pipe_arg q.input_pipes ++ map pipe_arg q.output_pipes in
    let read : read_args (real_args q) m ≡ read_args all own =
      rw (binary, real_args) (read_args-append q.args all m options) in
    let same : all ≡ map pipe_arg (before ++ p ∷ after) =
      map-append q.input_pipes q.output_pipes ∙ ap (map pipe_arg) split in
    ap (λ (n : Main). find_fd p.name n.pipe_fds)
      (read ∙ ap (λ (args : List Bytes). read_args args own) same)
    ∙ find_fd-pipe_arg before after p theirs own hb hp ha fresh

-- The pipe that `add` makes of a new one.
abbrev pub connected : Direction → Bytes → ℕ → Pipe
connected direction name fd = record (new_pipe direction name) { fd = some fd; broken = false }

add_opipe_found :
    (name : Bytes) (fd : ℕ) (m : Main)
    → find_fd name m.pipe_fds ≡ some fd
    → add_opipe none (new_pipe output name) m
      ≡ ok (record m { opipes = m.opipes ++ connected output name fd ∷ [] }, [])
unfolding add_opipe
add_opipe_found name fd m h = unfold new_pipe in rw (h, add_opipe) (unfold open_pipe in refl)

add_ipipe_found :
    (name : Bytes) (fd : ℕ) (m : Main)
    → find_fd name m.pipe_fds ≡ some fd
    → add_ipipe none (new_pipe input name) m
      ≡ ok
          (record m { ipipes = m.ipipes ++ connected input name fd ∷ [] }, do_fcntl input (some fd))
unfolding add_ipipe
add_ipipe_found name fd m h = unfold new_pipe in rw (h, add_ipipe) (unfold open_pipe in refl)

find_fd-new_main :
    (q : ExtProcess) (before after : List Pipe) (p : Pipe) (theirs sig_chld_pipe : ℕ)
    → q.modglue_binary ≡ true
    → AreOptions q.args
    → q.input_pipes ++ q.output_pipes ≡ before ++ p ∷ after
    → ArePassed before
    → IsPassed theirs p
    → ArePassed after
    → NotNamed p.name after
    → find_fd p.name (new_main sig_chld_pipe (real_args q)).pipe_fds ≡ some theirs
unfolding new_main
find_fd-new_main q before after p theirs sig_chld_pipe = find_fd-real_args q before after p theirs _

-- The process `o` with its pipes joined, and a pipe `q` of the parent's view of it.
module _ (o : ExtProcess) (sockets : Sockets) (before after : List Pipe) (q : Pipe) (sig : ℕ) where
  started_finds :
      o.modglue_binary ≡ true
      → AreOptions o.args
      → AllPipes (IsJoined sockets) (o.input_pipes ++ o.output_pipes)
      → ours_of (o.input_pipes ++ o.output_pipes) ≡ before ++ q ∷ after
      → AllPipes IsPlain (ours_of (o.input_pipes ++ o.output_pipes))
      → NotNamed q.name after
      → (ours : ℕ) × (theirs : ℕ) × IsPair ours theirs sockets
        × (q.fd ≡ some ours)
        × (find_fd q.name (new_main sig (real_args o)).pipe_fds ≡ some theirs)
  started_finds binary options joined split plain fresh =
      let all = o.input_pipes ++ o.output_pipes in
      let (before', q', after', split', closed, behind) = ours_of-split all before after q split in
      let (name_kept, fd_kept) = close_external_kept q' in
      let name_is : q'.name ≡ q.name = sym name_kept ∙ ap (λ (r : Pipe). r.name) closed in
      let (jb, (ours, theirs, among, fd, fd_external), ja) =
        AllPipes-split (IsJoined sockets) before' after' q'
          (subst (AllPipes (IsJoined sockets)) split' joined) in
      let (pb, pq, pa) =
        AllPipes-split IsPlain before' after' q'
          (subst (AllPipes IsPlain) split' (IsPlain-ours_of all plain)) in
      let fresh' : NotNamed q'.name after' =
        subst (λ (name : Bytes). NotNamed name after') (sym name_is)
          (NotNamed-ours_of q.name after' (subst (NotNamed q.name) (sym behind) fresh)) in
      (
        ours,
        theirs,
        among,
        ap (λ (r : Pipe). r.fd) (sym closed) ∙ fd_kept ∙ fd,
        subst (λ (name : Bytes). find_fd name (new_main sig (real_args o)).pipe_fds ≡ some theirs)
            name_is
            (find_fd-new_main o before' after' q' theirs sig binary options split'
              (ArePassed-joined sockets before' jb pb) (fd_external, pq)
              (ArePassed-joined sockets after' ja pa) fresh'),
      )

-- When a program has forked a modglue program, each of its pipes is one end of a pair of sockets,
-- and the started program, which reads its arguments in the constructor of `main::main`, has the
-- other end of the same pair under the pipe's name: whichever kind of pipe it adds by that name is
-- opened there. This holds where the program's own arguments are options, no name of a pipe has a
-- comma, and no later pipe has the same name.
pub fork-add :
    (host : Host) (sockets : Sockets) (pid : ℕ) (p : ExtProcess) {f : Forked}
    (before after : List Pipe) (q : Pipe) (sig_chld_pipe : ℕ)
    → fork host sockets (child pid) p ≡ ok f
    → f.parent.modglue_binary ≡ true
    → AreOptions f.parent.args
    → f.parent.input_pipes ++ f.parent.output_pipes ≡ before ++ q ∷ after
    → AllPipes IsPlain (f.parent.input_pipes ++ f.parent.output_pipes)
    → NotNamed q.name after
    → (ours : ℕ) × (theirs : ℕ) × (calls : List Call) × (args : List Bytes) × (name : Bytes)
      × IsPair ours theirs sockets
      × (q.fd ≡ some ours)
      × (f.in_child ≡ calls ++ execs name (name ∷ args) ∷ [])
      × (let m = new_main sig_chld_pipe args in
          (add_opipe none (new_pipe output q.name) m
            ≡ ok (record m { opipes = m.opipes ++ connected output q.name theirs ∷ [] }, []))
          × (add_ipipe none (new_pipe input q.name) m
              ≡ ok (
                record m { ipipes = m.ipipes ++ connected input q.name theirs ∷ [] },
                do_fcntl input (some theirs),
              )))
fork-add host sockets pid p {f} before after q sig_chld_pipe forked binary options split plain
      fresh =
    let (o, ins, outs, (same_ins, same_outs, same_args, same_binary, (calls, last))) =
      fork-IsJoined host sockets pid p forked in
    let same : f.parent.input_pipes ++ f.parent.output_pipes
        ≡ ours_of (o.input_pipes ++ o.output_pipes) =
      ap₂ (◌++◌) same_ins same_outs ∙ sym (ours_of-append o.input_pipes o.output_pipes) in
    let (ours, theirs, among, fd, found) =
      started_finds o sockets before after q sig_chld_pipe (sym same_binary ∙ binary)
        (subst AreOptions same_args options)
        (AllPipes-append (IsJoined sockets) o.input_pipes o.output_pipes ins outs)
        (sym same ∙ split) (subst (AllPipes IsPlain) same plain) fresh in
    (
      ours,
      theirs,
      calls,
      real_args o,
      o.name,
      among,
      fd,
      last,
      (add_opipe_found q.name theirs _ found, add_ipipe_found q.name theirs _ found),
    )
