-- ===== src/ExtProcess/Fork/Descriptors.antt =====
-- Which ends of the pipes are open in the parent after `fork`.
use modglue.Common.{
  ℕ, ◌≡◌, inl, inr, true, false, List, [], ◌∷◌, ◌++◌, ◌==◌, if◌then◌else◌, arith, Bool-cases,
  Option, none, ok, >>=-eq-ok,
}
use mathlib.Core.Path.{subst}
use modglue.System.{Call}
use modglue.Pipe.{Pipe, close_external, open_pipe, is_open}
use modglue.ExtProcess.Setup.{Host, setup_pipes}
use modglue.ExtProcess.Fork.{
  Sockets, open_each, open_pipes, ForkAnswer, no_fork, child, Forked, branches, fork,
}
use modglue.ExtProcess.{ExtProcess, each_pipe, close_childside}

abbrev pub AllPipes : (Pipe → Type 0) → List Pipe → Type 0
AllPipes P [] = Unit {0}
AllPipes P (p ∷ ps) = P p × AllPipes P ps

-- Opened by `socketpair`: both ends are open.
abbrev pub IsPaired : Pipe → Type 0
IsPaired p = (is_open p.fd ≡ true) × (is_open p.fd_external ≡ true) × (p.broken ≡ false)

-- The parent keeps its own end, and has closed the program's.
abbrev pub IsOurs : Pipe → Type 0
IsOurs p = (is_open p.fd ≡ true) × (p.fd_external ≡ none) × (p.broken ≡ false)

open_pipe-IsPaired :
    (s : Option (ℕ × ℕ)) (p : Pipe) {p' : Pipe} {calls : List Call}
    → open_pipe none none s p ≡ ok (p', calls)
    → IsPaired p'
unfolding open_pipe
open_pipe-IsPaired s p h = ground arith

open_each-IsPaired :
    (ps : List Pipe) (sockets : Sockets) (calls : List Call) {ps' : List Pipe} {left : Sockets}
    {all : List Call}
    → open_each ps sockets calls ≡ ok (ps', left, all)
    → AllPipes IsPaired ps'
unfolding open_each
open_each-IsPaired [] sockets calls {ps'} h = let e : ps' ≡ [] = cc in rw e tt
open_each-IsPaired (p ∷ ps) [] calls h = cc
open_each-IsPaired (p ∷ ps) (s ∷ sockets) calls {ps' = res} h =
    let ((p', more), first, h') = >>=-eq-ok (open_pipe none none s p) _ h in
    let ((ps', left, all), others, e) = >>=-eq-ok (open_each ps sockets (calls ++ more)) _ h' in
    let whole : p' ∷ ps' ≡ res = cc in
    subst (AllPipes IsPaired) whole
      (open_pipe-IsPaired s p first, open_each-IsPaired ps sockets (calls ++ more) others)

close_external-IsOurs : (p : Pipe) → IsPaired p → IsOurs (close_external p).0
unfolding close_external
close_external-IsOurs p h = ground arith

each_pipe-IsOurs :
    (ps : List Pipe) → AllPipes IsPaired ps → AllPipes IsOurs (each_pipe close_external ps).0
unfolding each_pipe
each_pipe-IsOurs [] h = tt
each_pipe-IsOurs (p ∷ ps) h = (close_external-IsOurs p h.0, each_pipe-IsOurs ps h.1)

open_pipes-IsPaired :
    (sockets : Sockets) (p : ExtProcess) {q : ExtProcess} {calls : List Call}
    → open_pipes sockets p ≡ ok (q, calls)
    → AllPipes IsPaired q.input_pipes × AllPipes IsPaired q.output_pipes
unfolding open_pipes
open_pipes-IsPaired sockets p {q} h =
    let ((ins, left, calls), first, h') = >>=-eq-ok (open_each p.input_pipes sockets []) _ h in
    let ((outs, rest, all), second, e) = >>=-eq-ok (open_each p.output_pipes left calls) _ h' in
    let same : record p { input_pipes = ins; output_pipes = outs } ≡ q = cc in
    subst (λ (r : ExtProcess). AllPipes IsPaired r.input_pipes × AllPipes IsPaired r.output_pipes)
      same
      (
        open_each-IsPaired p.input_pipes sockets [] first,
        open_each-IsPaired p.output_pipes left calls second,
      )

branches-parent :
    (answer : ForkAnswer) (p : ExtProcess) (calls : List Call) {f : Forked}
    → AllPipes IsPaired p.input_pipes × AllPipes IsPaired p.output_pipes
    → branches answer p calls ≡ ok f
    → AllPipes IsOurs f.parent.input_pipes × AllPipes IsOurs f.parent.output_pipes
unfolding branches close_childside
branches-parent no_fork p calls h e = cc
branches-parent (child pid) p calls h e =
    ground (arith, each_pipe-IsOurs p.input_pipes h.0, each_pipe-IsOurs p.output_pipes h.1)

-- After a `fork` that does not throw, each pipe of the parent's object is open at the parent's end,
-- is closed at the program's end, and is not marked broken.
pub fork-IsOurs :
    (host : Host) (sockets : Sockets) (answer : ForkAnswer) (p : ExtProcess) {f : Forked}
    → fork host sockets answer p ≡ ok f
    → AllPipes IsOurs f.parent.input_pipes × AllPipes IsOurs f.parent.output_pipes
unfolding fork
fork-IsOurs host sockets answer p h = elim (Bool-cases (p.pid == 0)) [
  | inl new ↦
      let (ready, first, h') =
        >>=-eq-ok (if p.pipes_done then ok p else setup_pipes host p) _ (rw (new, fork) at h) in
      let ((opened, calls), second, h'') = >>=-eq-ok (open_pipes sockets ready) _ h' in
      branches-parent answer (record opened { paused = false }) calls
        (open_pipes-IsPaired sockets ready second) h''
  | inr running ↦ cc (rw running at h)
]
