-- ===== src/ExtProcess/Fork/Joined.antt =====
-- The pairs of sockets that `fork` leaves the two programs with, and the arguments of `execvp`.
use modglue.Common.{
  ℕ, ◌≡◌, refl, sym, ◌∙◌, ◌⊎◌, inl, inr, List, [], ◌∷◌, ◌++◌, ◌==◌, if◌then◌else◌, arith,
  Bool-cases, false, Option, none, some, ok, >>=-eq-ok, append_assoc,
}
use mathlib.Core.Path.{subst, ap₂}
use modglue.System.{Call, execs, nonblock}
use modglue.Pipe.{Pipe, close_external, open_pipe}
use modglue.ExtProcess.Setup.{Host, setup_pipes}
use modglue.ExtProcess.Fork.{
  Sockets, open_each, open_pipes, child, Forked, branches, fork, real_args, dup_unix_pipes,
}
use modglue.ExtProcess.Fork.Descriptors.{AllPipes}
use modglue.ExtProcess.{ExtProcess, each_pipe, close_childside, close_parentside}

-- One of the pairs that `socketpair` answered.
abbrev pub IsPair : ℕ → ℕ → Sockets → Type 0
IsPair ours theirs [] = ⊥
IsPair ours theirs (s ∷ sockets) = (s ≡ some (ours, theirs)) ⊎ IsPair ours theirs sockets

-- A pipe whose two ends are such a pair.
abbrev pub IsJoined : Sockets → Pipe → Type 0
IsJoined sockets p =
    (ours : ℕ) × (theirs : ℕ) × IsPair ours theirs sockets
    × (p.fd ≡ some ours)
    × (p.fd_external ≡ some theirs)

-- Answers that are left over are among the answers.
abbrev IsPart : Sockets → Sockets → Type 0
IsPart left sockets = (ours theirs : ℕ) → IsPair ours theirs left → IsPair ours theirs sockets

IsJoined-IsPart :
    (left sockets : Sockets) (p : Pipe) → IsPart left sockets → IsJoined left p → IsJoined sockets p
IsJoined-IsPart left sockets p part (ours, theirs, among, fd, fd_external) =
    (ours, theirs, part ours theirs among, fd, fd_external)

AllPipes-IsPart :
    (left sockets : Sockets) (ps : List Pipe)
    → IsPart left sockets
    → AllPipes (IsJoined left) ps
    → AllPipes (IsJoined sockets) ps
AllPipes-IsPart left sockets [] part h = tt
AllPipes-IsPart left sockets (p ∷ ps) part (h, hs) =
    (IsJoined-IsPart left sockets p part h, AllPipes-IsPart left sockets ps part hs)

open_pipe-IsJoined :
    (s : Option (ℕ × ℕ)) (sockets : Sockets) (p : Pipe) {p' : Pipe} {calls : List Call}
    → open_pipe none none s p ≡ ok (p', calls)
    → IsJoined (s ∷ sockets) p'
unfolding open_pipe
open_pipe-IsJoined none sockets p h = ground arith
open_pipe-IsJoined (some (ours, theirs)) sockets p h =
    (ours, theirs, inl refl, ground arith, ground arith)

open_each-IsJoined :
    (ps : List Pipe) (sockets : Sockets) (calls : List Call) {ps' : List Pipe} {left : Sockets}
    {all : List Call}
    → open_each ps sockets calls ≡ ok (ps', left, all)
    → AllPipes (IsJoined sockets) ps' × IsPart left sockets
unfolding open_each
open_each-IsJoined [] sockets calls {ps'} {left} h =
    let none_opened : [] ≡ ps' = cc in
    let same : sockets ≡ left = cc in
    subst (λ (r : List Pipe × Sockets). AllPipes (IsJoined sockets) r.0 × IsPart r.1 sockets)
      (ap₂ (λ (r : List Pipe) (t : Sockets). (r, t)) none_opened same)
      (tt, λ ours theirs among. among)
open_each-IsJoined (p ∷ ps) [] calls h = cc
open_each-IsJoined (p ∷ ps) (s ∷ sockets) calls {ps' = res} {left = rest} h =
    let ((p', more), first, h') = >>=-eq-ok (open_pipe none none s p) _ h in
    let ((ps', left, all), others, e) = >>=-eq-ok (open_each ps sockets (calls ++ more)) _ h' in
    let (joined, part) = open_each-IsJoined ps sockets (calls ++ more) others in
    let later : IsPart sockets (s ∷ sockets) = λ ours theirs among. inr among in
    let whole : p' ∷ ps' ≡ res = cc in
    let same : left ≡ rest = cc in
    subst
      (λ (r : List Pipe × Sockets).
        AllPipes (IsJoined (s ∷ sockets)) r.0 × IsPart r.1 (s ∷ sockets))
      (ap₂ (λ (r : List Pipe) (t : Sockets). (r, t)) whole same)
      (
        (
          open_pipe-IsJoined s sockets p first,
          AllPipes-IsPart sockets (s ∷ sockets) ps' later joined,
        ),
        λ ours theirs among. inr (part ours theirs among),
      )

open_pipes-IsJoined :
    (sockets : Sockets) (p : ExtProcess) {q : ExtProcess} {calls : List Call}
    → open_pipes sockets p ≡ ok (q, calls)
    → AllPipes (IsJoined sockets) q.input_pipes × AllPipes (IsJoined sockets) q.output_pipes
unfolding open_pipes
open_pipes-IsJoined sockets p {q} h =
    let ((ins, left, calls), first, h') = >>=-eq-ok (open_each p.input_pipes sockets []) _ h in
    let ((outs, rest, all), second, e) = >>=-eq-ok (open_each p.output_pipes left calls) _ h' in
    let (joined_ins, part) = open_each-IsJoined p.input_pipes sockets [] first in
    let (joined_outs, _) = open_each-IsJoined p.output_pipes left calls second in
    let same : record p { input_pipes = ins; output_pipes = outs } ≡ q = cc in
    subst
      (λ (r : ExtProcess).
        AllPipes (IsJoined sockets) r.input_pipes × AllPipes (IsJoined sockets) r.output_pipes)
      same (joined_ins, AllPipes-IsPart left sockets outs part joined_outs)

-- What a `fork` of the object `q`, whose pipes are open, leaves: the parent's lists of pipes, and the
-- child's last call.
abbrev pub IsForkOf : ExtProcess → Forked → Type 0
IsForkOf q f =
    (f.parent.input_pipes ≡ (each_pipe close_external q.input_pipes).0)
    × (f.parent.output_pipes ≡ (each_pipe close_external q.output_pipes).0)
    × (f.parent.args ≡ q.args)
    × (f.parent.modglue_binary ≡ q.modglue_binary)
    × ((before : List Call) × (f.in_child ≡ before ++ execs q.name (q.name ∷ real_args q) ∷ []))

branches-IsForkOf :
    (pid : ℕ) (q : ExtProcess) (calls : List Call) {f : Forked}
    → branches (child pid) q calls ≡ ok f
    → IsForkOf q f
unfolding branches close_childside close_parentside
branches-IsForkOf pid q calls {f} e =
    let closed = close_parentside q in
    let dups = if q.modglue_binary then [] else dup_unix_pipes closed.0 in
    let last = execs q.name (q.name ∷ real_args q) ∷ [] in
    let made : closed.1 ++ (dups ++ (nonblock (some 0) ∷ last)) ≡ f.in_child = cc in
    (cc, cc, cc, cc, ((closed.1 ++ dups) ++ nonblock (some 0) ∷ [], sym made ∙ simp append_assoc))

pub fork-IsJoined :
    (host : Host) (sockets : Sockets) (pid : ℕ) (p : ExtProcess) {f : Forked}
    → fork host sockets (child pid) p ≡ ok f
    → (q : ExtProcess) × AllPipes (IsJoined sockets) q.input_pipes
      × AllPipes (IsJoined sockets) q.output_pipes
      × IsForkOf q f
unfolding fork
fork-IsJoined host sockets pid p h = elim (Bool-cases (p.pid == 0)) [
  | inl new ↦
      let (ready, first, h') =
        >>=-eq-ok (if p.pipes_done then ok p else setup_pipes host p) _ (rw (new, fork) at h) in
      let ((opened, calls), second, h'') = >>=-eq-ok (open_pipes sockets ready) _ h' in
      let (ins, outs) = open_pipes-IsJoined sockets ready second in
      let q : ExtProcess = record opened { paused = false } in
      (q, ins, outs, branches-IsForkOf pid q calls h'')
  | inr running ↦ cc (rw running at h)
]

branches-pid :
    (pid : ℕ) (q : ExtProcess) (calls : List Call) {f : Forked}
    → branches (child pid) q calls ≡ ok f
    → f.parent.pid ≡ pid
unfolding branches close_childside
branches-pid pid q calls e = cc

pub fork-pid :
    (host : Host) (sockets : Sockets) (pid : ℕ) (p : ExtProcess) {f : Forked}
    → fork host sockets (child pid) p ≡ ok f
    → f.parent.pid ≡ pid
unfolding fork
fork-pid host sockets pid p h = elim (Bool-cases (p.pid == 0)) [
  | inl new ↦
      let (ready, first, h') =
        >>=-eq-ok (if p.pipes_done then ok p else setup_pipes host p) _ (rw (new, fork) at h) in
      let ((opened, calls), second, h'') = >>=-eq-ok (open_pipes sockets ready) _ h' in
      branches-pid pid (record opened { paused = false }) calls h''
  | inr running ↦ cc (rw running at h)
]
