-- ===== src/ExtProcess/Ledger/Balance.antt =====
-- What an `ext_process` was given of descriptors, and what it closed, up to its destructor.
use modglue.Common.{
  ℕ, ◌+◌, ◌≡◌, refl, sym, ◌∙◌, inl, inr, false, List, [], ◌∷◌, ◌++◌, Bytes, ◌==◌, if◌then◌else◌,
  arith, ok, >>=-eq-ok, Bool-cases, if-cases, Result-cases, Option-cases, some, ap,
}
use mathlib.Core.Path.{subst}
use modglue.System.{Call}
use modglue.Pipe.Ledger.{closed_by, count, count-append}
use modglue.ExtProcess.{
  ExtProcess, new_process, terminate, pause, restart, probe_and_kill, close_childside,
}
use modglue.ExtProcess.Setup.{Host, setup_pipes}
use modglue.ExtProcess.Fork.{
  Sockets, open_pipes, ForkAnswer, no_fork, child, Forked, branches, fork, fork_interrupted,
  open_pipes_left,
}
use modglue.ExtProcess.Ledger.Interrupted.{open_pipes_left-Held}
use modglue.ExtProcess.Ledger.Fresh.{setup_pipes-SameHeld}
use modglue.ExtProcess.Ledger.Opened.{
  IsOpened, open_pipes-IsOpened, close_childside-GivesUp, terminate-GivesUp,
  destroy_process-GivesUp,
}
use modglue.ExtProcess.Output.{destroy_process}
use modglue.ExtProcess.Ledger.{
  ProcessOp, sets_up, forks, terminates, pauses, restarts, paired, Tracked, pipe_count, after_fork,
  after_calls, apply_op, run_ops, holds, count_closed-append,
}

abbrev Balanced : ℕ → Tracked → Type 0
Balanced n t = count n t.given ≡ count n t.closed + holds n t.process

-- What a `fork` does that throws nothing.
record IsForked (n : ℕ) (p : ExtProcess) (sockets : Sockets) (f : Forked) : Type 0 where
  held_none : holds n p ≡ 0
  all_given :
      count n (paired (pipe_count f.parent) sockets)
      ≡ count n (closed_by (f.opening ++ f.in_parent)) + holds n f.parent

branches-IsForked :
    (n : ℕ) (answer : ForkAnswer) (p q : ExtProcess) (sockets : Sockets) (calls : List Call)
    {f : Forked}
    → IsOpened n p q sockets calls
    → branches answer (record q { paused = false }) calls ≡ ok f
    → IsForked n p sockets f
unfolding branches
branches-IsForked n no_fork p q sockets calls opened h = cc
branches-IsForked n (child pid) p q sockets calls {f = res} opened h =
    let forked : ExtProcess = record q { paused = false; pid = pid } in
    let ours = close_childside forked in
    let parent : ours.0 ≡ res.parent = cc in
    let opening : calls ≡ res.opening = cc in
    let closing : ours.1 ≡ res.in_parent = cc in
    rw (sym parent, sym opening, sym closing)
      (let (gives, as_many) = close_childside-GivesUp n forked in
        record {
          held_none = opened.held_none;
          all_given = rw as_many (
              omega (
                arith,
                gives,
                opened.held_pairs,
                opened.closes_none,
                count_closed-append n calls ours.1,
              ));
        })

ready-SameHeld :
    (n : ℕ) (host : Host) (p : ExtProcess) {q : ExtProcess}
    → (if p.pipes_done then ok p else setup_pipes host p) ≡ ok q
    → holds n q ≡ holds n p
ready-SameHeld n host p {q} h = elim (if-cases p.pipes_done _ _ h) [
  | inl done ↦ let same : p ≡ q = cc in rw (sym same) refl
  | inr not_yet ↦ setup_pipes-SameHeld n host p not_yet
]

fork-IsForked :
    (n : ℕ) (host : Host) (sockets : Sockets) (answer : ForkAnswer) (p : ExtProcess) {f : Forked}
    → fork host sockets answer p ≡ ok f
    → IsForked n p sockets f
unfolding fork
fork-IsForked n host sockets answer p h = elim (Bool-cases (p.pid == 0)) [
  | inl new ↦
      let (ready, first, h') =
        >>=-eq-ok (if p.pipes_done then ok p else setup_pipes host p) _ (rw (new, fork) at h) in
      let ((opened, calls), second, h'') = >>=-eq-ok (open_pipes sockets ready) _ h' in
      let forked =
        branches-IsForked n answer ready opened sockets calls
          (open_pipes-IsOpened n sockets ready second) h'' in
      record {
        held_none = sym (ready-SameHeld n host p first) ∙ forked.held_none;
        all_given = forked.all_given;
      }
  | inr running ↦ cc (rw running at h)
]

fork_interrupted-Held :
    (n : ℕ) (host : Host) (sockets : Sockets) (p : ExtProcess) {q : ExtProcess} {given : List ℕ}
    → fork_interrupted host sockets p ≡ some (q, given)
    → holds n q ≡ holds n p + count n given
unfolding fork_interrupted
fork_interrupted-Held n host sockets p {q} {given} h = elim (Bool-cases (p.pid == 0)) [
  | inr running ↦ cc (rw running at h)
  | inl new ↦ elim (Result-cases (if p.pipes_done then ok p else setup_pipes host p)) [
    | inr (e, thrown) ↦ cc (rw (new, thrown, fork_interrupted) at h)
    | inl (ready, set_up) ↦ elim (Result-cases (open_pipes sockets ready)) [
      | inl (opened, all) ↦ cc (rw (new, set_up, all, fork_interrupted) at h)
      | inr (e, thrown) ↦
          let left : open_pipes_left sockets ready ≡ (q, given) =
            cc (rw (new, set_up, thrown, fork_interrupted) at h) in
          subst (λ (r : ExtProcess × List ℕ). holds n r.0 ≡ holds n p + count n r.1) left
            (open_pipes_left-Held n sockets ready
              ∙ ap (λ (held : ℕ). held + count n (open_pipes_left sockets ready).1)
                  (ready-SameHeld n host p set_up))
    ]
  ]
]

apply_op-Balanced :
    (n : ℕ) (op : ProcessOp) (t : Tracked) {t' : Tracked}
    → apply_op op t ≡ ok t'
    → Balanced n t
    → Balanced n t'
unfolding apply_op after_fork after_calls
apply_op-Balanced n (sets_up host) t {t'} h b =
    let (q, done, e) = >>=-eq-ok (setup_pipes host t.process) _ h in
    let same : record t { process = q } ≡ t' = cc in
    subst (Balanced n) same (omega (arith, b, setup_pipes-SameHeld n host t.process done))
apply_op-Balanced n (forks host sockets answer) t {t'} h b =
    elim (Result-cases (fork host sockets answer t.process)) [
      | inl (f, done) ↦
          let forked = fork-IsForked n host sockets answer t.process done in
          let same : after_fork t sockets f ≡ t' = cc (rw (done, apply_op) at h) in
          subst (Balanced n) same (
            omega (
              arith,
              b,
              forked.held_none,
              forked.all_given,
              count-append n (paired (pipe_count f.parent) sockets) t.given,
              count-append n (closed_by (f.opening ++ f.in_parent)) t.closed,
            ))
      | inr (e, thrown) ↦ elim (Option-cases (fork_interrupted host sockets t.process)) [
        | inl elsewhere ↦ cc (rw (thrown, elsewhere, apply_op) at h)
        | inr ((q, given), half_way) ↦
            let same : record t { process = q; given = given ++ t.given } ≡ t' =
              cc (rw (thrown, half_way, apply_op) at h) in
            subst (Balanced n) same (
              omega (
                arith,
                b,
                fork_interrupted-Held n host sockets t.process half_way,
                count-append n given t.given,
              ))
      ]
    ]
apply_op-Balanced n (terminates exit_code alive) t {t'} h b =
    let same : after_calls t (terminate t.process exit_code alive) ≡ t' = cc in
    subst (Balanced n) same (
      omega (
        arith,
        b,
        terminate-GivesUp n t.process exit_code alive,
        count-append n (closed_by (terminate t.process exit_code alive).1) t.closed,
      ))
apply_op-Balanced n (pauses alive) t h b = unfold pause probe_and_kill in ground arith
apply_op-Balanced n (restarts alive) t h b = unfold restart probe_and_kill in ground arith

run_ops-Balanced :
    (n : ℕ) (ops : List ProcessOp) (t : Tracked) {t' : Tracked}
    → run_ops ops t ≡ ok t'
    → Balanced n t
    → Balanced n t'
unfolding run_ops
run_ops-Balanced n [] t {t'} h b = let same : t ≡ t' = cc in subst (Balanced n) same b
run_ops-Balanced n (op ∷ ops) t h b =
    let (next, first, rest) = >>=-eq-ok (apply_op op t) _ h in
    run_ops-Balanced n ops next rest (apply_op-Balanced n op t first b)

abbrev pub fresh : Bytes → List Bytes → Tracked
fresh name args = record { process = new_process name args; given = []; closed = [] }

-- Over the whole life of an `ext_process`, from its constructor, through any calls of `setup_pipes`,
-- `fork`, `terminate`, `pause` and `restart` in any order, to its destructor: each descriptor that
-- `socketpair` gave for its pipes is closed in this program as often as it was given, also where the
-- program was started again and again, and where `socketpair` failed in a `fork` when some pipes were
-- open already. No call throws for another reason.
pub destroy_process_balance :
    (name : Bytes) (args : List Bytes) (ops : List ProcessOp) (n : ℕ) {t : Tracked}
    → run_ops ops (fresh name args) ≡ ok t
    → count n (closed_by (destroy_process t.process) ++ t.closed) ≡ count n t.given
unfolding new_process
destroy_process_balance name args ops n {t} h =
    let b = run_ops-Balanced n ops (fresh name args) h refl in
    omega (
      arith,
      b,
      destroy_process-GivesUp n t.process,
      count-append n (closed_by (destroy_process t.process)) t.closed,
    )
