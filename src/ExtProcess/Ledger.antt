-- ===== src/ExtProcess/Ledger.antt =====
-- The descriptors of an `ext_process` over its lifetime: `setup_pipes`, `fork`, `terminate`, `pause`,
-- `restart` and the destructor.
pub mod Fresh
pub mod Opened
pub mod Interrupted
pub mod Balance
use modglue.Common.{
  ℕ, zero, suc, ◌+◌, ◌≡◌, refl, sym, ap, ◌∙◌, inl, inr, Bool, true, false, List, [], ◌∷◌, ◌++◌,
  Option, none, some, Bytes, codes, ◌==◌, if◌then◌else◌, length, drop, arith, Result, ok, throw,
  ◌>>=◌, >>=-eq-ok, Bool-cases,
}
use mathlib.Core.Path.{subst}
use modglue.System.{Call, closes, kills, Signal}
use modglue.Pipe.{Pipe, open_pipe, close_pipe, close_external, destroy}
use modglue.Pipe.Ledger.{held, closed_by, count, count-append, open_pipe-IsOpened}
use modglue.ExtProcess.{
  ExtProcess, new_process, each_pipe, terminate, pause, restart, probe_and_kill, close_childside,
}
use modglue.ExtProcess.Setup.{Host, setup_pipes, is_nil}
use modglue.ExtProcess.Fork.{
  Sockets, open_each, fork_interrupted, open_pipes, ForkAnswer, no_fork, child, Forked, branches,
  fork,
}
use modglue.ExtProcess.Output.{destroy_process}

pub data ProcessOp : Type 0 where
  sets_up : Host → ProcessOp
  forks : Host → Sockets → ForkAnswer → ProcessOp
  terminates : ℕ → Bool → ProcessOp
  pauses : Bool → ProcessOp
  restarts : Bool → ProcessOp

-- Both ends of the first pairs that `socketpair` gives, as many as there are pipes.
abbrev pub paired : ℕ → Sockets → List ℕ
paired zero sockets = []
paired (suc n) [] = []
paired (suc n) (none ∷ sockets) = paired n sockets
paired (suc n) (some (ours, theirs) ∷ sockets) = ours ∷ theirs ∷ paired n sockets

-- An object with the descriptors that `socketpair` gave it so far, and those that it closed.
pub record Tracked : Type 0 where
  pub process : ExtProcess
  pub given : List ℕ
  pub closed : List ℕ

-- How many pipes an object has.
abbrev pub pipe_count : ExtProcess → ℕ
pipe_count p = length p.input_pipes + length p.output_pipes

unfoldable pub after_fork : Tracked → Sockets → Forked → Tracked
after_fork t sockets f = record {
  process = f.parent;
  given = paired (pipe_count f.parent) sockets ++ t.given;
  closed = closed_by (f.opening ++ f.in_parent) ++ t.closed;
}

unfoldable pub after_calls : Tracked → ExtProcess × List Call → Tracked
after_calls t (p, calls) = record t { process = p; closed = closed_by calls ++ t.closed }

unfoldable pub apply_op : ProcessOp → Tracked → Result Tracked
unfolding after_fork after_calls fork_interrupted
apply_op (sets_up host) t = do q ← setup_pipes host t.process; ok (record t { process = q })
apply_op (forks host sockets answer) t = elim (fork host sockets answer t.process) [
  | ok f ↦ ok (after_fork t sockets f)
  | throw e ↦ elim (fork_interrupted host sockets t.process) [
    | none ↦ throw e
    | some (q, given) ↦ ok (record t { process = q; given = given ++ t.given })
  ]
]
apply_op (terminates exit_code alive) t = ok (after_calls t (terminate t.process exit_code alive))
apply_op (pauses alive) t = ok (after_calls t (pause t.process alive))
apply_op (restarts alive) t = ok (after_calls t (restart t.process alive))

unfoldable pub run_ops : List ProcessOp → Tracked → Result Tracked
unfolding apply_op
run_ops [] t = ok t
run_ops (op ∷ ops) t = do t' ← apply_op op t; run_ops ops t'

-- The descriptors that pipes hold.
abbrev pub all_held : List Pipe → List ℕ
all_held [] = []
all_held (p ∷ ps) = held p ++ all_held ps

abbrev pub holds : ℕ → ExtProcess → ℕ
holds n p = count n (all_held p.input_pipes) + count n (all_held p.output_pipes)

pub count_closed-append :
    (n : ℕ) (xs ys : List Call)
    → count n (closed_by (xs ++ ys)) ≡ count n (closed_by xs) + count n (closed_by ys)
count_closed-append n [] ys = omega arith
count_closed-append n (closes m ∷ xs) ys = omega (arith, count_closed-append n xs ys)
count_closed-append n (_ ∷ xs) ys = count_closed-append n xs ys

-- An operation on a pipe that closes what the pipe no longer holds.
abbrev pub GivesUp : ℕ → (Pipe → Pipe × List Call) → Type 0
GivesUp n f = (p : Pipe) → count n (held p) ≡ count n (closed_by (f p).1) + count n (held (f p).0)

pub close_pipe-GivesUp : (n : ℕ) → GivesUp n close_pipe
unfolding close_pipe
close_pipe-GivesUp n p = ground arith

pub close_external-GivesUp : (n : ℕ) → GivesUp n close_external
unfolding close_external
close_external-GivesUp n p = ground arith

pub destroy-GivesUp : (n : ℕ) → GivesUp n destroy
unfolding destroy
destroy-GivesUp n p = ground arith

pub each_pipe-GivesUp :
    (n : ℕ) (f : Pipe → Pipe × List Call) (ps : List Pipe)
    → GivesUp n f
    → let (ps', calls) = each_pipe f ps in
      count n (all_held ps) ≡ count n (closed_by calls) + count n (all_held ps')
unfolding each_pipe
each_pipe-GivesUp n f [] g = omega arith
each_pipe-GivesUp n f (p ∷ ps) g = omega (
  arith,
  g p,
  each_pipe-GivesUp n f ps g,
  count-append n (held p) (all_held ps),
  count-append n (held (f p).0) (all_held (each_pipe f ps).0),
  count_closed-append n (f p).1 (each_pipe f ps).1,
)

-- What `open_each` does to the pipes that it opens: none of them held a descriptor, and they hold
-- the first pairs.
pub record AreJoined (n : ℕ) (ps ps' : List Pipe) (sockets left : Sockets) (more : ℕ) : Type 0 where
  pub held_none : count n (all_held ps) ≡ 0
  pub held_pairs : count n (all_held ps') ≡ count n (paired (length ps) sockets)
  pub rest : left ≡ drop (length ps) sockets
  pub closes_none : more ≡ 0
  pub as_many : length ps' ≡ length ps

open_pipe-paired :
    (n : ℕ) (m : ℕ) (s : Option (ℕ × ℕ)) (sockets : Sockets) (p : Pipe) {p' : Pipe}
    {calls : List Call}
    → open_pipe none none s p ≡ ok (p', calls)
    → count n (paired (suc m) (s ∷ sockets)) ≡ count n (held p') + count n (paired m sockets)
unfolding open_pipe
open_pipe-paired n m s sockets p h = ground arith

pub open_each-AreJoined :
    (n : ℕ) (ps : List Pipe) (sockets : Sockets) (calls : List Call) {ps' : List Pipe}
    {left : Sockets} {all : List Call}
    → open_each ps sockets calls ≡ ok (ps', left, all)
    → count n (closed_by calls) ≡ 0
    → AreJoined n ps ps' sockets left (count n (closed_by all))
unfolding open_each
open_each-AreJoined n [] sockets calls h none_yet = record {
  held_none = refl;
  held_pairs = ground arith;
  rest = ground arith;
  closes_none = ground arith;
  as_many = ground arith;
}
open_each-AreJoined n (p ∷ ps) [] calls h none_yet = cc
open_each-AreJoined n (p ∷ ps) (s ∷ sockets) calls {ps' = res} {left = left'} {all = all'} h
      none_yet =
    let ((p', more), first, h') = >>=-eq-ok (open_pipe none none s p) _ h in
    let ((ps', left, all), others, e) = >>=-eq-ok (open_each ps sockets (calls ++ more)) _ h' in
    let is = open_pipe-IsOpened none none s p first in
    let pairs = open_pipe-paired n (length ps) s sockets p first in
    let no_more : count n (closed_by (calls ++ more)) ≡ 0 =
      omega (arith, count_closed-append n calls more, ap (count n) is.closes_none) in
    let joined = open_each-AreJoined n ps sockets (calls ++ more) others no_more in
    let whole : p' ∷ ps' ≡ res = cc in
    let same_left : left ≡ left' = cc in
    let same_all : all ≡ all' = cc in
    rw (sym whole, sym same_left, sym same_all)
      (record {
        held_none = omega (
          arith,
          count-append n (held p) (all_held ps),
          ap (count n) is.held_none,
          joined.held_none,
        );
        held_pairs =
            omega (arith, count-append n (held p') (all_held ps'), joined.held_pairs, pairs);
        rest = joined.rest;
        closes_none = joined.closes_none;
        as_many = omega (arith, joined.as_many);
      })
