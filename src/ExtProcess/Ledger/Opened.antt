-- ===== src/ExtProcess/Ledger/Opened.antt =====
-- What `open_pipes_`, `close_childside_`, `terminate` and the destructor do to the descriptors that an
-- object holds.
use modglue.Common.{
  ℕ, zero, suc, ◌+◌, ◌≡◌, refl, sym, ap, Bool, List, [], ◌∷◌, ◌++◌, none, some, ◌==◌, if◌then◌else◌,
  length, drop, arith, ok, >>=-eq-ok,
}
use modglue.System.{Call, Signal, sigterm}
use modglue.Pipe.{Pipe, close_pipe, close_external, destroy}
use modglue.Pipe.Ledger.{closed_by, count}
use modglue.ExtProcess.{ExtProcess, each_pipe, terminate, probe_and_kill, close_childside}
use modglue.ExtProcess.Fork.{Sockets, open_each, open_pipes}
use modglue.ExtProcess.Output.{destroy_process}
use modglue.ExtProcess.Ledger.{
  paired, pipe_count, all_held, holds, count_closed-append, each_pipe-GivesUp, close_pipe-GivesUp,
  close_external-GivesUp, destroy-GivesUp, open_each-AreJoined,
}

paired_nil : (n : ℕ) → paired n [] ≡ []
paired_nil zero = refl
paired_nil (suc n) = refl

count-paired-add :
    (n k m : ℕ) (sockets : Sockets)
    → count n (paired (k + m) sockets)
      ≡ count n (paired k sockets) + count n (paired m (drop k sockets))
count-paired-add n zero m sockets = ground arith
count-paired-add n (suc k) m [] = rw (paired_nil (suc k + m), paired_nil m) refl
count-paired-add n (suc k) m (none ∷ sockets) =
    let more : suc k + m ≡ suc (k + m) = omega arith in rw more (count-paired-add n k m sockets)
count-paired-add n (suc k) m (some (ours, theirs) ∷ sockets) =
    let more : suc k + m ≡ suc (k + m) = omega arith in
    rw more (omega (arith, count-paired-add n k m sockets))

-- What `open_pipes` does.
pub record IsOpened (n : ℕ) (p q : ExtProcess) (sockets : Sockets) (calls : List Call)
    : Type 0 where
  pub held_none : holds n p ≡ 0
  pub held_pairs : holds n q ≡ count n (paired (pipe_count q) sockets)
  pub closes_none : count n (closed_by calls) ≡ 0

pub open_pipes-IsOpened :
    (n : ℕ) (sockets : Sockets) (p : ExtProcess) {q : ExtProcess} {calls : List Call}
    → open_pipes sockets p ≡ ok (q, calls)
    → IsOpened n p q sockets calls
unfolding open_pipes
open_pipes-IsOpened n sockets p {q = res} {calls = all'} h =
    let ((ins, left, calls), first, h') = >>=-eq-ok (open_each p.input_pipes sockets []) _ h in
    let ((outs, rest, all), second, e) = >>=-eq-ok (open_each p.output_pipes left calls) _ h' in
    let one = open_each-AreJoined n p.input_pipes sockets [] first refl in
    let two = open_each-AreJoined n p.output_pipes left calls second one.closes_none in
    let whole : record p { input_pipes = ins; output_pipes = outs } ≡ res = cc in
    let same_all : all ≡ all' = cc in
    rw (sym whole, sym same_all)
      (record {
        held_none = omega (arith, one.held_none, two.held_none);
        held_pairs =
            rw (one.as_many, two.as_many)
              (omega (
                arith,
                one.held_pairs,
                two.held_pairs,
                count-paired-add n (length p.input_pipes) (length p.output_pipes) sockets,
                ap (λ (s : Sockets). count n (paired (length p.output_pipes) s)) one.rest,
              ));
        closes_none = two.closes_none;
      })

length-each_pipe :
    (f : Pipe → Pipe × List Call) (ps : List Pipe) → length (each_pipe f ps).0 ≡ length ps
unfolding each_pipe
length-each_pipe f [] = refl
length-each_pipe f (p ∷ ps) = ap suc (length-each_pipe f ps)

pub close_childside-GivesUp :
    (n : ℕ) (p : ExtProcess)
    → let (q, calls) = close_childside p in
      (holds n p ≡ count n (closed_by calls) + holds n q) × (pipe_count q ≡ pipe_count p)
unfolding close_childside
close_childside-GivesUp n p = omega (
  arith,
  count_closed-append n (each_pipe close_external p.output_pipes).1
      (each_pipe close_external p.input_pipes).1,
  each_pipe-GivesUp n close_external p.output_pipes (close_external-GivesUp n),
  each_pipe-GivesUp n close_external p.input_pipes (close_external-GivesUp n),
  length-each_pipe close_external p.output_pipes,
  length-each_pipe close_external p.input_pipes,
)

-- A signal closes nothing.
closed_by-signal :
    (none_there alive : Bool) (pid : ℕ) (s : Signal)
    → closed_by (if none_there then [] else probe_and_kill pid alive s) ≡ []
unfolding probe_and_kill
closed_by-signal none_there alive pid s = ground arith

pub terminate-GivesUp :
    (n : ℕ) (p : ExtProcess) (exit_code : ℕ) (alive : Bool)
    → let (q, calls) = terminate p exit_code alive in
      holds n p ≡ count n (closed_by calls) + holds n q
unfolding terminate
terminate-GivesUp n p exit_code alive =
    let killing = if p.pid == 0 then [] else probe_and_kill p.pid alive sigterm in
    let ins = (each_pipe close_pipe p.input_pipes).1 in
    let outs = (each_pipe close_pipe p.output_pipes).1 in
    omega (
      arith,
      count_closed-append n ins (outs ++ killing),
      count_closed-append n outs killing,
      ap (count n) (closed_by-signal (p.pid == 0) alive p.pid sigterm),
      each_pipe-GivesUp n close_pipe p.output_pipes (close_pipe-GivesUp n),
      each_pipe-GivesUp n close_pipe p.input_pipes (close_pipe-GivesUp n),
    )

-- The destructor closes all that is held.
destroy_none : (n : ℕ) (ps : List Pipe) → count n (all_held (each_pipe destroy ps).0) ≡ 0
unfolding each_pipe destroy close_pipe close_external
destroy_none n [] = refl
destroy_none n (p ∷ ps) = ground (arith, destroy_none n ps)

pub destroy_process-GivesUp :
    (n : ℕ) (p : ExtProcess) → holds n p ≡ count n (closed_by (destroy_process p))
unfolding destroy_process
destroy_process-GivesUp n p = omega (
  arith,
  count_closed-append n (each_pipe destroy p.input_pipes).1 (each_pipe destroy p.output_pipes).1,
  each_pipe-GivesUp n destroy p.output_pipes (destroy-GivesUp n),
  each_pipe-GivesUp n destroy p.input_pipes (destroy-GivesUp n),
  destroy_none n p.input_pipes,
  destroy_none n p.output_pipes,
)
