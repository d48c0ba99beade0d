-- ===== src/Pipe/Ledger.antt =====
-- The descriptors of a pipe over its lifetime: `open`, `close`, `close_external`, the destructor.
use modglue.Common.{
  ℕ, ◌+◌, ◌≡◌, refl, sym, ap, List, [], ◌∷◌, ◌++◌, Option, none, some, Bytes, arith, ◌==◌,
  if◌then◌else◌, Result, ok, throw,
}
use modglue.System.{Fd, Call, closes}
use modglue.Pipe.{
  Pipe, Direction, input, output, new_pipe, open_pipe, close_pipe, close_external, destroy,
  do_fcntl,
}

pub data PipeOp : Type 0 where
  opens : Fd → Fd → Option (ℕ × ℕ) → PipeOp
  closes_ours : PipeOp
  closes_theirs : PipeOp

abbrev pub fds : Fd → List ℕ
fds none = []
fds (some n) = n ∷ []

-- The descriptors that a pipe holds.
abbrev pub held : Pipe → List ℕ
held p = fds p.fd ++ fds p.fd_external

abbrev pub closed_by : List Call → List ℕ
closed_by [] = []
closed_by (closes n ∷ calls) = n ∷ closed_by calls
closed_by (_ ∷ calls) = closed_by calls

abbrev pub count : ℕ → List ℕ → ℕ
count n [] = 0
count n (m ∷ ms) = (if m == n then 1 else 0) + count n ms

-- A pipe with the descriptors that it was given so far, and those that it closed.
pub record Tracked : Type 0 where
  pub pipe : Pipe
  pub given : List ℕ
  pub closed : List ℕ

-- What `open` is given: the descriptors that it was called with, or both of the socketpair that it
-- asks for where there are none.
abbrev pub given_by : Fd → Fd → Option (ℕ × ℕ) → List ℕ
given_by none none none = []
given_by none none (some (ours, theirs)) = ours ∷ theirs ∷ []
given_by fd fd_external sockets = fds fd ++ fds fd_external

-- An `open` that throws leaves the pipe as it was.
after_open : List ℕ → Tracked → Result (Pipe × List Call) → Tracked
after_open fresh_fds t (ok (p, calls)) = record {
  pipe = p;
  given = fresh_fds ++ t.given;
  closed = closed_by calls ++ t.closed;
}
after_open fresh_fds t (throw e) = t

after_close : Tracked → Pipe × List Call → Tracked
after_close t (p, calls) = record t { pipe = p; closed = closed_by calls ++ t.closed }

pub apply_op : PipeOp → Tracked → Tracked
unfolding after_open after_close
apply_op (opens fd fd_external sockets) t =
    after_open (given_by fd fd_external sockets) t (open_pipe fd fd_external sockets t.pipe)
apply_op closes_ours t = after_close t (close_pipe t.pipe)
apply_op closes_theirs t = after_close t (close_external t.pipe)

pub run_ops : List PipeOp → Tracked → Tracked
run_ops [] t = t
run_ops (op ∷ ops) t = run_ops ops (apply_op op t)

abbrev Balanced : ℕ → Tracked → Type 0
Balanced n t = count n t.given ≡ count n t.closed + count n (held t.pipe)

pub count-append : (n : ℕ) (xs ys : List ℕ) → count n (xs ++ ys) ≡ count n xs + count n ys
count-append n [] ys = omega arith
count-append n (x ∷ xs) ys = omega (arith, count-append n xs ys)

closed_by-do_fcntl : (d : Direction) (fd : Fd) → closed_by (do_fcntl d fd) ≡ []
unfolding do_fcntl
closed_by-do_fcntl output fd = refl
closed_by-do_fcntl input none = refl
closed_by-do_fcntl input (some n) = ground arith

-- What a successful `open` is.
pub record IsOpened (given : List ℕ) (p p' : Pipe) (calls : List Call) : Type 0 where
  pub held_none : held p ≡ []
  pub closes_none : closed_by calls ≡ []
  pub holds_all : held p' ≡ given

pub open_pipe-IsOpened :
    (fd fd_external : Fd) (sockets : Option (ℕ × ℕ)) (p : Pipe) {p' : Pipe} {calls : List Call}
    → open_pipe fd fd_external sockets p ≡ ok (p', calls)
    → IsOpened (given_by fd fd_external sockets) p p' calls
unfolding open_pipe
open_pipe-IsOpened fd fd_external sockets p h =
    ground (arith, closed_by-do_fcntl p.direction fd, closed_by-do_fcntl p.direction (some 0))

after_open-Balanced :
    (n : ℕ) (t : Tracked) (given : List ℕ) (r : Result (Pipe × List Call))
    → ((p' : Pipe) (calls : List Call) → r ≡ ok (p', calls) → IsOpened given t.pipe p' calls)
    → Balanced n t
    → Balanced n (after_open given t r)
unfolding after_open
after_open-Balanced n t given (throw e) opened b = b
after_open-Balanced n t given (ok (p', calls)) opened b =
    let is = opened p' calls refl in
    omega (
      arith,
      b,
      ap (count n) is.held_none,
      ap (count n) is.closes_none,
      ap (count n) is.holds_all,
      count-append n given t.given,
      count-append n (closed_by calls) t.closed,
    )

apply_op-Balanced : (n : ℕ) (op : PipeOp) (t : Tracked) → Balanced n t → Balanced n (apply_op op t)
unfolding apply_op close_pipe close_external after_close
apply_op-Balanced n (opens fd fd_external sockets) t b =
    after_open-Balanced n t (given_by fd fd_external sockets) _
      (λ p' calls. open_pipe-IsOpened fd fd_external sockets t.pipe {p' = p'} {calls = calls}) b
apply_op-Balanced n closes_ours t b = ground arith
apply_op-Balanced n closes_theirs t b = ground (
  arith,
  count-append n (fds t.pipe.fd) (fds t.pipe.fd_external),
  count-append n (fds t.pipe.fd) [],
)

run_ops-Balanced :
    (n : ℕ) (ops : List PipeOp) (t : Tracked) → Balanced n t → Balanced n (run_ops ops t)
unfolding run_ops
run_ops-Balanced n [] t b = b
run_ops-Balanced n (op ∷ ops) t b =
    run_ops-Balanced n ops (apply_op op t) (apply_op-Balanced n op t b)

abbrev pub fresh : Direction → Bytes → Tracked
fresh d name = record { pipe = new_pipe d name; given = []; closed = [] }

destroy-Balanced :
    (n : ℕ) (t : Tracked)
    → Balanced n t
    → count n t.given ≡ count n (closed_by (destroy t.pipe).1 ++ t.closed)
unfolding destroy
destroy-Balanced n t b = ground arith

-- Over the whole life of a pipe, from its constructor, through any calls of `open`, `close` and
-- `close_external` in any order (those that throw too), to its destructor, each descriptor is closed
-- as often as an `open` that returned was called with it or got it from `socketpair`: none leaks, and
-- none is closed twice.
pub destroy_balance :
    (d : Direction) (name : Bytes) (ops : List PipeOp) (n : ℕ)
    → let t = run_ops ops (fresh d name) in
      count n (closed_by (destroy t.pipe).1 ++ t.closed) ≡ count n t.given
unfolding new_pipe
destroy_balance d name ops n =
    sym (destroy-Balanced n _ (run_ops-Balanced n ops (fresh d name) refl))
