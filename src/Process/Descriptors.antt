-- ===== src/Process/Descriptors.antt =====
-- The descriptors that `child_process` opens and closes.
use modglue.Common.{
  ℕ, ◌+◌, ◌≡◌, List, [], ◌∷◌, ◌==◌, if◌then◌else◌, arith, length, ok, >>=-eq-ok, Bool-cases,
  ==-true, inl, inr,
}
use modglue.Pipe.Ledger.{count, closed_by}
use modglue.Process.{
  ChildProcess, FdPair, parent_side, close_pairs, close_child, fork, forked, Forked, ForkAnswer,
  no_fork, child, standard_pipes,
}

-- The descriptors of pairs.
abbrev pub both : List (ℕ × ℕ) → List ℕ
both [] = []
both ((a, b) ∷ fds) = a ∷ b ∷ both fds

ledger :
    (n : ℕ) (ps : List FdPair) (fds : List (ℕ × ℕ))
    → length fds ≡ length ps
    → let (ps', calls) = parent_side ps fds in
      count n (closed_by calls) + count n (closed_by (close_pairs ps').1) ≡ count n (both fds)
unfolding parent_side close_pairs
ledger n [] [] e = omega arith
ledger n [] (x ∷ fds) e = absurd (omega arith)
ledger n (p ∷ ps) [] e = absurd (omega arith)
ledger n (p ∷ ps) ((a, b) ∷ fds) e = ground (arith, ledger n ps fds)

forked-close_child :
    (fds : List (ℕ × ℕ)) (answer : ForkAnswer) (p : ChildProcess) (n : ℕ) {f : Forked}
    → length fds ≡ length p.pipes
    → forked fds answer p ≡ ok f
    → count n (closed_by f.in_parent) + count n (closed_by (close_child f.parent).1)
      ≡ count n (both fds)
unfolding forked close_child
forked-close_child fds no_fork p n same h = cc
forked-close_child fds (child pid) p n same h = ground (arith, ledger n p.pipes fds)

-- After `fork`, the parent's calls there and those of `close` together close every descriptor that
-- `pipe` gave, as often as it gave it: once each.
pub fork-close_child :
    (fds : List (ℕ × ℕ)) (answer : ForkAnswer) (p : ChildProcess) (n : ℕ) {f : Forked}
    → fork fds answer p ≡ ok f
    → count n (closed_by f.in_parent) + count n (closed_by (close_child f.parent).1)
      ≡ count n (both fds)
unfolding fork close_child forked
fork-close_child fds answer p n h =
    let (ready, e, h') = >>=-eq-ok (if length p.pipes == 0 then standard_pipes p else ok p) _ h in
    elim (Bool-cases (length fds == length ready.pipes)) [
      | inl same ↦
          forked-close_child fds answer ready n (==-true (length fds) (length ready.pipes) same)
            (rw same at h')
      | inr other ↦ cc (rw other at h')
    ]
