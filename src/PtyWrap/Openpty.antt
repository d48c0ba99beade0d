-- ===== src/PtyWrap/Openpty.antt =====
-- `openpty` of src/ptywrap.cc, which stands in for that of the system on Solaris.
use modglue.Common.{
  ℕ, ◌≡◌, ◌⊎◌, Bool, true, false, ◌&&◌, List, [], ◌∷◌, ◌++◌, none, some, arith, if◌then◌else◌,
}
use modglue.System.{Fd, Call}
use modglue.Pipe.Ledger.{fds, count, closed_by}
use modglue.ExtProcess.Fork.{close_fd}

-- What the system answers: the descriptor of /dev/ptmx, if it can be opened; whether `grantpt`,
-- `unlockpt` and `ptsname` succeed; the slave's descriptor; and whether `ioctl` pushes its module.
pub record PtyAnswers : Type 0 where
  pub master : Fd
  pub granted : Bool
  pub unlocked : Bool
  pub named : Bool
  pub slave : Fd
  pub pushed : Bool

-- Whether the return value is 0, the two descriptors behind the pointers, those that `open` gave, and
-- the calls of `close`. The pointers `name`, `termp` and `winp` are null, as they are for `main`.
pub record PtyResult : Type 0 where
  pub succeeded : Bool
  pub amaster : Fd
  pub aslave : Fd
  pub opened : List ℕ
  pub calls : List Call

-- The label `err`; `close(-1)` does nothing.
abbrev pub pty_error : Fd → Fd → PtyResult
pty_error mfd sfd = record {
  succeeded = false;
  amaster = none;
  aslave = none;
  opened = fds mfd ++ fds sfd;
  calls = close_fd sfd ++ close_fd mfd;
}

-- From `open` of the slave on.
unfoldable pub open_slave : PtyAnswers → ℕ → PtyResult
open_slave a mfd = elim a.slave [
  | none ↦ pty_error (some mfd) none
  | some sfd ↦
      if a.pushed
      then record {
        succeeded = true;
        amaster = some mfd;
        aslave = some sfd;
        opened = mfd ∷ sfd ∷ [];
        calls = [];
      }
      else pty_error (some mfd) (some sfd)
]

unfoldable pub openpty : PtyAnswers → PtyResult
unfolding open_slave
openpty a = elim a.master [
  | none ↦ pty_error none none
  | some mfd ↦
      if a.granted && a.unlocked && a.named then open_slave a mfd else pty_error (some mfd) none
]

-- Wherever `openpty` fails, it returns -1, both of its results are -1, and each descriptor that it
-- opened until then is closed, once; where it succeeds, it closes none, and the descriptors that it
-- opened are its results.
pub openpty-opened :
    (a : PtyAnswers) (n : ℕ)
    → let r = openpty a in
      ((r.succeeded ≡ false)
        × (r.amaster ≡ none)
        × (r.aslave ≡ none)
        × (count n (closed_by r.calls) ≡ count n r.opened))
      ⊎ ((r.succeeded ≡ true) × (r.calls ≡ []) × (fds r.amaster ++ fds r.aslave ≡ r.opened))
unfolding openpty
openpty-opened a n = ground arith
