-- ===== src/Main/Loop/Round.antt =====
-- One round of `select_loop_`: the callbacks for all descriptors that can be read.
use modglue.Common.{
  ℕ, ◌≡◌, ◌≢◌, refl, inl, inr, Bool, true, false, ◌||◌, List, [], ◌∷◌, Option, none, some, Bytes,
  ◌==◌, arith, Bool-cases, ==-true, Option-cases,
}
use modglue.Decimal.{starts_number}
use modglue.System.{Call}
use modglue.ExtProcess.{ExtProcess, terminate}
use modglue.Main.{Main}
use modglue.Main.Notice.{read_notice}
use modglue.Main.Loop.{
  Handlers, bury, bury_first, receive_from, receive_from_process, select_callback, returned,
  Handled,
}
use modglue.Main.Loop.Death.{on_notice-number}

-- Whether an object has the process id.
abbrev pub has_pid : ℕ → List ExtProcess → Bool
has_pid pid [] = false
has_pid pid (p ∷ ps) = p.pid == pid || has_pid pid ps

-- What the callback for a descriptor leaves of an object.
pub record Follows (fd pid : ℕ) (m m' : Main) : Type 0 where
  pub same_pipe : m'.sig_chld_pipe ≡ m.sig_chld_pipe
  pub still : m.terminate_main_loop ≡ true → m'.terminate_main_loop ≡ true
  pub others : fd ≢ m.sig_chld_pipe → has_pid pid m'.processes ≡ has_pid pid m.processes

abbrev or_same : List ExtProcess → Option (List ExtProcess) → List ExtProcess
or_same ps none = ps
or_same ps (some ps') = ps'

receive_from_process-has_pid :
    (h : Handlers) (fd pid : ℕ) (ps : List ExtProcess)
    → has_pid pid (or_same ps (receive_from_process h fd ps)) ≡ has_pid pid ps
unfolding receive_from_process
receive_from_process-has_pid h fd pid [] = refl
receive_from_process-has_pid h fd pid (p ∷ ps) =
    ground (arith, receive_from_process-has_pid h fd pid ps)

-- A handler that wants to leave the loop for this exit code.
abbrev pub Leaves : Handlers → ℕ → Type 0
Leaves h exit_code = (q : ExtProcess) → q.exit_code ≡ exit_code → h.process_died q ≡ true

bury-Leaves :
    (h : Handlers) (exit_code : ℕ) (p : ExtProcess)
    → Leaves h exit_code
    → (bury h exit_code p).2 ≡ true
unfolding bury terminate
bury-Leaves h exit_code p died = died _ refl

pub bury_first_leave :
    (h : Handlers) (pid exit_code : ℕ) (ps : List ExtProcess)
    → Leaves h exit_code
    → has_pid pid ps ≡ true
    → (bury_first h pid exit_code ps).2 ≡ true
unfolding bury_first
bury_first_leave h pid exit_code [] died e = cc
bury_first_leave h pid exit_code (p ∷ ps) died e =
    ground (arith, bury_first_leave h pid exit_code ps died, bury-Leaves h exit_code p died)

-- Each callback returns where the message is that of a child that ended.
abbrev pub Returns : ℕ → ℕ → Main → Handled → Type 0
Returns fd pid m handled =
    (m' : Main) × (calls : List Call) × (stay : Bool) × (handled ≡ returned m' calls stay)
    × Follows fd pid m m'

pub or-still_right : (a b : Bool) → b ≡ true → (a || b) ≡ true
or-still_right a b h = ground arith

or-still : (a b : Bool) → a ≡ true → (a || b) ≡ true
or-still a b h = ground arith

pub callback_elsewhere :
    (h : Handlers) (message : Bytes) (fd pid : ℕ) (m : Main)
    → (fd == m.sig_chld_pipe) ≡ false
    → Returns fd pid m (select_callback h message fd m)
unfolding select_callback
callback_elsewhere h message fd pid m other = elim (Option-cases (receive_from h fd m.ipipes)) [
  | inr ((ps, stay), found) ↦ (
    record m { ipipes = ps },
    [],
    stay,
    rw (other, found, select_callback) refl,
    record { same_pipe = refl; still = λ e. e; others = λ e. refl },
  )
  | inl no_own ↦ elim (Option-cases (receive_from_process h fd m.processes)) [
    | inr (ps, found) ↦ (
      record m { processes = ps },
      [],
      true,
      rw (other, no_own, found, select_callback) refl,
      record {
        same_pipe = refl;
        still = λ e. e;
        others = λ e. rw found at (receive_from_process-has_pid h fd pid m.processes);
      },
    )
    | inl unknown ↦ (
      m,
      [],
      false,
      rw (other, no_own, unknown, select_callback) refl,
      record { same_pipe = refl; still = λ e. e; others = λ e. refl },
    )
  ]
]

pub callback-Returns :
    (h : Handlers) (message : Bytes) (fd pid : ℕ) (m : Main)
    → starts_number message ≡ true
    → Returns fd pid m (select_callback h message fd m)
unfolding select_callback
callback-Returns h message fd pid m number = elim (Bool-cases (fd == m.sig_chld_pipe)) [
  | inr other ↦ callback_elsewhere h message fd pid m other
  | inl own ↦
      let r = read_notice message in
      let (ps, calls, leave) = bury_first h r.0 r.1 m.processes in
      (
        record m { processes = ps; terminate_main_loop = m.terminate_main_loop || leave },
        calls,
        true,
        rw (own, select_callback) (on_notice-number h message m number),
        record {
          same_pipe = refl;
          still = or-still m.terminate_main_loop leave;
          others = λ e. absurd (e (==-true fd m.sig_chld_pipe own));
        },
      )
]
