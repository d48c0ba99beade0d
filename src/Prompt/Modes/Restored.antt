-- ===== src/Prompt/Modes/Restored.antt =====
-- The modes of the terminal over a session of src/prompt.cc: the program is suspended and continued
-- by signals, and in the meantime the shell may set other modes.
use modglue.Common.{ℕ, ◌≡◌, refl, false}
use modglue.System.Terminal.{Termios}
use modglue.Prompt.Modes.{
  Attributes, raw_terminal, buffered_terminal, sigstp_handler, sigcont_handler,
}

-- The program runs, has just been stopped, is stopped while another program has the terminal, or has
-- ended.
pub data Phase : Type 0 where
  running stopped given_away ended : Phase

pub record State : Type 0 where
  pub phase : Phase
  pub attributes : Attributes

pub data Step : State → State → Type 0 where
  -- SIGTSTP
  suspends :
      (pid : ℕ) (a : Attributes)
      → Step
          (record { phase = running; attributes = a })
          (record { phase = stopped; attributes = (sigstp_handler pid a).0 })
  -- The shell
  takes :
      (modes : Termios) (a : Attributes)
      → Step
          (record { phase = stopped; attributes = a })
          (record { phase = given_away; attributes = record a { terminal = modes } })
  -- SIGCONT, after a stop and without one
  resumes :
      (a : Attributes)
      → Step
          (record { phase = stopped; attributes = a })
          (record { phase = running; attributes = (sigcont_handler a).0 })
  returns :
      (a : Attributes)
      → Step
          (record { phase = given_away; attributes = a })
          (record { phase = running; attributes = (sigcont_handler a).0 })
  continues :
      (a : Attributes)
      → Step
          (record { phase = running; attributes = a })
          (record { phase = running; attributes = (sigcont_handler a).0 })
  -- The last lines of `main`, or `exit`, which calls what `atexit` was given.
  ends :
      (a : Attributes)
      → Step
          (record { phase = running; attributes = a })
          (record { phase = ended; attributes = buffered_terminal a })

pub data Reach (s : State) : State → Type 0 where
  here : Reach s s
  next : {t u : State} → Reach s t → Step t u → Reach s u

-- The modes in each phase: without line editing and echo where the program runs, and those from
-- before it where it has just been stopped or has ended.
abbrev pub ModesAre : Termios → Phase → Termios → Type 0
ModesAre before running modes = modes ≡ record before { icanon = false; echo = false }
ModesAre before stopped modes = modes ≡ before
ModesAre before given_away modes = Unit {0}
ModesAre before ended modes = modes ≡ before

pub record IsKept (before : Termios) (s : State) : Type 0 where
  pub saved : s.attributes.saved_attributes ≡ before
  pub raw : s.attributes.raw_attributes ≡ record before { icanon = false; echo = false }
  pub now : ModesAre before s.phase s.attributes.terminal

Step-IsKept : (before : Termios) {s t : State} → Step s t → IsKept before s → IsKept before t
unfolding sigstp_handler sigcont_handler buffered_terminal
Step-IsKept before (suspends pid a) k = record { saved = k.saved; raw = k.raw; now = k.saved }
Step-IsKept before (takes modes a) k = record { saved = k.saved; raw = k.raw; now = tt }
Step-IsKept before (resumes a) k = record { saved = k.saved; raw = k.raw; now = k.raw }
Step-IsKept before (returns a) k = record { saved = k.saved; raw = k.raw; now = k.raw }
Step-IsKept before (continues a) k = record { saved = k.saved; raw = k.raw; now = k.raw }
Step-IsKept before (ends a) k = record { saved = k.saved; raw = k.raw; now = k.saved }

Reach-IsKept : (before : Termios) {s t : State} → Reach s t → IsKept before s → IsKept before t
Reach-IsKept before here k = k
Reach-IsKept before (next r step) k = Step-IsKept before step (Reach-IsKept before r k)

-- From `raw_terminal` on, however often the program is stopped by SIGTSTP, through its handler, and
-- continued, and whatever modes the shell sets in the meantime, up to its end by `exit` or by the end
-- of `main`: wherever the program runs, the terminal has the modes from before it without line editing
-- and echo; and wherever it has just been stopped or has ended in these ways, the terminal has just
-- the modes from before it. Other signals, which have no handler, are not among the steps.
pub Reach-restored :
    (a : Attributes) {s : State}
    → Reach (record { phase = running; attributes = raw_terminal a }) s
    → ModesAre a.terminal s.phase s.attributes.terminal
unfolding raw_terminal
Reach-restored a r =
    (Reach-IsKept a.terminal r (record { saved = refl; raw = refl; now = refl })).now
