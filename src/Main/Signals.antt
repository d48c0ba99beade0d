-- ===== src/Main/Signals.antt =====
-- `setup_signal_handlers_` and `restore_signal_handlers_` of src/main.cc, the constructor and the
-- destructor that call them, and `run`.
use modglue.Common.{
  ℕ, ◌≡◌, Bool, not, List, [], ◌∷◌, Option, none, some, codes, Result, ok, throw, if◌then◌else◌,
  arith,
}
use modglue.System.{Call, closes, nonblock}
use modglue.Main.{Main, check}
use modglue.Main.Loop.{Handlers, Selected, LoopEnd, select_loop}

-- What happens at a signal: one of the two handlers runs, or the signal is ignored, or what was set
-- before.
pub data Action : Type 0 where
  runs_sig_chld runs_sig_term ignored : Action
  other : ℕ → Action

-- The actions of the program.
pub record Actions : Type 0 where
  pub on_chld : Action
  pub on_term : Action
  pub on_pipe : Action

-- `sig_chld_pipe_`, `old_sigaction_chld_` and `old_sigaction_term_`.
pub record Installed : Type 0 where
  pub reading : ℕ
  pub writing : ℕ
  pub old_chld : Action
  pub old_term : Action

-- `setup_signal_handlers_`, on the answer of `pipe`, and whether the two calls of `sigaction`
-- succeed.
unfoldable pub setup_signal_handlers :
    Option (ℕ × ℕ) → Bool → Bool → Actions → Result (Installed × Actions × List Call)
setup_signal_handlers none chld_ok term_ok a = throw (codes "cannot create sig_chld_pipe")
setup_signal_handlers (some (reading, writing)) chld_ok term_ok a =
    if not chld_ok
    then throw (codes "sigaction failed")
    else if not term_ok
    then throw (codes "sigaction failed")
    else ok (
      record { reading = reading; writing = writing; old_chld = a.on_chld; old_term = a.on_term },
      record { on_chld = runs_sig_chld; on_term = runs_sig_term; on_pipe = ignored },
      nonblock (some reading) ∷ [],
    )

-- `restore_signal_handlers_`, which is the destructor.
unfoldable pub restore_signal_handlers : Installed → Actions → Actions × List Call
restore_signal_handlers i a = (
  record a { on_chld = i.old_chld; on_term = i.old_term },
  closes i.reading ∷ closes i.writing ∷ [],
)

-- `run`.
unfoldable pub run : Handlers → List Selected → Main → Option LoopEnd
run h answers m = if (check m).0 then some (select_loop h answers m []) else none

-- The destructor undoes what the constructor did: the signals for a child and for termination have
-- their actions back, and both ends of the pipe are closed. The signal for a broken pipe stays
-- ignored.
pub restore-setup_signal_handlers :
    (answer : Option (ℕ × ℕ)) (chld_ok term_ok : Bool) (a : Actions) {i : Installed} {a' : Actions}
    {calls : List Call}
    → setup_signal_handlers answer chld_ok term_ok a ≡ ok (i, a', calls)
    → let (a'', closing) = restore_signal_handlers i a' in
      (a'' ≡ record a { on_pipe = ignored })
      × (answer ≡ some (i.reading, i.writing))
      × (closing ≡ closes i.reading ∷ closes i.writing ∷ [])
unfolding setup_signal_handlers restore_signal_handlers
restore-setup_signal_handlers answer chld_ok term_ok a h = ground arith
