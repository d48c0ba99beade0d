-- ===== src/Prompt/Modes/Tests.antt =====
-- The theorem on the terminal's modes in src/prompt.cc, at a concrete input.
use modglue.Common.{◌≡◌, true, false}
use modglue.System.Terminal.{Termios}
use modglue.Prompt.Modes.{
  Attributes, raw_terminal, sigstp_handler, buffered_terminal, sigcont_handler,
}
use modglue.Prompt.Modes.Restored.{suspends, takes, returns, ends, here, next, Reach-restored}

abbrev cooked : Termios
cooked = record {
  iflag = 2;
  opost = true;
  isig = true;
  icanon = true;
  echo = true;
  csize = 8;
  parenb = false;
  vmin = 1;
  vtime = 0;
}

abbrev before : Attributes
before = record { terminal = cooked; saved_attributes = cooked; raw_attributes = cooked }

abbrev suspended : Attributes
suspended = (sigstp_handler 42 (raw_terminal before)).0

-- Suspended, with modes of another program in between, continued, and ended.
Reach-restored_example :
    (buffered_terminal
      (sigcont_handler (record suspended { terminal = record cooked { echo = false } })).0).terminal
    ≡ cooked
Reach-restored_example = Reach-restored before (
    next
      (next
        (next (next here (suspends 42 (raw_terminal before)))
          (takes (record cooked { echo = false }) suspended))
        (returns (record suspended { terminal = record cooked { echo = false } })))
      (ends (sigcont_handler (record suspended { terminal = record cooked { echo = false } })).0))
