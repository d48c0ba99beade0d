-- ===== src/Prompt/Modes.antt =====
-- The modes of the terminal in src/prompt.cc, and its signal handlers.
pub mod Restored
pub mod Tests
use modglue.Common.{ℕ, false, List, [], ◌∷◌, some}
use modglue.System.{Call, nonblock, kills, sigint, sigstop}
use modglue.System.Terminal.{Termios}

-- The terminal's modes, and the two globals.
pub record Attributes : Type 0 where
  pub terminal : Termios
  pub saved_attributes : Termios
  pub raw_attributes : Termios

-- `raw_terminal`; the modes are read twice.
unfoldable pub raw_terminal : Attributes → Attributes
raw_terminal a =
    let raw = record a.terminal { icanon = false; echo = false } in
    record { terminal = raw; saved_attributes = a.terminal; raw_attributes = raw }

unfoldable pub buffered_terminal : Attributes → Attributes
buffered_terminal a = record a { terminal = a.saved_attributes }

-- `sigstp_handler`: the modes, and the signal to the program itself.
unfoldable pub sigstp_handler : ℕ → Attributes → Attributes × List Call
sigstp_handler pid a = (record a { terminal = a.saved_attributes }, kills pid sigstop ∷ [])

-- The part of `sigcont_handler` that is about the terminal; the other part is `on_continue`.
unfoldable pub sigcont_handler : Attributes → Attributes × List Call
sigcont_handler a = (record a { terminal = a.raw_attributes }, nonblock (some 0) ∷ [])

-- `sigc_handler`.
unfoldable pub sigc_handler : ℕ → List Call
sigc_handler thepid = kills thepid sigint ∷ []
