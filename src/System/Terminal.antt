-- ===== src/System/Terminal.antt =====
-- The modes of a terminal, `struct termios` of POSIX, as far as the programs change them. A flag that
-- they do not name is not among the fields.
use modglue.Common.{ℕ, Bool}

-- `iflag` is the number, of which 0 has no flag set; the others are flags by their names, and the
-- bits of a character.
pub record Termios : Type 0 where
  pub iflag : ℕ
  pub opost : Bool
  pub isig : Bool
  pub icanon : Bool
  pub echo : Bool
  pub csize : ℕ
  pub parenb : Bool
  pub vmin : ℕ
  pub vtime : ℕ
