-- ===== src/System.antt =====
-- The system calls that the library makes, as a log of what was asked of the kernel, and the
-- answers of the kernel that the code branches on. Neither is code of the repository: the answers
-- are arguments of the definitions that wait for them.
pub mod Table
pub mod Terminal
use modglue.Common.{ℕ, Bytes, Option, List}

-- A file descriptor; `none` stands for -1.
abbrev pub Fd : Type 0
Fd = Option ℕ

pub data Signal : Type 0 where
  sigterm sigstop sigcont sigint : Signal

pub data Call : Type 0 where
  -- `close(fd)`
  closes : ℕ → Call
  -- `fcntl(fd, F_SETFL, O_NONBLOCK)`
  nonblock : Fd → Call
  -- `dup2(from, to)`
  dups : Fd → ℕ → Call
  -- `kill(pid, signal)`
  kills : ℕ → Signal → Call
  -- `execvp(file, argv)`
  execs : Bytes → List Bytes → Call
  -- `waitpid(pid, 0, 0)`
  waits : ℕ → Call
  -- `tcsetattr(fd, TCSANOW, ...)`
  sets_modes : Fd → Call
  -- `write(fd, text)`
  writes : Fd → Bytes → Call

-- What `write` answers: that it took some of the bytes (at most the number that it was offered),
-- EAGAIN, or another error.
pub data WriteAnswer : Type 0 where
  took : ℕ → WriteAnswer
  again : WriteAnswer
  broke : WriteAnswer

-- What `read` answers: bytes (none at the end of the file), EINTR, or another error.
pub data ReadAnswer : Type 0 where
  got : Bytes → ReadAnswer
  interrupted : ReadAnswer
  failed : ReadAnswer
