-- ===== src/Main/Notice.antt =====
-- The messages of the signal handlers `sig_chld_` and `sig_term_` to the event loop, through
-- `sig_chld_pipe_`, and how `select_callback` reads them.
use modglue.Common.{
  ℕ, ◌≡◌, refl, sym, ap, ◌∙◌, true, [], ◌∷◌, ◌++◌, Bytes, codes, if◌then◌else◌, arith, append-nil,
  Result, ok, throw,
}
use modglue.Decimal.{print_dec, read_dec, read_dec-print_dec, starts_number, starts-print_dec}
use modglue.ExtProcess.Setup.{skip_space}

-- What `waitpid` tells of a child.
pub data ChildEnd : Type 0 where
  -- its process id and its exit code
  exited : ℕ → ℕ → ChildEnd
  -- its process id
  signalled : ℕ → ChildEnd

-- What `sig_chld_` writes: `"%ld %d"` or `"%ld"`.
unfoldable pub notice : ChildEnd → Bytes
notice (exited pid exit_code) = print_dec pid ++ (32 ∷ print_dec exit_code)
notice (signalled pid) = print_dec pid

-- `sscanf(buffer, "%ld %d", &childpid, &exit_code)`, where both are 0 before, for numbers that fit
-- the variables: process ids below 2 ^ 31, and exit codes, which are bytes. What C leaves undefined,
-- a number of more digits, and a `long` that is stored into the four bytes of a `pid_t`, is left out.
unfoldable pub read_notice : Bytes → ℕ × ℕ
read_notice text =
    if starts_number text
    then (let (pid, rest) = read_dec 0 text in
        let behind = skip_space rest in
        (pid, if starts_number behind then (read_dec 0 behind).0 else 0))
    else (0, 0)

-- What `waitpid(-1, &status, WNOHANG)` answers in `sig_chld_`. The answer 0, where no child has
-- ended, leaves `status` without a value and is not modelled.
pub data WaitAnswer : Type 0 where
  echild : WaitAnswer
  wait_error : ℕ → WaitAnswer
  ended : ChildEnd → WaitAnswer

-- `sig_chld_`: what it writes to the pipe, or the exception.
unfoldable pub sig_chld : WaitAnswer → Result Bytes
unfolding notice
sig_chld echild = ok []
sig_chld (wait_error errno) = throw (codes "waitpid failed, errno = " ++ print_dec errno)
sig_chld (ended e) = ok (notice e)

-- `sig_term_`.
abbrev pub sig_term : Bytes
sig_term = codes "T"

skip_space-number : (text : Bytes) → starts_number text ≡ true → skip_space text ≡ text
unfolding skip_space
skip_space-number [] h = refl
skip_space-number (c ∷ text) h = ground arith

print_dec-nil : (n : ℕ) → starts_number (print_dec n) ≡ true
print_dec-nil n = rw (sym (append-nil (print_dec n))) (starts-print_dec n [])

-- The part of a message behind the process id and a space.
skip_space-print_dec :
    (n : ℕ) (rest : Bytes) → skip_space (32 ∷ (print_dec n ++ rest)) ≡ print_dec n ++ rest
skip_space-print_dec n rest =
    unfold skip_space in skip_space-number (print_dec n ++ rest) (starts-print_dec n rest)

read_dec-space : (n : ℕ) (rest : Bytes) → read_dec n (32 ∷ rest) ≡ (n, 32 ∷ rest)
unfolding read_dec
read_dec-space n rest = refl

-- What is read of a message with an exit code, and any bytes behind it.
read_notice-behind :
    (pid exit_code : ℕ) (rest : Bytes)
    → read_notice (print_dec pid ++ (32 ∷ (print_dec exit_code ++ rest)))
      ≡ (pid, (read_dec exit_code rest).0)
unfolding read_notice
read_notice-behind pid exit_code rest = rw (
  starts-print_dec pid (32 ∷ (print_dec exit_code ++ rest)),
  read_dec-print_dec pid (32 ∷ (print_dec exit_code ++ rest)),
  read_dec-space pid (print_dec exit_code ++ rest),
  skip_space-print_dec exit_code rest,
  starts-print_dec exit_code rest,
  read_dec-print_dec exit_code rest,
)

read_dec-nil : (n : ℕ) → read_dec n [] ≡ (n, [])
unfolding read_dec
read_dec-nil n = refl

read_notice-alone : (pid : ℕ) → read_notice (print_dec pid ++ []) ≡ (pid, 0)
unfolding read_notice skip_space
read_notice-alone pid = rw (starts-print_dec pid [], read_dec-print_dec pid [], read_dec-nil pid)

-- A message of `sig_chld_` is read back as what `waitpid` told: the process id with the exit code,
-- and with 0 for a child that was ended by a signal.
pub read_notice-notice :
    (pid exit_code : ℕ)
    → (read_notice (notice (exited pid exit_code)) ≡ (pid, exit_code))
      × (read_notice (notice (signalled pid)) ≡ (pid, 0))
unfolding notice
read_notice-notice pid exit_code = (
  ap (λ (t : Bytes). read_notice (print_dec pid ++ (32 ∷ t)))
        (sym (append-nil (print_dec exit_code)))
      ∙ read_notice-behind pid exit_code []
      ∙ ap (λ (r : ℕ × Bytes). (pid, r.0)) (read_dec-nil exit_code),
  ap read_notice (sym (append-nil (print_dec pid))) ∙ read_notice-alone pid,
)

-- The process that ended, and the exit code that the message tells, which is 0 for a signal.
abbrev pub pid_of : ChildEnd → ℕ
pid_of (exited pid exit_code) = pid
pid_of (signalled pid) = pid

abbrev pub exit_of : ChildEnd → ℕ
exit_of (exited pid exit_code) = exit_code
exit_of (signalled pid) = 0

pub read_notice-ended : (e : ChildEnd) → read_notice (notice e) ≡ (pid_of e, exit_of e)
read_notice-ended (exited pid exit_code) = (read_notice-notice pid exit_code).0
read_notice-ended (signalled pid) = (read_notice-notice pid 0).1

pub starts-notice : (e : ChildEnd) → starts_number (notice e) ≡ true
unfolding notice
starts-notice (exited pid exit_code) = starts-print_dec pid (32 ∷ print_dec exit_code)
starts-notice (signalled pid) = print_dec-nil pid
