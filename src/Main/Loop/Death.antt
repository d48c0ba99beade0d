-- ===== src/Main/Loop/Death.antt =====
-- The end of a child process, from the signal handler to the program's own records.
use modglue.Common.{
  ℕ, ◌≡◌, ◌≢◌, refl, sym, ap, ◌∙◌, Bool, true, ◌||◌, List, [], ◌∷◌, ◌++◌, Bytes, arith, ok,
}
use modglue.Decimal.{starts_number}
use modglue.System.{Call}
use modglue.ExtProcess.{ExtProcess, terminate}
use modglue.Main.{Main}
use modglue.Main.Notice.{
  ChildEnd, ended, sig_chld, notice, read_notice, pid_of, exit_of, read_notice-ended, starts-notice,
}
use modglue.Main.Loop.{Handlers, bury, bury_first, on_notice, select_callback, returned}

abbrev pub NoPid : ℕ → List ExtProcess → Type 0
NoPid pid [] = Unit {0}
NoPid pid (p ∷ ps) = (p.pid ≢ pid) × NoPid pid ps

bury_first-split :
    (h : Handlers) (exit_code : ℕ) (before after : List ExtProcess) (p : ExtProcess)
    → NoPid p.pid before
    → let (p', calls, leave) = bury h exit_code p in
      bury_first h p.pid exit_code (before ++ p ∷ after) ≡ (before ++ p' ∷ after, calls, leave)
unfolding bury_first
bury_first-split h exit_code [] after p f = ground arith
bury_first-split h exit_code (q ∷ before) after p f =
    ground (arith, bury_first-split h exit_code before after p f.1)

-- A message that begins with a digit is no order to stop.
pub on_notice-number :
    (h : Handlers) (text : Bytes) (m : Main)
    → starts_number text ≡ true
    → let (pid, exit_code) = read_notice text in
      let (ps, calls, leave) = bury_first h pid exit_code m.processes in
      on_notice h text m
      ≡ returned
          (record m { processes = ps; terminate_main_loop = m.terminate_main_loop || leave })
          calls
          true
unfolding on_notice
on_notice-number h [] m s = cc
on_notice-number h (c ∷ text) m s = ground arith

pub own_pipe :
    (h : Handlers) (text : Bytes) (m : Main)
    → select_callback h text m.sig_chld_pipe m ≡ on_notice h text m
unfolding select_callback
own_pipe h text m = ground arith

-- What `select_callback` makes of the message for one process.
on_ended :
    (h : Handlers) (m : Main) (e : ChildEnd)
    → let (ps, calls, leave) = bury_first h (pid_of e) (exit_of e) m.processes in
      select_callback h (notice e) m.sig_chld_pipe m
      ≡ returned
          (record m { processes = ps; terminate_main_loop = m.terminate_main_loop || leave })
          calls
          true
on_ended h m e =
    own_pipe h (notice e) m
    ∙ on_notice-number h (notice e) m (starts-notice e)
    ∙ ap
        (λ (r : ℕ × ℕ).
          let (ps, calls, leave) = bury_first h r.0 r.1 m.processes in
          returned
            (record m { processes = ps; terminate_main_loop = m.terminate_main_loop || leave })
            calls true)
        (read_notice-ended e)

-- When a process of the program ends, by itself or by a signal, and the signal handler's message is
-- read alone, `select_callback` puts that process, and no other, to rest: its exit code is the
-- child's, or 0 after a signal, it has no process id, and its turn to end the loop comes.
pub select_callback-sig_chld :
    (h : Handlers) (m : Main) (before after : List ExtProcess) (p : ExtProcess) (e : ChildEnd)
    {message : Bytes}
    → m.processes ≡ before ++ p ∷ after
    → p.pid ≡ pid_of e
    → NoPid p.pid before
    → sig_chld (ended e) ≡ ok message
    → (p' : ExtProcess) × (calls : List Call) × (select_callback h message m.sig_chld_pipe m
        ≡ returned
            (record m {
              processes = before ++ p' ∷ after;
              terminate_main_loop = m.terminate_main_loop || h.process_died p';
            })
            calls
            true)
      × (p'.pid ≡ 0)
      × (p'.exit_code ≡ exit_of e)
unfolding sig_chld bury
select_callback-sig_chld h m before after p e {message} split its first message_is =
    let buried = bury h (exit_of e) p in
    let text_is : notice e ≡ message = cc in
    (
      buried.0,
      buried.1,
      ap (λ (text : Bytes). select_callback h text m.sig_chld_pipe m) (sym text_is)
          ∙ on_ended h m e
          ∙ ap
              (λ (r : List ExtProcess × List Call × Bool).
                returned
                  (record m { processes = r.0; terminate_main_loop = m.terminate_main_loop || r.2 })
                  r.1 true)
              (ap (λ (pid : ℕ). bury_first h pid (exit_of e) m.processes) (sym its)
                ∙ ap (bury_first h p.pid (exit_of e)) split
                ∙ bury_first-split h (exit_of e) before after p first),
      unfold terminate in refl,
      unfold terminate in refl,
    )
