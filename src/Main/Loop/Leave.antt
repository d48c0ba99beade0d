-- ===== src/Main/Loop/Leave.antt =====
-- How `select_loop_` ends on the message that a child has ended.
use modglue.Common.{
  ℕ, zero, suc, ◌+◌, ◌≤◌, ◌<◌, ◌≡◌, refl, ◌∙◌, inl, inr, Bool, true, false, ◌||◌, ◌≢◌, sym, ap, [],
  if◌then◌else◌, List, ◌∷◌, ◌++◌, Bytes, ◌==◌, arith, Bool-cases, ==-true, length,
}
use modglue.Decimal.{starts_number}
use modglue.System.{Call}
use modglue.Main.{Main}
use modglue.Main.Notice.{
  ChildEnd, notice, read_notice, pid_of, exit_of, read_notice-ended, starts-notice,
}
use modglue.Main.Loop.{
  Handlers, bury_first, select_callback, returned, Handled, serve, Selected, LoopEnd, ready, eintr,
  broken_select, finished, select_loop, fds_to_watch,
}
use modglue.Main.Loop.Death.{own_pipe, on_notice-number}
use modglue.Main.Loop.Watch.{fds_to_watch-pipe}
use modglue.Main.Loop.Round.{
  has_pid, Leaves, bury_first_leave, callback_elsewhere, callback-Returns, or-still_right,
}

-- A round that returns, and does not take back the order to leave the loop.
abbrev Serves : Main → Handled → Type 0
Serves m handled =
    (m' : Main) × (calls : List Call) × (handled ≡ returned m' calls true)
    × (m.terminate_main_loop ≡ true → m'.terminate_main_loop ≡ true)

serve_returns :
    (h : Handlers) (is_set : ℕ → Bool) (message : Bytes) (fd n : ℕ) (m : Main) (calls : List Call)
    → starts_number message ≡ true
    → Serves m (serve h is_set message fd n m calls)
unfolding serve
serve_returns h is_set message fd zero m calls number = (m, calls, refl, λ e. e)
serve_returns h is_set message fd (suc n) m calls number = elim (Bool-cases (is_set fd)) [
  | inr unset ↦
      let (m', all, e, still) = serve_returns h is_set message (fd + 1) n m calls number in
      (m', all, rw (unset, serve) e, still)
  | inl set ↦
      let (m1, more, stay, first, follows) = callback-Returns h message fd 0 m number in
      let (m', all, e, still) =
        serve_returns h is_set message (fd + 1) n m1 (calls ++ more) number in
      (m', all, rw (set, first, serve) e, λ t. still (follows.still t))
]

-- The callback for the signal handler's pipe, on the message for a process that there is.
notice-Leaves :
    (h : Handlers) (message : Bytes) (m : Main) (pid exit_code : ℕ)
    → starts_number message ≡ true
    → read_notice message ≡ (pid, exit_code)
    → has_pid pid m.processes ≡ true
    → Leaves h exit_code
    → (m' : Main) × (calls : List Call) × (select_callback h message m.sig_chld_pipe m
        ≡ returned m' calls true)
      × (m'.terminate_main_loop ≡ true)
notice-Leaves h message m pid exit_code number read there leaves =
    let r = read_notice message in
    let (ps, calls, leave) = bury_first h r.0 r.1 m.processes in
    let left : leave ≡ true = rw read (bury_first_leave h pid exit_code m.processes leaves there) in
    (
      record m { processes = ps; terminate_main_loop = m.terminate_main_loop || leave },
      calls,
      own_pipe h message m ∙ on_notice-number h message m number,
      or-still_right m.terminate_main_loop leave left,
    )

module _ (h : Handlers) (is_set : ℕ → Bool) (message : Bytes) (pid exit_code : ℕ) where
  serve-Leaves :
      (fd n : ℕ) (m : Main) (calls : List Call)
      → starts_number message ≡ true
      → read_notice message ≡ (pid, exit_code)
      → Leaves h exit_code
      → is_set m.sig_chld_pipe ≡ true
      → fd ≤ m.sig_chld_pipe
      → m.sig_chld_pipe < fd + n
      → has_pid pid m.processes ≡ true
      → (m' : Main) × (all : List Call) × (serve h is_set message fd n m calls
          ≡ returned m' all true)
        × (m'.terminate_main_loop ≡ true)
  unfolding serve
  serve-Leaves fd zero m calls number read leaves set low high there = absurd (omega arith)
  serve-Leaves fd (suc n) m calls number read leaves set low high there =
      elim (Bool-cases (fd == m.sig_chld_pipe)) [
        | inl own ↦
            let (m1, more, first, left) =
              notice-Leaves h message m pid exit_code number read there leaves in
            let (m', all, e, still) =
              serve_returns h is_set message (fd + 1) n m1 (calls ++ more) number in
            let here = ==-true fd m.sig_chld_pipe own in
            let now : is_set fd ≡ true = rw here set in
            let called : select_callback h message fd m ≡ returned m1 more true = rw here first in
            (m', all, rw (now, called, serve) e, still left)
        | inr other ↦ elim (Bool-cases (is_set fd)) [
          | inr unset ↦
              let (m', all, e, left) =
                serve-Leaves (fd + 1) n m calls number read leaves set (ground arith) (omega arith)
                  there in
              (m', all, rw (unset, serve) e, left)
          | inl now ↦
              let (m1, more, stay, first, follows) = callback_elsewhere h message fd pid m other in
              let same = follows.same_pipe in
              let (m', all, e, left) =
                serve-Leaves (fd + 1) n m1 (calls ++ more) number read leaves (rw same set)
                  (rw same (ground arith)) (rw same (omega arith))
                  (rw (follows.others (ground arith)) there) in
              (m', all, rw (now, first, serve) e, left)
        ]
      ]

-- The round in which the message is ready.
round-Leaves :
    (h : Handlers) (is_set : ℕ → Bool) (answers : List Selected) (m : Main) (calls : List Call)
    (e : ChildEnd)
    → is_set m.sig_chld_pipe ≡ true
    → has_pid (pid_of e) m.processes ≡ true
    → Leaves h (exit_of e)
    → (m' : Main) × (all : List Call) × (select_loop h (ready is_set (notice e) ∷ answers) m calls
        ≡ finished m' all)
unfolding select_loop
round-Leaves h is_set answers m calls e set there leaves =
    let (m', all, served, left) =
      serve-Leaves h is_set (notice e) (pid_of e) (exit_of e) 0 ((fds_to_watch m).1 + 1) m calls
        (starts-notice e) (read_notice-ended e) leaves set (omega arith)
        (omega (arith, fds_to_watch-pipe m)) there in
    elim (Bool-cases (length (fds_to_watch m).0 == 1)) [
      | inl alone ↦ (m, calls, rw (alone, select_loop) refl)
      | inr others ↦ (m', all, rw (others, served, select_loop) (rw left refl))
    ]

-- A loop that ends, at once or with what follows.
if-finished :
    (b : Bool) (m : Main) (calls : List Call) (rest : LoopEnd)
    → ((m' : Main) × (all : List Call) × (rest ≡ finished m' all))
    → (m' : Main) × (all : List Call) × ((if b then finished m calls else rest) ≡ finished m' all)
if-finished true m calls rest ends = (m, calls, refl)
if-finished false m calls rest ends = ends

elim-finished :
    (b : Bool) (m : Main) (calls : List Call) (rest : LoopEnd)
    → ((m' : Main) × (all : List Call) × (rest ≡ finished m' all))
    → (m' : Main) × (all : List Call) × (elim b [ true ↦ finished m calls | false ↦ rest ]
        ≡ finished m' all)
elim-finished true m calls rest ends = (m, calls, refl)
elim-finished false m calls rest ends = ends

-- A round in which the signal handler's pipe is not ready.
serve_elsewhere :
    (h : Handlers) (is_set : ℕ → Bool) (message : Bytes) (pid fd n : ℕ) (m : Main)
    (calls : List Call)
    → is_set m.sig_chld_pipe ≡ false
    → (m' : Main) × (all : List Call) × (serve h is_set message fd n m calls ≡ returned m' all true)
      × (m'.sig_chld_pipe ≡ m.sig_chld_pipe)
      × (has_pid pid m'.processes ≡ has_pid pid m.processes)
unfolding serve
serve_elsewhere h is_set message pid fd zero m calls unset = (m, calls, refl, refl, refl)
serve_elsewhere h is_set message pid fd (suc n) m calls unset = elim (Bool-cases (is_set fd)) [
  | inr not_now ↦
      let (m', all, e, same, still) =
        serve_elsewhere h is_set message pid (fd + 1) n m calls unset in
      (m', all, rw (not_now, serve) e, same, still)
  | inl now ↦
      let elsewhere : fd ≢ m.sig_chld_pipe =
        λ own. (let clash : true ≡ false = sym now ∙ ap is_set own ∙ unset in cc) in
      let other : (fd == m.sig_chld_pipe) ≡ false = ground arith in
      let (m1, more, stay, first, follows) = callback_elsewhere h message fd pid m other in
      let (m', all, e, same, still) =
        serve_elsewhere h is_set message pid (fd + 1) n m1 (calls ++ more)
          (rw follows.same_pipe unset) in
      (
        m',
        all,
        rw (now, first, serve) e,
        same ∙ follows.same_pipe,
        still ∙ follows.others elsewhere,
      )
]

-- `select` is interrupted, or reports other descriptors than the signal handler's pipe.
abbrev pub IsQuiet : ℕ → Selected → Type 0
IsQuiet sig_chld_pipe (ready is_set message) = is_set sig_chld_pipe ≡ false
IsQuiet sig_chld_pipe eintr = Unit {0}
IsQuiet sig_chld_pipe broken_select = ⊥

abbrev pub AreQuiet : ℕ → List Selected → Type 0
AreQuiet sig_chld_pipe [] = Unit {0}
AreQuiet sig_chld_pipe (s ∷ quiet) = IsQuiet sig_chld_pipe s × AreQuiet sig_chld_pipe quiet

module _ (h : Handlers) (is_set : ℕ → Bool) (answers : List Selected) (e : ChildEnd) where
  -- Rounds in which `select` does not fail and the signal handler's pipe is not ready, and then one
  -- in which its message for one of the processes, which ended by itself or by a signal, is read
  -- alone: if the user's handler wants to leave the loop, the loop ends at the latest with this
  -- round, whatever other descriptors are ready.
  pub select_loop-Leaves :
      (quiet : List Selected) (m : Main) (calls : List Call)
      → AreQuiet m.sig_chld_pipe quiet
      → is_set m.sig_chld_pipe ≡ true
      → has_pid (pid_of e) m.processes ≡ true
      → Leaves h (exit_of e)
      → (m' : Main) × (all : List Call) × (select_loop h
            (quiet ++ ready is_set (notice e) ∷ answers)
            m
            calls
          ≡ finished m' all)
  unfolding select_loop
  select_loop-Leaves [] m calls q set there leaves =
      round-Leaves h is_set answers m calls e set there leaves
  select_loop-Leaves (broken_select ∷ quiet) m calls q set there leaves = absurd q.0
  select_loop-Leaves (eintr ∷ quiet) m calls q set there leaves =
      if-finished (length (fds_to_watch m).0 == 1) m calls _ (
        if-finished m.terminate_main_loop m calls _
          (select_loop-Leaves quiet m calls q.1 set there leaves))
  select_loop-Leaves (ready some_set message ∷ quiet) m calls q set there leaves =
      let (m1, more, served, same, still) =
        serve_elsewhere h some_set message (pid_of e) 0 ((fds_to_watch m).1 + 1) m calls q.0 in
      if-finished (length (fds_to_watch m).0 == 1) m calls _ (
        rw served (
          elim-finished m1.terminate_main_loop m1 more _
            (select_loop-Leaves quiet m1 more (rw same q.1) (rw same set) (rw still there) leaves)))
