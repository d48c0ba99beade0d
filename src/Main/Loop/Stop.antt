-- ===== src/Main/Loop/Stop.antt =====
-- `select_loop_` when SIGTERM arrives.
use modglue.Common.{
  ℕ, zero, suc, ◌+◌, ◌≤◌, ◌<◌, ◌≡◌, ◌≢◌, refl, ◌∙◌, inl, inr, Bool, true, false, List, [], ◌∷◌,
  ◌++◌, ◌==◌, arith, Bool-cases, ==-true, length,
}
use modglue.System.{Call}
use modglue.ExtProcess.{ExtProcess}
use modglue.ExtProcess.Lifetime.{IsClosed, terminate_lem}
use modglue.Main.{Main}
use modglue.Main.Notice.{sig_term}
use modglue.Main.Loop.{
  Handlers, terminate_all, on_notice, select_callback, exits, serve, Selected, ready, exited_early,
  select_loop, fds_to_watch,
}
use modglue.Main.Loop.Death.{own_pipe}
use modglue.Main.Loop.Watch.{fds_to_watch-pipe}
use modglue.Main.Loop.Round.{callback_elsewhere}

-- Each object has no process any more, and our ends of its pipes are closed.
abbrev pub AreEnded : List ExtProcess → Type 0
AreEnded [] = Unit {0}
AreEnded (p ∷ ps) = ((p.pid ≡ 0) × IsClosed p.input_pipes × IsClosed p.output_pipes) × AreEnded ps

terminate_all-AreEnded : (h : Handlers) (ps : List ExtProcess) → AreEnded (terminate_all h ps).0
unfolding terminate_all
terminate_all-AreEnded h [] = tt
terminate_all-AreEnded h (p ∷ ps) =
    let (no_pid, code, ins, outs, sent) = terminate_lem p 0 (h.alive p) in
    ((no_pid, ins, outs), terminate_all-AreEnded h ps)

on_notice-sig_term :
    (h : Handlers) (m : Main)
    → (m' : Main) × (calls : List Call) × (on_notice h sig_term m ≡ exits m' calls)
      × AreEnded m'.processes
unfolding on_notice
on_notice-sig_term h m = (
  record m { processes = (terminate_all h m.processes).0 },
  (terminate_all h m.processes).1,
  refl,
  terminate_all-AreEnded h m.processes,
)

module _ (h : Handlers) (is_set : ℕ → Bool) where
  serve-sig_term :
      (fd n : ℕ) (m : Main) (calls : List Call)
      → is_set m.sig_chld_pipe ≡ true
      → fd ≤ m.sig_chld_pipe
      → m.sig_chld_pipe < fd + n
      → (m' : Main) × (all : List Call) × (serve h is_set sig_term fd n m calls ≡ exits m' all)
        × AreEnded m'.processes
  unfolding serve
  serve-sig_term fd zero m calls set low high = absurd (omega arith)
  serve-sig_term fd (suc n) m calls set low high = elim (Bool-cases (fd == m.sig_chld_pipe)) [
    | inl own ↦
        let (m', more, stops, ended) = on_notice-sig_term h m in
        let here = ==-true fd m.sig_chld_pipe own in
        let now : is_set fd ≡ true = rw here set in
        let called : select_callback h sig_term fd m ≡ exits m' more =
          rw here (own_pipe h sig_term m ∙ stops) in
        (m', calls ++ more, rw (now, called, serve) refl, ended)
    | inr other ↦ elim (Bool-cases (is_set fd)) [
      | inr unset ↦
          let (m', all, e, ended) =
            serve-sig_term (fd + 1) n m calls set (ground arith) (omega arith) in
          (m', all, rw (unset, serve) e, ended)
      | inl now ↦
          let (m1, more, stay, first, follows) = callback_elsewhere h sig_term fd 0 m other in
          let same = follows.same_pipe in
          let (m', all, e, ended) =
            serve-sig_term (fd + 1) n m1 (calls ++ more) (rw same set) (rw same (ground arith))
              (rw same (omega arith)) in
          (m', all, rw (now, first, serve) e, ended)
    ]
  ]

-- Where the message of SIGTERM is ready and is read alone, with no message of a child before it, and the
-- loop still watches a pipe, the loop stops the program in this round, and by then each object has
-- lost its process and its pipes are closed.
pub select_loop-sig_term :
    (h : Handlers) (is_set : ℕ → Bool) (answers : List Selected) (m : Main) (calls : List Call)
    → is_set m.sig_chld_pipe ≡ true
    → length (fds_to_watch m).0 ≢ 1
    → (m' : Main) × (all : List Call) × (select_loop h (ready is_set sig_term ∷ answers) m calls
        ≡ exited_early m' all)
      × AreEnded m'.processes
unfolding select_loop
select_loop-sig_term h is_set answers m calls set watching =
    let (m', all, e, ended) =
      serve-sig_term h is_set 0 ((fds_to_watch m).1 + 1) m calls set (omega arith)
        (omega (arith, fds_to_watch-pipe m)) in
    let others : (length (fds_to_watch m).0 == 1) ≡ false = ground arith in
    (m', all, rw (others, e, select_loop) refl, ended)
