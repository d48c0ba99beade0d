-- ===== src/Main/Loop/Valid/Rounds.antt =====
-- The callbacks and the rounds of `select_loop_`, and the marks of the pipes of the processes.
use modglue.Common.{
  ℕ, zero, suc, ◌+◌, ◌≡◌, refl, ◌⊎◌, inl, inr, Bool, true, false, List, [], ◌∷◌, ◌++◌, ◌==◌, Bytes,
  Bool-cases, Option-cases, if◌then◌else◌, length,
}
use modglue.System.{Call}
use modglue.Main.{Main}
use modglue.Main.Loop.{
  Handlers, fds_to_watch, receive_from, receive_from_process, on_notice, select_callback, returned,
  exits, throws, Handled, serve, Selected, ready, eintr, broken_select, LoopEnd, finished,
  exited_early, threw, waiting, select_loop,
}
use modglue.Main.Loop.Valid.{
  IsValid, KeepsMarks, AreOpen, fds_to_watch-AreOpen, receive_from_process-IsValid,
  bury_first-IsValid, terminate_all-IsValid,
}

-- The state in which a callback or a round ends is valid.
abbrev IsValidAfter : Handled → Type 0
IsValidAfter (returned m calls stay) = IsValid m.processes
IsValidAfter (exits m calls) = IsValid m.processes
IsValidAfter (throws e) = Unit {0}

on_notice-IsValid :
    (h : Handlers) (message : Bytes) (m : Main)
    → KeepsMarks h
    → IsValid m.processes
    → IsValidAfter (on_notice h message m)
unfolding on_notice
on_notice-IsValid h [] m keeps valid = tt
on_notice-IsValid h (c ∷ text) m keeps valid = elim (Bool-cases (c == b'T')) [
  | inl stop ↦ rw stop (terminate_all-IsValid h m.processes valid)
  | inr one ↦ rw one (bury_first-IsValid h _ _ m.processes keeps valid)
]

select_callback-IsValid :
    (h : Handlers) (message : Bytes) (fd : ℕ) (m : Main)
    → KeepsMarks h
    → IsValid m.processes
    → IsValidAfter (select_callback h message fd m)
unfolding select_callback
select_callback-IsValid h message fd m keeps valid = elim (Bool-cases (fd == m.sig_chld_pipe)) [
  | inl own ↦ rw (own, select_callback) (on_notice-IsValid h message m keeps valid)
  | inr other ↦ elim (Option-cases (receive_from h fd m.ipipes)) [
    | inr (found, e) ↦ rw (other, e, select_callback) valid
    | inl no_own ↦ elim (Option-cases (receive_from_process h fd m.processes)) [
      | inr (found, e) ↦
          rw (other, no_own, e, select_callback)
            (rw e at (receive_from_process-IsValid h fd m.processes keeps valid))
      | inl unknown ↦ rw (other, no_own, unknown, select_callback) valid
    ]
  ]
]

-- How a callback or a round has ended.
Handled-cases :
    (r : Handled)
    → ((m : Main) × (calls : List Call) × (stay : Bool) × (r ≡ returned m calls stay))
      ⊎ (((m : Main) × (calls : List Call) × (r ≡ exits m calls)) ⊎ ((e : Bytes) × (r ≡ throws e)))
Handled-cases (returned m calls stay) = inl (m, calls, stay, refl)
Handled-cases (exits m calls) = inr (inl (m, calls, refl))
Handled-cases (throws e) = inr (inr (e, refl))

serve-IsValid :
    (h : Handlers) (is_set : ℕ → Bool) (message : Bytes) (fd n : ℕ) (m : Main) (calls : List Call)
    → KeepsMarks h
    → IsValid m.processes
    → IsValidAfter (serve h is_set message fd n m calls)
unfolding serve
serve-IsValid h is_set message fd zero m calls keeps valid = valid
serve-IsValid h is_set message fd (suc n) m calls keeps valid = elim (Bool-cases (is_set fd)) [
  | inr unset ↦ rw (unset, serve) (serve-IsValid h is_set message (fd + 1) n m calls keeps valid)
  | inl set ↦
      let called = select_callback-IsValid h message fd m keeps valid in
      elim (Handled-cases (select_callback h message fd m)) [
        | inl (m', more, stay, e) ↦
            rw (set, e, serve)
              (serve-IsValid h is_set message (fd + 1) n m' (calls ++ more) keeps (rw e at called))
        | inr (inl (m', more, e)) ↦ rw (set, e, serve) (rw e at called)
        | inr (inr (message', e)) ↦ rw (set, e, serve) tt
      ]
]

-- A loop that waits in `select`.
abbrev IsValidEnd : LoopEnd → Type 0
IsValidEnd (waiting m calls) = AreOpen (fds_to_watch m).0
IsValidEnd (finished m calls) = Unit {0}
IsValidEnd (exited_early m calls) = Unit {0}
IsValidEnd (threw e) = Unit {0}

choice-IsValidEnd :
    (b : Bool) (r s : LoopEnd) → IsValidEnd r → IsValidEnd s → IsValidEnd (if b then r else s)
choice-IsValidEnd true r s h k = h
choice-IsValidEnd false r s h k = k

select_loop-IsValidEnd :
    (h : Handlers) (answers : List Selected) (m : Main) (calls : List Call)
    → KeepsMarks h
    → IsValid m.processes
    → IsValidEnd (select_loop h answers m calls)
unfolding select_loop
select_loop-IsValidEnd h [] m calls keeps valid =
    elim (Bool-cases (length (fds_to_watch m).0 == 1)) [
      | inl alone ↦ rw (alone, select_loop) tt
      | inr others ↦ rw (others, select_loop) (fds_to_watch-AreOpen m valid)
    ]
select_loop-IsValidEnd h (broken_select ∷ answers) m calls keeps valid =
    elim (Bool-cases (length (fds_to_watch m).0 == 1)) [
      | inl alone ↦ rw (alone, select_loop) tt
      | inr others ↦ rw (others, select_loop) tt
    ]
select_loop-IsValidEnd h (eintr ∷ answers) m calls keeps valid =
    elim (Bool-cases (length (fds_to_watch m).0 == 1)) [
      | inl alone ↦ rw (alone, select_loop) tt
      | inr others ↦
          rw (others, select_loop)
            (choice-IsValidEnd m.terminate_main_loop (finished m calls) _ tt
              (select_loop-IsValidEnd h answers m calls keeps valid))
    ]
select_loop-IsValidEnd h (ready is_set message ∷ answers) m calls keeps valid =
    let n = (fds_to_watch m).1 + 1 in
    let served = serve-IsValid h is_set message 0 n m calls keeps valid in
    elim (Bool-cases (length (fds_to_watch m).0 == 1)) [
      | inl alone ↦ rw (alone, select_loop) tt
      | inr others ↦ elim (Handled-cases (serve h is_set message 0 n m calls)) [
        | inr (inl (m', more, e)) ↦ rw (others, e, select_loop) tt
        | inr (inr (message', e)) ↦ rw (others, e, select_loop) tt
        | inl (m', more, stay, e) ↦ elim (Bool-cases m'.terminate_main_loop) [
          | inl stop ↦ rw (others, e, select_loop) (rw stop tt)
          | inr on ↦
              rw (others, e, select_loop)
                (rw on (select_loop-IsValidEnd h answers m' more keeps (rw e at served)))
        ]
      ]
    ]

-- However often the loop has gone round, and whatever it was told and its handlers did: where it
-- waits in `select`, no descriptor that it watches is -1. This holds where each pipe of a process
-- that has no descriptor was marked broken at the start, as the constructors, `open` and `close`
-- leave it, and the handler of `receiver` keeps it so.
pub select_loop-AreOpen :
    (h : Handlers) (answers : List Selected) (m : Main) (calls : List Call) {m' : Main}
    {all : List Call}
    → KeepsMarks h
    → IsValid m.processes
    → select_loop h answers m calls ≡ waiting m' all
    → AreOpen (fds_to_watch m').0
select_loop-AreOpen h answers m calls keeps valid e =
    rw e at (select_loop-IsValidEnd h answers m calls keeps valid)
