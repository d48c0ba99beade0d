-- ===== src/Main/Loop/Tests.antt =====
-- The theorems on whole runs of the event loop, at concrete inputs.
use modglue.Common.{
  ℕ, ◌≡◌, ◌≢◌, refl, inr, Bool, true, false, List, [], ◌∷◌, some, none, ◌==◌, arith, length,
}
use modglue.System.{Call, got}
use modglue.Pipe.{Pipe, first_read_after_select, read_with_ack, read_nonblocking}
use modglue.Main.{Main}
use modglue.Main.Notice.{exited, notice, sig_term}
use modglue.Main.Loop.{
  Handlers, ready, eintr, finished, exited_early, waiting, select_loop, fds_to_watch,
  select_callback,
}
use modglue.Main.Loop.Leave.{select_loop-Leaves}
use modglue.Main.Loop.Stop.{AreEnded, select_loop-sig_term}
use modglue.Main.Loop.Valid.{AreOpen, KeepsMarks}
use modglue.Main.Loop.Valid.Rounds.{select_loop-AreOpen}
use modglue.Main.Tests.{program, handlers}

-- All descriptors can be read.
abbrev all_set : ℕ → Bool
all_set fd = true

select_loop-Leaves_example :
    (m' : Main) × (all : List Call) × (select_loop handlers
        (eintr ∷ ready all_set (notice (exited 12 3)) ∷ [])
        program
        []
      ≡ finished m' all)
select_loop-Leaves_example =
    select_loop-Leaves handlers all_set [] (exited 12 3) (eintr ∷ []) program [] (tt, tt) refl refl
      (λ q e. refl)

watches_more : length (fds_to_watch program).0 ≢ 1
unfolding fds_to_watch
watches_more = omega arith

select_loop-sig_term_example :
    (m' : Main) × (all : List Call) × (select_loop handlers (ready all_set sig_term ∷ []) program []
      ≡ exited_early m' all)
    × AreEnded m'.processes
select_loop-sig_term_example = select_loop-sig_term handlers all_set [] program [] refl watches_more

-- A handler that finds the end of the stream.
abbrev read_end : Pipe → Pipe × Bool
read_end p = elim (read_with_ack p (got [] ∷ [])) [
  | none ↦ (p, false)
  | some (p', ret, text) ↦ (p', true)
]

abbrev readers : Handlers
readers = record handlers { receiver = read_end }

readers-KeepsMarks : KeepsMarks readers
unfolding read_with_ack read_nonblocking
readers-KeepsMarks p marked = ground arith

-- A round that reads the pipe 9 of the first process.
gone_round :
    (m' : Main) × (all : List Call) × (select_loop readers
        (eintr ∷ ready (λ fd. fd == 9) [] ∷ [])
        program
        []
      ≡ waiting m' all)
unfolding select_loop fds_to_watch select_callback read_with_ack read_nonblocking
    first_read_after_select
gone_round = (_, _, refl)

select_loop-AreOpen_example : AreOpen (fds_to_watch gone_round.0).0
select_loop-AreOpen_example =
    select_loop-AreOpen readers (eintr ∷ ready (λ fd. fd == 9) [] ∷ []) program []
      readers-KeepsMarks ((inr refl, tt), ((inr refl, tt), tt)) gone_round.2
