-- ===== src/ModWrap/Copying.antt =====
-- The copying loops of src/modwrap.cc and src/ptywrap.cc against each other.
use modglue.Common.{ℕ, ◌≡◌, refl, Bool, true, false, List, [], ◌∷◌, ◌++◌, Option, none, some}
use modglue.PtyWrap.{Ready, Answers, Wrap, new_wrap, copied, wrap_round, wrap_loop, wrap}
use modglue.PtyWrap.Copying.{IsCopied, IsQuiet, AreQuiet, end_round}
use modglue.ModWrap.{mod_copied, mod_round, mod_loop, mod_wrap}

mod_copied-copied :
    (at_end : Bool) (r : Option Ready) → IsCopied r → copied at_end r ≡ (mod_copied r, true)
unfolding copied mod_copied
mod_copied-copied at_end none h = refl
mod_copied-copied at_end (some r) ((n, w), (c, text, e)) = rw (e, w) refl

mod_round-wrap_round : (a : Answers) (w : Wrap) → IsQuiet a → mod_round a w ≡ wrap_round a w
unfolding mod_round wrap_round
mod_round-wrap_round a w q =
    rw
      (
        q.running,
        mod_copied-copied true a.on_stdin q.stdin_copied,
        mod_copied-copied false a.on_stdout q.stdout_copied,
        mod_copied-copied false a.on_stderr q.stderr_copied,
      )
      refl

mod_loop-wrap_loop :
    (answers : List Answers) (code : ℕ) (w : Wrap)
    → AreQuiet answers
    → mod_loop (answers ++ end_round code ∷ []) w ≡ wrap_loop (answers ++ end_round code ∷ []) w
unfolding mod_loop wrap_loop mod_round wrap_round
mod_loop-wrap_loop [] code w q = refl
mod_loop-wrap_loop (a ∷ answers) code w q =
    rw (mod_round-wrap_round a w q.0, mod_loop-wrap_loop answers code (wrap_round a w).0 q.1) refl

-- While all streams can be copied, and then the program ends, the older program does the same as
-- `ptywrap`: it has copied the same bytes to each stream, and has the same exit code.
pub mod_wrap-wrap :
    (answers : List Answers) (outs errs : List Ready) (code : ℕ)
    → AreQuiet answers
    → mod_wrap (answers ++ end_round code ∷ []) outs errs
      ≡ wrap (answers ++ end_round code ∷ []) outs errs
unfolding mod_wrap wrap
mod_wrap-wrap answers outs errs code q =
    rw (mod_loop-wrap_loop answers code new_wrap q, mod_wrap, wrap) refl
