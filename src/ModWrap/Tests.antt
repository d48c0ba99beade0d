-- ===== src/ModWrap/Tests.antt =====
-- The theorem on the older program, at a concrete input.
use modglue.Common.{◌≡◌, refl, List, [], ◌∷◌, ◌++◌, some, none, codes}
use modglue.System.{got}
use modglue.PtyWrap.{Answers, wrap}
use modglue.PtyWrap.Copying.{AreQuiet, end_round}
use modglue.ModWrap.{mod_wrap}
use modglue.ModWrap.Copying.{mod_wrap-wrap}

abbrev one_round : List Answers
one_round =
    record {
      sig_chld = none;
      on_stdin = none;
      on_stdout = some (record { answer = got (codes "bc"); written = some 1024 });
      on_stderr = none;
    }
    ∷ []

one_round-AreQuiet : AreQuiet one_round
one_round-AreQuiet = (
  record {
    running = refl;
    stdin_copied = tt;
    stdout_copied = ((_, refl), (_, _, refl));
    stderr_copied = tt;
  },
  tt,
)

mod_wrap-wrap_example :
    mod_wrap
      (one_round ++ end_round 3 ∷ [])
      (record { answer = got (codes "d"); written = some 1 } ∷ [])
      []
    ≡ wrap
        (one_round ++ end_round 3 ∷ [])
        (record { answer = got (codes "d"); written = some 1 } ∷ [])
        []
mod_wrap-wrap_example =
    mod_wrap-wrap one_round (record { answer = got (codes "d"); written = some 1 } ∷ []) [] 3
      one_round-AreQuiet
