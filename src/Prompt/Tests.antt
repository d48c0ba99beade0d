-- ===== src/Prompt/Tests.antt =====
-- The theorems on the line editor, at concrete inputs.
use modglue.Common.{
  List, Bytes, ◌+◌, ◌≡◌, refl, false, [], ◌∷◌, ◌++◌, codes, arith, length, pop_back, ok,
}
use modglue.Prompt.{Editor, initial, put, process_stdin, receive_stdin}
use modglue.Prompt.Cursor.{IsValid, Keeps, receive_stdin-Keeps}
use modglue.Prompt.Output.{Console, w_normal, receive_stdout}
use modglue.Prompt.Output.Cuts.{whole, with_moving, receive_stdout-whole}
use modglue.Prompt.Output.Filled.{copied, after_fill, receive_stdout-fill}
use modglue.Pipe.Buffer.Flush.{concat}
use modglue.Prompt.Keys.{process_stdin-line}

-- The line `ab`, with one older entry, and the cursor behind it.
abbrev typed : Editor
typed = record {
  mode = initial;
  combine = codes "ab";
  history = codes "ls" ∷ [] ∷ [];
  hispos = 1;
  moving = false;
  pos = 2;
  shown = put 97 ∷ put 98 ∷ [];
  sent = [];
}

typed-IsValid : IsValid typed
typed-IsValid = record { cursor = omega arith; recalled = omega arith }

abbrev keys : List Bytes
keys = (27 ∷ 91 ∷ 68 ∷ 127 ∷ []) ∷ codes "c" ∷ []

receive_stdin-Keeps_example : Keeps (receive_stdin keys typed)
receive_stdin-Keeps_example = receive_stdin-Keeps keys typed typed-IsValid

process_stdin-line_example :
    (e' : Editor) × (process_stdin (codes "cd" ++ b'\n' ∷ []) typed ≡ ok e')
    × (e'.sent ≡ [] ++ (((codes "ab" ++ codes "cd") ++ []) ++ b'\n' ∷ []))
    × (e'.history ≡ pop_back typed.history ++ (((codes "ab" ++ codes "cd") ++ []) ∷ [] ∷ []))
    × (e'.combine ≡ [])
    × (e'.pos ≡ 0)
    × (e'.hispos + 1 ≡ length e'.history)
process_stdin-line_example =
    process_stdin-line (codes "cd") typed (codes "ab") [] (refl, refl) (refl, refl)
      (refl, (refl, tt))

abbrev prompting : Console
prompting = record { editor = typed; wmode = w_normal; last_output_line = codes "> " }

-- A fill that is cut in its text.
abbrev pieces : List Bytes
pieces = (codes "a" ++ (27 ∷ codes "$x")) ∷ codes "y$b" ∷ []

receive_stdout-whole_example :
    with_moving false (receive_stdout pieces prompting)
    ≡ with_moving false (whole false (concat pieces) prompting)
receive_stdout-whole_example = receive_stdout-whole false pieces prompting (refl, (refl, tt))

receive_stdout-fill_example :
    with_moving false (receive_stdout pieces prompting)
    ≡ with_moving false
        (copied (codes "b") (after_fill (codes "xy") (copied (codes "a") prompting)))
receive_stdout-fill_example =
    receive_stdout-fill false pieces (codes "a") (codes "xy") (codes "b") prompting refl refl
      (refl, (refl, tt)) (refl, tt) (refl, (refl, tt)) (refl, tt)
