-- ===== src/Prompt/Cursor.antt =====
-- The bounds of the editor's cursor and of its history index.
use modglue.Common.{
  ℕ, ◌-◌, ◌≤◌, ◌<◌, List, [], ◌∷◌, inl, inr, arith, Bytes, Result, ok, throw, length, take, drop,
  pop_back, length-append, length-take, length-drop, length-pop_back, Bool-cases, ◌>>=◌,
  if◌then◌else◌,
}
use modglue.Prompt.{
  Mode, initial, escape_read, movement_escape_read, eat_one_char, Editor, step_in, step, on_key,
  on_escape, on_movement, kill_line, backspace, enter, insert, history_up, history_down,
  cursor_left, cursor_right, process_stdin, receive_stdin, start, read_again,
}

pub record IsValid (e : Editor) : Type 0 where
  pub cursor : e.pos ≤ length e.combine
  pub recalled : e.hispos < length e.history

-- The step does not throw, and what it leaves is valid.
abbrev pub Keeps : Result Editor → Type 0
Keeps (ok e) = IsValid e
Keeps (throw m) = ⊥

kill_line-IsValid : (e : Editor) → IsValid e → IsValid (kill_line e)
unfolding kill_line
kill_line-IsValid e v = ground (arith, length-take e.pos e.combine)

backspace-Keeps : (e : Editor) → IsValid e → Keeps (backspace e)
unfolding backspace
backspace-Keeps e v = ground (
  arith,
  length-append (take (e.pos - 1) e.combine) (drop e.pos e.combine),
  length-append (take (e.pos - 1) e.combine) [],
  length-take (e.pos - 1) e.combine,
  length-drop e.pos e.combine,
)

insert-Keeps : (e : Editor) (c : ℕ) → IsValid e → Keeps (insert e c)
unfolding insert
insert-Keeps e c v = ground (
  arith,
  length-append e.combine (c ∷ []),
  length-append (take e.pos e.combine) (c ∷ drop e.pos e.combine),
  length-take e.pos e.combine,
  length-drop e.pos e.combine,
)

enter-IsValid : (e : Editor) → IsValid e → IsValid (enter e)
unfolding enter
enter-IsValid e v = ground (arith, length-append (pop_back e.history) (e.combine ∷ [] ∷ []))

history_up-IsValid : (e : Editor) → IsValid e → IsValid (history_up e)
unfolding history_up
history_up-IsValid e v =
    ground (arith, length-append (pop_back e.history) (e.combine ∷ []), length-pop_back e.history)

history_down-IsValid : (e : Editor) → IsValid e → IsValid (history_down e)
unfolding history_down
history_down-IsValid e v = ground arith

on_key-Keeps : (e : Editor) (c : ℕ) → IsValid e → Keeps (on_key e c)
unfolding on_key
on_key-Keeps e c v =
    ground
      (arith, kill_line-IsValid e v, backspace-Keeps e v, insert-Keeps e c v, enter-IsValid e v)

on_escape-IsValid : (e : Editor) (c : ℕ) → IsValid e → IsValid (on_escape e c)
unfolding on_escape
on_escape-IsValid e c v = ground arith

on_movement-IsValid : (e : Editor) (c : ℕ) → IsValid e → IsValid (on_movement e c)
unfolding on_movement cursor_left cursor_right
on_movement-IsValid e c v = ground (arith, history_up-IsValid e v, history_down-IsValid e v)

pub step_in-Keeps : (m : Mode) (e : Editor) (c : ℕ) → IsValid e → Keeps (step_in m e c)
unfolding step_in
step_in-Keeps initial e c v = on_key-Keeps e c v
step_in-Keeps escape_read e c v = on_escape-IsValid e c v
step_in-Keeps movement_escape_read e c v = on_movement-IsValid e c v
step_in-Keeps eat_one_char e c v = record { cursor = v.cursor; recalled = v.recalled }

Keeps-bind :
    (m : Result Editor) (f : Editor → Result Editor)
    → Keeps m
    → ((e : Editor) → IsValid e → Keeps (f e))
    → Keeps (m >>= f)
Keeps-bind (ok e) f k g = g e k
Keeps-bind (throw m) f k g = absurd k

-- From a valid editor, no input makes `process_stdin` throw, and it leaves a valid editor: the
-- cursor within the line, and the history index within the history.
pub process_stdin-Keeps : (input : Bytes) (e : Editor) → IsValid e → Keeps (process_stdin input e)
unfolding process_stdin
process_stdin-Keeps [] e v = v
process_stdin-Keeps (c ∷ rest) e v =
    Keeps-bind (step e c) _ (step_in-Keeps e.mode e c v)
      λ once w. Keeps-bind _ _ (reread once w) λ twice u. process_stdin-Keeps rest twice u
  where
    reread :
        (once : Editor)
        → IsValid once
        → Keeps (if read_again e.mode c rest then step once c else ok once)
    reread once w = elim (Bool-cases (read_again e.mode c rest)) [
      | inl again ↦ rw again (step_in-Keeps once.mode once c w)
      | inr not_again ↦ rw not_again w
    ]

pub start-IsValid : IsValid start
unfolding start
start-IsValid = omega arith

-- From a valid editor, no sequence of inputs makes `receive_stdin` throw, and it leaves a valid
-- editor: the cursor within the line, and the history index within the history.
pub receive_stdin-Keeps :
    (buffers : List Bytes) (e : Editor) → IsValid e → Keeps (receive_stdin buffers e)
unfolding receive_stdin
receive_stdin-Keeps [] e v = v
receive_stdin-Keeps (buffer ∷ buffers) e v =
    Keeps-bind (process_stdin buffer e) _ (process_stdin-Keeps buffer e v)
      λ e' w. receive_stdin-Keeps buffers e' w
