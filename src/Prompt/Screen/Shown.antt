-- ===== src/Prompt/Screen/Shown.antt =====
-- The edited line on the terminal, through the operations of the editor.
use modglue.Common.{
  ℕ, suc, ◌+◌, ◌-◌, ◌≤◌, ◌≡◌, refl, ◌∙◌, List, [], ◌∷◌, ◌++◌, inl, inr, arith, Bytes, Result, ok,
  throw, length, take, drop, get_or, pop_back, length-append, length-take, take_all, drop_all,
  Bool-cases, ◌>>=◌,
}
use modglue.Prompt.Cursor.{process_stdin-Keeps, IsValid, Keeps, step_in-Keeps}
use modglue.Prompt.{
  Mode, initial, escape_read, movement_escape_read, eat_one_char, TermOp, put, newline, left, right,
  redraw_line, move_left, move_right, Editor, step_in, step, on_key, on_escape, on_movement,
  kill_line, backspace, enter, insert, history_up, history_down, cursor_left, cursor_right,
  process_stdin, receive_stdin, read_again,
}
use modglue.Prompt.Screen.{Term, display, blank, display-append, display-redraw}

-- The terminal shows the edited line, and its cursor is the editor's.
abbrev pub Shows : Editor → Type 0
Shows e = display blank e.shown ≡ record { line = e.combine; col = e.pos }

abbrev pub ShowsIn : Result Editor → Type 0
ShowsIn (ok e) = Shows e
ShowsIn (throw m) = Unit

display-more :
    (e : Editor) (ops : List TermOp) (t : Term)
    → Shows e
    → display (record { line = e.combine; col = e.pos }) ops ≡ t
    → display blank (e.shown ++ ops) ≡ t
display-more e ops t s h = display-append blank e.shown ops ∙ rw s h

-- The operations that redraw.
redraw-Shows :
    (e : Editor) (str : Bytes) (next : ℕ)
    → Shows e
    → next ≤ length str
    → display blank (e.shown ++ redraw_line str e.pos next) ≡ record { line = str; col = next }
redraw-Shows e str next s h = display-more e _ _ s (display-redraw _ str next h)

kill_line-Shows : (e : Editor) → IsValid e → Shows e → Shows (kill_line e)
unfolding kill_line
kill_line-Shows e v s =
    ground (arith, redraw-Shows e (take e.pos e.combine) e.pos s, length-take e.pos e.combine)

backspace-Shows : (e : Editor) → IsValid e → Shows e → ShowsIn (backspace e)
unfolding backspace
backspace-Shows e v s = ground (
  arith,
  redraw-Shows e (take (e.pos - 1) e.combine ++ drop e.pos e.combine) (e.pos - 1) s,
  redraw-Shows e (take (e.pos - 1) e.combine ++ []) (e.pos - 1) s,
  redraw-Shows e (drop e.pos e.combine) (e.pos - 1) s,
  redraw-Shows e [] (e.pos - 1) s,
  length-append (take (e.pos - 1) e.combine) (drop e.pos e.combine),
  length-append (take (e.pos - 1) e.combine) [],
  length-take (e.pos - 1) e.combine,
)

append-Shows :
    (e : Editor) (c : ℕ)
    → Shows e
    → e.pos ≡ length e.combine
    → display blank (e.shown ++ put c ∷ []) ≡ record { line = e.combine ++ c ∷ []; col = e.pos + 1 }
append-Shows e c s h =
    display-more e (put c ∷ []) _ s
      (unfold display in ground (arith, take_all e.pos e.combine, drop_all (suc e.pos) e.combine))

insert-Shows : (e : Editor) (c : ℕ) → IsValid e → Shows e → ShowsIn (insert e c)
unfolding insert
insert-Shows e c v s = ground (
  arith,
  redraw-Shows e (take e.pos e.combine ++ c ∷ drop e.pos e.combine) (e.pos + 1) s,
  length-append (take e.pos e.combine) (c ∷ drop e.pos e.combine),
  length-take e.pos e.combine,
  append-Shows e c s,
)

enter-Shows : (e : Editor) → Shows e → Shows (enter e)
unfolding enter display
enter-Shows e s = display-more e (newline ∷ []) _ s refl

history_up-Shows : (e : Editor) → Shows e → Shows (history_up e)
unfolding history_up
history_up-Shows e s = ground (
  arith,
  redraw-Shows e (get_or (pop_back e.history ++ e.combine ∷ []) (e.hispos - 1) [])
      (length (get_or (pop_back e.history ++ e.combine ∷ []) (e.hispos - 1) [])) s,
  redraw-Shows e (get_or e.history (e.hispos - 1) []) (length (get_or e.history (e.hispos - 1) []))
      s,
)

history_down-Shows : (e : Editor) → Shows e → Shows (history_down e)
unfolding history_down
history_down-Shows e s = ground (
  arith,
  redraw-Shows e (get_or e.history (e.hispos + 1) []) (length (get_or e.history (e.hispos + 1) []))
      s,
)

cursor_left-Shows : (e : Editor) → Shows e → Shows (cursor_left e)
unfolding cursor_left move_left display
cursor_left-Shows e s = ground (arith, display-more e (left 1 ∷ []) _ s refl)

cursor_right-Shows : (e : Editor) → Shows e → Shows (cursor_right e)
unfolding cursor_right move_right display
cursor_right-Shows e s = ground (arith, display-more e (right 1 ∷ []) _ s refl)

on_key-Shows : (e : Editor) (c : ℕ) → IsValid e → Shows e → ShowsIn (on_key e c)
unfolding on_key
on_key-Shows e c v s = ground (
  arith,
  kill_line-Shows e v s,
  backspace-Shows e v s,
  insert-Shows e c v s,
  enter-Shows e s,
  redraw-Shows e e.combine 0 s,
  redraw-Shows e e.combine (length e.combine) s,
  redraw-Shows e e.combine e.pos s,
)

on_escape-Shows : (e : Editor) (c : ℕ) → Shows e → Shows (on_escape e c)
unfolding on_escape
on_escape-Shows e c s = ground arith

on_movement-Shows : (e : Editor) (c : ℕ) → Shows e → Shows (on_movement e c)
unfolding on_movement
on_movement-Shows e c s = ground (
  arith,
  history_up-Shows e s,
  history_down-Shows e s,
  cursor_left-Shows e s,
  cursor_right-Shows e s,
)

step_in-Shows : (m : Mode) (e : Editor) (c : ℕ) → IsValid e → Shows e → ShowsIn (step_in m e c)
unfolding step_in
step_in-Shows initial e c v s = on_key-Shows e c v s
step_in-Shows escape_read e c v s = on_escape-Shows e c s
step_in-Shows movement_escape_read e c v s = on_movement-Shows e c s
step_in-Shows eat_one_char e c v s = s

ShowsIn-bind :
    (m : Result Editor) (f : Editor → Result Editor)
    → Keeps m
    → ShowsIn m
    → ((e : Editor) → IsValid e → Shows e → ShowsIn (f e))
    → ShowsIn (m >>= f)
ShowsIn-bind (ok e) f k s g = g e k s
ShowsIn-bind (throw m) f k s g = absurd k

-- A terminal that shows the edited line with the cursor in its place, before the input, shows the
-- new line with the cursor in its new place, whatever keys were pressed.
pub process_stdin-Shows :
    (input : Bytes) (e : Editor) → IsValid e → Shows e → ShowsIn (process_stdin input e)
unfolding process_stdin
process_stdin-Shows [] e v s = s
process_stdin-Shows (c ∷ rest) e v s =
    ShowsIn-bind (step e c) _ (step_in-Keeps e.mode e c v) (step_in-Shows e.mode e c v s)
      λ once w t. elim (Bool-cases (read_again e.mode c rest)) [
        | inl again ↦ rw again (
            ShowsIn-bind (step once c) _ (step_in-Keeps once.mode once c w)
              (step_in-Shows once.mode once c w t) λ twice. process_stdin-Shows rest twice)
        | inr not_again ↦ rw not_again (process_stdin-Shows rest once w t)
      ]

-- One buffer after the other.
pub receive_stdin-ShowsIn :
    (buffers : List Bytes) (e : Editor) → IsValid e → Shows e → ShowsIn (receive_stdin buffers e)
unfolding receive_stdin
receive_stdin-ShowsIn [] e v s = s
receive_stdin-ShowsIn (buffer ∷ buffers) e v s =
    ShowsIn-bind (process_stdin buffer e) _ (process_stdin-Keeps buffer e v)
      (process_stdin-Shows buffer e v s) λ e' w t. receive_stdin-ShowsIn buffers e' w t
