-- ===== src/Prompt.antt =====
-- The line editor of src/prompt.cc: its globals, the terminal output, and `process_stdin`.
pub mod Cursor
pub mod Screen
pub mod Output
pub mod Errors
pub mod Modes
pub mod Session
pub mod Keys
pub mod Tests
use modglue.Common.{
  ℕ, ◌+◌, ◌-◌, Bool, false, List, [], ◌∷◌, ◌++◌, map, ltb, ◌==◌, if◌then◌else◌, Bytes, codes,
  sub_u32, pred_u64, length, get_or, take, drop, pop_back, Result, ok, throw, ◌>>=◌,
}

pub data Mode : Type 0 where
  initial escape_read movement_escape_read eat_one_char : Mode

-- What is written to the terminal: a byte, `endl`, and the three escape sequences ESC [ K,
-- ESC [ n D and ESC [ n C.
pub data TermOp : Type 0 where
  put : ℕ → TermOp
  newline : TermOp
  erase : TermOp
  left : ℕ → TermOp
  right : ℕ → TermOp

-- The globals of the program. `shown` is all that went to `s_stdout`, and `sent` all that went
-- to `t_stdin`, the standard input of the wrapped program.
pub record Editor : Type 0 where
  pub mode : Mode
  pub combine : Bytes
  pub history : List Bytes
  pub hispos : ℕ
  pub moving : Bool
  pub pos : ℕ
  pub shown : List TermOp
  pub sent : Bytes

pub start : Editor
start = record {
  mode = initial;
  combine = [];
  history = [] ∷ [];
  hispos = 0;
  moving = false;
  pos = 0;
  shown = [];
  sent = [];
}

unfoldable pub move_left : ℕ → List TermOp
move_left n = if ltb 0 n then left n ∷ [] else []

unfoldable pub move_right : ℕ → List TermOp
move_right n = if ltb 0 n then right n ∷ [] else []

abbrev pub erase_line : List TermOp
erase_line = erase ∷ []

unfoldable pub redraw_line : Bytes → ℕ → ℕ → List TermOp
redraw_line str curpos nextpos =
    move_left curpos ++ (erase_line ++ (map put str ++ move_left (sub_u32 (length str) nextpos)))

abbrev pub out_of_range : Bytes
out_of_range = codes "basic_string::substr"

-- `s.substr(start)`, which throws where `start` lies beyond the end.
unfoldable pub substr_from : Bytes → ℕ → Result Bytes
substr_from s start = if ltb (length s) start then throw out_of_range else ok (drop start s)

abbrev pub show : Editor → List TermOp → Editor
show e ops = record e { shown = e.shown ++ ops }

abbrev pub send : Editor → Bytes → Editor
send e text = record e { sent = e.sent ++ text }

-- Puts `line` in the place of the edited line, with the cursor at `next`.
abbrev pub replace : Editor → Bytes → ℕ → Editor
replace e line next = record e {
  combine = line;
  pos = next;
  shown = e.shown ++ redraw_line line e.pos next;
}

-- Key 11, Ctrl-K.
unfoldable pub kill_line : Editor → Editor
kill_line e = if ltb e.pos (length e.combine) then replace e (take e.pos e.combine) e.pos else e

-- Keys 127 and 8.
unfoldable pub backspace : Editor → Result Editor
unfolding substr_from
backspace e =
    if ltb 0 e.pos
    then (do
      tail ← if ltb e.pos (pred_u64 (length e.combine)) then substr_from e.combine e.pos else ok []
      ok (replace e ((if ltb 1 e.pos then take (e.pos - 1) e.combine else []) ++ tail) (e.pos - 1)))
    else ok e

-- Key '\n'.
unfoldable pub enter : Editor → Editor
enter e =
    let lines = pop_back e.history ++ (e.combine ∷ [] ∷ []) in
    record e {
      history = lines;
      hispos = length lines - 1;
      combine = [];
      pos = 0;
      shown = e.shown ++ newline ∷ [];
      sent = e.sent ++ (e.combine ++ b'\n' ∷ []);
    }

-- Any other key.
unfoldable pub insert : Editor → ℕ → Result Editor
unfolding substr_from
insert e c =
    if e.moving
    then ok (send e (c ∷ []))
    else if ltb e.pos (length e.combine)
    then (do
      tail ← substr_from e.combine e.pos
      ok (replace e (take e.pos e.combine ++ c ∷ tail) (e.pos + 1)))
    else ok
        (record e { combine = e.combine ++ c ∷ []; pos = e.pos + 1; shown = e.shown ++ put c ∷ [] })

-- `case initial`.
unfoldable pub on_key : Editor → ℕ → Result Editor
on_key e c =
    if c == 1
    then ok (replace e e.combine 0)
    else if c == 5
    then ok (replace e e.combine (length e.combine))
    else if c == 11
    then ok (kill_line e)
    else if c == 12
    then ok (replace e e.combine e.pos)
    else if c == 127
    then backspace e
    else if c == 8
    then backspace e
    else if c == 27
    then ok (record e { mode = escape_read })
    else if c == b'\n'
    then ok (enter e)
    else insert e c

-- `case escape_read`.
unfoldable pub on_escape : Editor → ℕ → Editor
on_escape e c =
    if c == 27
    then record e { mode = initial; sent = e.sent ++ codes "\\esc\n" }
    else if c == 91
    then record e { mode = movement_escape_read }
    else record e { mode = initial }

-- Key up, with `moving` off.
unfoldable pub history_up : Editor → Editor
history_up e =
    if ltb 0 e.hispos
    then (let lines =
          if e.hispos + 1 == length e.history
          then pop_back e.history ++ e.combine ∷ []
          else e.history in
        let line = get_or lines (e.hispos - 1) [] in
        replace (record e { history = lines; hispos = e.hispos - 1 }) line (length line))
    else e

-- Key down, with `moving` off.
unfoldable pub history_down : Editor → Editor
history_down e =
    if ltb (e.hispos + 1) (length e.history)
    then (let line = get_or e.history (e.hispos + 1) [] in
        replace (record e { hispos = e.hispos + 1 }) line (length line))
    else e

unfoldable pub cursor_right : Editor → Editor
cursor_right e =
    if ltb e.pos (length e.combine)
    then record e { pos = e.pos + 1; shown = e.shown ++ move_right 1 }
    else e

unfoldable pub cursor_left : Editor → Editor
cursor_left e =
    if ltb 0 e.pos then record e { pos = e.pos - 1; shown = e.shown ++ move_left 1 } else e

abbrev pub in_mode : Mode → Editor → Editor
in_mode m e = record e { mode = m }

-- `case movement_escape_read`.
unfoldable pub on_movement : Editor → ℕ → Editor
on_movement e c =
    if c == b'5'
    then in_mode eat_one_char (if e.moving then send e (codes "\\pageup\n") else e)
    else if c == b'6'
    then in_mode eat_one_char (if e.moving then send e (codes "\\pagedown\n") else e)
    else if c == b'A'
    then in_mode initial (if e.moving then send e (codes "\\up\n") else history_up e)
    else if c == b'B'
    then in_mode initial (if e.moving then send e (codes "\\down\n") else history_down e)
    else if c == b'C'
    then in_mode initial (if e.moving then send e (codes "\\right\n") else cursor_right e)
    else if c == b'D'
    then in_mode initial (if e.moving then send e (codes "\\left\n") else cursor_left e)
    else in_mode initial e

unfoldable pub step_in : Mode → Editor → ℕ → Result Editor
step_in eat_one_char e c = ok (in_mode initial e)
step_in initial e c = on_key e c
step_in escape_read e c = ok (on_escape e c)
step_in movement_escape_read e c = ok (on_movement e c)

abbrev pub step : Editor → ℕ → Result Editor
step e c = step_in e.mode e c

-- `if(curchar==len-1) --curchar` in `case initial`: an escape that ends the buffer is read again.
abbrev pub read_again : Mode → ℕ → Bytes → Bool
read_again initial c [] = c == 27
read_again _ _ _ = false

unfoldable pub process_stdin : Bytes → Editor → Result Editor
process_stdin [] e = ok e
process_stdin (c ∷ rest) e = do
  once ← step e c
  twice ← if read_again e.mode c rest then step once c else ok once
  process_stdin rest twice

-- `receive_stdin`, on the buffers that `read` fills until it finds nothing more.
unfoldable pub receive_stdin : List Bytes → Editor → Result Editor
unfolding process_stdin
receive_stdin [] e = ok e
receive_stdin (buffer ∷ buffers) e = do e' ← process_stdin buffer e; receive_stdin buffers e'
