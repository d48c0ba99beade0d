-- ===== src/Prompt/Screen.antt =====
-- The terminal, as a specification of what the user sees: one column for each byte.
pub mod Shown
use modglue.Common.{
  ℕ, suc, ◌+◌, ◌-◌, ◌≤◌, ◌≡◌, refl, ap, ◌∙◌, List, [], ◌∷◌, ◌++◌, map, inl, inr, arith, Bytes,
  Result, ok, throw, length, take, drop, get_or, pop_back, length-append, length-take, take_all,
  drop_all, append-nil, append_assoc, Bool-cases, ◌>>=◌, sub_u32,
}
use mathlib.Core.Path.{◌≡⟨◌⟩◌, ◌∎}
use modglue.Prompt.Cursor.{process_stdin-Keeps, IsValid, Keeps, step_in-Keeps}
use modglue.Prompt.{
  Mode, initial, escape_read, movement_escape_read, eat_one_char, TermOp, put, newline, erase, left,
  right, redraw_line, move_left, move_right, Editor, step_in, step, on_key, on_escape, on_movement,
  kill_line, backspace, enter, insert, history_up, history_down, cursor_left, cursor_right,
  process_stdin, receive_stdin, read_again,
}

pub record Term : Type 0 where
  pub line : Bytes
  pub col : ℕ

-- A byte overwrites what stands at the cursor; `erase` clears from the cursor to the end.
abbrev pub apply : Term → TermOp → Term
apply t (put c) = record {
  line = take t.col t.line ++ c ∷ drop (suc t.col) t.line;
  col = t.col + 1;
}
apply t newline = record { line = []; col = 0 }
apply t erase = record t { line = take t.col t.line }
apply t (left n) = record t { col = t.col - n }
apply t (right n) = record t { col = t.col + n }

unfoldable pub display : Term → List TermOp → Term
display t [] = t
display t (op ∷ ops) = display (apply t op) ops

abbrev pub blank : Term
blank = record { line = []; col = length {A = ℕ} [] }

pub display-append :
    (t : Term) (xs ys : List TermOp) → display t (xs ++ ys) ≡ display (display t xs) ys
unfolding display
display-append t [] ys = refl
display-append t (x ∷ xs) ys = display-append (apply t x) xs ys

at_end :
    (line : Bytes) (c : ℕ)
    → ◌≡◌ {A = Term}
        (record {
          line = take (length line) line ++ c ∷ drop (suc (length line)) line;
          col = length line + 1;
        })
        (record { line = line ++ c ∷ []; col = length (line ++ c ∷ []) })
at_end line c = ground (
  arith,
  take_all (length line) line,
  drop_all (suc (length line)) line,
  length-append line (c ∷ []),
)

-- Writing at the end of a line.
display-put :
    (str line : Bytes)
    → display (record { line = line; col = length line }) (map put str)
      ≡ record { line = line ++ str; col = length (line ++ str) }
unfolding display
display-put [] line = rw append-nil
display-put (c ∷ str) line =
    display
      (record {
        line = take (length line) line ++ c ∷ drop (suc (length line)) line;
        col = length line + 1;
      })
      (map put str)
    ≡⟨ ap (λ (t : Term). display t (map put str)) (at_end line c) ⟩
      display (record { line = line ++ c ∷ []; col = length (line ++ c ∷ []) }) (map put str)
    ≡⟨ display-put str (line ++ c ∷ []) ⟩
      record { line = (line ++ c ∷ []) ++ str; col = length ((line ++ c ∷ []) ++ str) }
    ≡⟨ (rw append_assoc) ⟩ record { line = line ++ c ∷ str; col = length (line ++ c ∷ str) } ∎

display-move_left : (n : ℕ) (t : Term) → display t (move_left n) ≡ record t { col = t.col - n }
unfolding display move_left
display-move_left n t = ground arith

-- `redraw_line` puts the new line in the place of the old one, whatever that was.
pub display-redraw :
    (t : Term) (str : Bytes) (next : ℕ)
    → next ≤ length str
    → display t (redraw_line str t.col next) ≡ record { line = str; col = next }
unfolding redraw_line
display-redraw t str next h =
    display t (move_left t.col ++ (erase ∷ (map put str ++ back)))
    ≡⟨ display-append t (move_left t.col) _ ⟩
      display (display t (move_left t.col)) (erase ∷ (map put str ++ back))
    ≡⟨ (rw (display-move_left t.col t) (unfold display in cleared)) ⟩
      display blank (map put str ++ back)
    ≡⟨ display-append _ (map put str) back ⟩ display (display blank (map put str)) back
    ≡⟨ (rw (display-put str []) (display-move_left (sub_u32 (length str) next) _)) ⟩
      record { line = str; col = length str - sub_u32 (length str) next }
    ≡⟨ (ground arith) ⟩ record { line = str; col = next } ∎
  where
    back : List TermOp
    back = move_left (sub_u32 (length str) next)

    cleared :
        display
          (record { line = take (t.col - t.col) t.line; col = t.col - t.col })
          (map put str ++ back)
        ≡ display (record { line = []; col = 0 }) (map put str ++ back)
    cleared = let e : t.col - t.col ≡ 0 = omega arith in rw e
