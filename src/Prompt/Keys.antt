-- ===== src/Prompt/Keys.antt =====
-- What the keys of the editor do, as seen by the wrapped program and in the edited line.
use modglue.Common.{
  ℕ, ◌+◌, ◌-◌, ◌≤◌, ◌<◌, ◌≡◌, ◌≢◌, refl, sym, ap, ◌∙◌, Bool, true, false, ◌&&◌, not, [], ◌∷◌, ◌++◌,
  arith, Bytes, ok, length, take, drop, get_or, pop_back, length-append, length-take, drop_all,
  append-nil, append_assoc, ◌==◌, leb, get_or-concat, length-drop, take-length-append,
  drop-length-append, length-pop_back,
}
use modglue.Prompt.{
  Mode, initial, Editor, step_in, step, on_key, backspace, enter, insert, history_up, history_down,
  redraw_line, put, process_stdin, read_again,
}

-- A key that stands for itself.
abbrev pub is_text : ℕ → Bool
is_text c = leb 32 c && not (c == 127)

abbrev pub AllText : Bytes → Type 0
AllText [] = Unit {0}
AllText (c ∷ cs) = (is_text c ≡ true) × AllText cs

-- Ready to type: no escape sequence under way, not in movement mode.
abbrev pub Typing : Editor → Type 0
Typing e = (e.mode ≡ initial) × (e.moving ≡ false)

-- With the cursor just before the last byte, backspace deletes that byte too: the line keeps only
-- what stands before the deleted byte.
pub backspace_before_last :
    (e : Editor)
    → 0 < e.pos
    → e.pos + 1 ≡ length e.combine
    → (e' : Editor) × (step_in initial e 127 ≡ ok e')
      × (e'.combine ≡ take (e.pos - 1) e.combine)
      × (e'.combine ≢ take (e.pos - 1) e.combine ++ drop e.pos e.combine)
unfolding step_in on_key backspace
backspace_before_last e h k = (
  record e {
    combine = take (e.pos - 1) e.combine;
    pos = e.pos - 1;
    shown = e.shown ++ redraw_line (take (e.pos - 1) e.combine) e.pos (e.pos - 1);
  },
  ground (arith, append-nil (take (e.pos - 1) e.combine), short),
  refl,
  λ same. omega (
    arith,
    ap length same,
    length-append (take (e.pos - 1) e.combine) (drop e.pos e.combine),
    length-take (e.pos - 1) e.combine,
    length-drop e.pos e.combine,
  ),
)
  where
    short : e.pos ≤ 1 → take (e.pos - 1) e.combine ≡ []
    short le = let z : e.pos - 1 ≡ 0 = omega arith in rw z

-- At any other place backspace removes the byte before the cursor, and only that.
pub backspace_lem :
    (e : Editor)
    → 0 < e.pos
    → e.pos ≤ length e.combine
    → e.pos + 1 ≢ length e.combine
    → (e' : Editor) × (step_in initial e 127 ≡ ok e')
      × (e'.combine ≡ take (e.pos - 1) e.combine ++ drop e.pos e.combine)
      × (e'.pos + 1 ≡ e.pos)
      × (e'.sent ≡ e.sent)
unfolding step_in on_key backspace
backspace_lem e h v k =
    let line = take (e.pos - 1) e.combine ++ drop e.pos e.combine in
    (
      record e {
        combine = line;
        pos = e.pos - 1;
        shown = e.shown ++ redraw_line line e.pos (e.pos - 1);
      },
      ground (arith, short, drop_all e.pos e.combine),
      refl,
      omega arith,
      refl,
    )
  where
    short : e.pos ≤ 1 → take (e.pos - 1) e.combine ≡ []
    short le = let z : e.pos - 1 ≡ 0 = omega arith in rw z

-- The line is `a ++ b`, with the cursor between the two.
abbrev pub Between : Bytes → Bytes → Editor → Type 0
Between a b e = (e.combine ≡ a ++ b) × (e.pos ≡ length a)

step-insert : (e : Editor) (c : ℕ) → e.mode ≡ initial → is_text c ≡ true → step e c ≡ insert e c
unfolding step_in on_key
step-insert e c m h = rw m (ground arith)

-- The editor's line around the cursor, from its two parts.
parts :
    (e : Editor) (a b : Bytes)
    → Between a b e
    → (take e.pos e.combine ≡ a) × (drop e.pos e.combine ≡ b)
parts e a b at =
    (rw (at.0, at.1) (take-length-append a b), rw (at.0, at.1) (drop-length-append a b))

-- One key of text, wherever the cursor is.
insert-text :
    (e : Editor) (a b : Bytes) (c : ℕ)
    → Typing e
    → Between a b e
    → (e' : Editor) × (insert e c ≡ ok e')
      × Typing e'
      × Between (a ++ c ∷ []) b e'
      × (e'.sent ≡ e.sent)
      × (e'.history ≡ e.history)
unfolding insert
insert-text e a [] c t at = (
  record e { combine = e.combine ++ c ∷ []; pos = e.pos + 1; shown = e.shown ++ put c ∷ [] },
  ground (arith, ap length at.0, length-append a []),
  t,
  (
    ground (arith, append-nil a, append-nil (a ++ c ∷ [])),
    omega (arith, at.1, length-append a (c ∷ [])),
  ),
  refl,
  refl,
)
insert-text e a (x ∷ b) c t at =
    let line = a ++ c ∷ x ∷ b in
    (
      record e {
        combine = line;
        pos = e.pos + 1;
        shown = e.shown ++ redraw_line line e.pos (e.pos + 1);
      },
      ground (arith, ap length at.0, length-append a (x ∷ b), parts e a (x ∷ b) at),
      t,
      (sym (append_assoc a (c ∷ []) (x ∷ b)), omega (arith, at.1, length-append a (c ∷ []))),
      refl,
      refl,
    )

read_again-text : (m : Mode) (c : ℕ) (rest : Bytes) → is_text c ≡ true → read_again m c rest ≡ false
read_again-text initial c [] h = ground arith
read_again-text _ c _ h = refl

-- Keys of text go in at the cursor, in their order, and nothing is sent yet.
pub process_stdin-text :
    (text rest : Bytes) (e : Editor) (a b : Bytes)
    → Typing e
    → Between a b e
    → AllText text
    → (e' : Editor) × (process_stdin (text ++ rest) e ≡ process_stdin rest e')
      × Typing e'
      × Between (a ++ text) b e'
      × (e'.sent ≡ e.sent)
      × (e'.history ≡ e.history)
unfolding process_stdin
process_stdin-text [] rest e a b t at h = (e, refl, t, rw append-nil at, refl, refl)
process_stdin-text (c ∷ text) rest e a b t at h =
    let (e1, step1, t1, at1, sent1, history1) = insert-text e a b c t at in
    let (e2, step2, t2, at2, sent2, history2) =
      process_stdin-text text rest e1 (a ++ c ∷ []) b t1 at1 h.1 in
    (
      e2,
      rw (step-insert e c t.0 h.0, step1) (rw (read_again-text e.mode c (text ++ rest) h.0) step2),
      t2,
      (
        at2.0 ∙ ap (λ (l : Bytes). l ++ b) (append_assoc a (c ∷ []) text),
        at2.1 ∙ ap length (append_assoc a (c ∷ []) text),
      ),
      sent2 ∙ sent1,
      history2 ∙ history1,
    )

process_stdin-enter : (e : Editor) → e.mode ≡ initial → process_stdin (b'\n' ∷ []) e ≡ ok (enter e)
unfolding process_stdin step_in on_key
process_stdin-enter e m = rw m

-- In an editor with no escape sequence under way and not in movement mode, a text typed anywhere in the
-- line, and then the newline key: the wrapped program is sent the whole
-- line with the text in its place, and a newline. The line becomes the last entry of the history,
-- in front of a new empty one, and editing starts again with an empty line.
pub process_stdin-line :
    (text : Bytes) (e : Editor) (a b : Bytes)
    → Typing e
    → Between a b e
    → AllText text
    → (e' : Editor) × (process_stdin (text ++ b'\n' ∷ []) e ≡ ok e')
      × (e'.sent ≡ e.sent ++ (((a ++ text) ++ b) ++ b'\n' ∷ []))
      × (e'.history ≡ pop_back e.history ++ (((a ++ text) ++ b) ∷ [] ∷ []))
      × (e'.combine ≡ [])
      × (e'.pos ≡ 0)
      × (e'.hispos + 1 ≡ length e'.history)
unfolding enter
process_stdin-line text e a b t at h =
    let (e1, run1, t1, at1, sent1, history1) = process_stdin-text text (b'\n' ∷ []) e a b t at h in
    (
      enter e1,
      run1 ∙ process_stdin-enter e1 t1.0,
      rw (sent1, at1.0),
      rw (history1, at1.0),
      refl,
      refl,
      omega (arith, length-append (pop_back e1.history) (e1.combine ∷ [] ∷ [])),
    )

-- From the newest entry, the line under edit, key up and then key down bring that line back.
pub history_down-up :
    (e : Editor)
    → 0 < e.hispos
    → e.hispos + 1 ≡ length e.history
    → (history_down (history_up e)).combine ≡ e.combine
unfolding history_up history_down
history_down-up e h k =
    ground
      (arith, length-append (pop_back e.history) (e.combine ∷ []), length-pop_back e.history, saved)
  where
    saved : get_or (pop_back e.history ++ e.combine ∷ []) e.hispos [] ≡ e.combine
    saved =
        let i : e.hispos ≡ length (pop_back e.history) = omega (arith, length-pop_back e.history) in
        rw i (get_or-concat (pop_back e.history) e.combine [])
