-- ===== src/Prompt/Output/Filled.antt =====
-- What the wrapped program's output does to the terminal and to the line, in src/prompt.cc.
use modglue.Common.{
  ℕ, ◌≡◌, refl, sym, ap, ◌∙◌, Bool, false, List, [], ◌∷◌, ◌++◌, map, append_assoc, append-nil,
  Bytes, ◌==◌, if◌then◌else◌, ◌&&◌, sub_u32,
}
use modglue.Pipe.Buffer.Flush.{concat}
use modglue.Prompt.{TermOp, redraw_line}
use modglue.Prompt.Output.{
  WriteMode, w_normal, w_fill, Console, emit, copy, fill, begin_fill, receive_stdout,
}
use modglue.Prompt.Output.Cuts.{
  whole, NoneCuts, with_moving, receive_stdout-whole, starts_with_dollar,
}

-- Bytes other than one.
abbrev pub NoneIs : ℕ → Bytes → Type 0
NoneIs x [] = Unit {0}
NoneIs x (c ∷ text) = (c == x ≡ false) × NoneIs x text

-- The last line of an output, with what stood there before.
abbrev pub last_line : Bytes → Bytes → Bytes
last_line line [] = line
last_line line (c ∷ text) = last_line (if c == b'\n' then [] else line ++ c ∷ []) text

-- The console with the output on the terminal.
abbrev pub copied : Bytes → Console → Console
copied text k = record k {
  editor = record k.editor { shown = k.editor.shown ++ map emit text };
  last_output_line = last_line k.last_output_line text;
}

whole_nil : (k : Console) → whole false [] k ≡ k
unfolding whole
whole_nil k = refl

-- One byte, in the mode that the console is in.
by_mode : ℕ → Bytes → Console → WriteMode → Console
by_mode c rest k w =
    let begins = c == 27 && starts_with_dollar rest in
    whole (elim w [ w_normal ↦ begins | w_fill ↦ false ]) rest
      (elim w [ w_normal ↦ if begins then begin_fill k else copy k c | w_fill ↦ fill k c ])

whole-by_mode :
    (c : ℕ) (rest : Bytes) (k : Console) (w : WriteMode)
    → k.wmode ≡ w
    → whole false (c ∷ rest) k ≡ by_mode c rest k w
unfolding whole by_mode
whole-by_mode c rest k w e = ap (by_mode c rest k) e

copied-cons : (c : ℕ) (text : Bytes) (k : Console) → copied text (copy k c) ≡ copied (c ∷ text) k
unfolding copy
copied-cons c text k =
    ap
      (λ (shown : List TermOp). record k {
        editor = record k.editor { shown = shown };
        last_output_line = last_line k.last_output_line (c ∷ text);
      })
      (append_assoc k.editor.shown (emit c ∷ []) (map emit text))

whole-copy :
    (c : ℕ) (rest : Bytes) (k : Console)
    → k.wmode ≡ w_normal
    → (c == 27) ≡ false
    → whole false (c ∷ rest) k ≡ whole false rest (copy k c)
unfolding by_mode
whole-copy c rest k normal no_escape = whole-by_mode c rest k w_normal normal ∙ rw no_escape refl

whole-copied :
    (text rest : Bytes) (k : Console)
    → k.wmode ≡ w_normal
    → NoneIs 27 text
    → whole false (text ++ rest) k ≡ whole false rest (copied text k)
whole-copied [] rest k normal plain =
    ap
      (λ (shown : List TermOp).
        whole false rest (record k { editor = record k.editor { shown = shown } }))
      (sym (append-nil k.editor.shown))
whole-copied (c ∷ text) rest k normal (no_escape, plain) =
    whole-copy c (text ++ rest) k normal no_escape
    ∙ whole-copied text rest (copy k c) (unfold copy in normal) plain
    ∙ ap (whole false rest) (copied-cons c text k)

-- The console in a fill, with a text in the line.
abbrev filled : Bytes → Console → Console
filled text k = record k { editor = record k.editor { combine = k.editor.combine ++ text } }

whole-fill :
    (c : ℕ) (rest : Bytes) (k : Console)
    → k.wmode ≡ w_fill
    → (c == b'$') ≡ false
    → whole false (c ∷ rest) k ≡ whole false rest (filled (c ∷ []) k)
unfolding by_mode fill
whole-fill c rest k fills no_dollar = whole-by_mode c rest k w_fill fills ∙ rw no_dollar refl

whole-filled :
    (text rest : Bytes) (k : Console)
    → k.wmode ≡ w_fill
    → NoneIs b'$' text
    → whole false (text ++ rest) k ≡ whole false rest (filled text k)
whole-filled [] rest k fills plain =
    ap
      (λ (line : Bytes).
        whole false rest (record k { editor = record k.editor { combine = line } }))
      (sym (append-nil k.editor.combine))
whole-filled (c ∷ text) rest k fills (no_dollar, plain) =
    whole-fill c (text ++ rest) k fills no_dollar
    ∙ whole-filled text rest (filled (c ∷ []) k) fills plain
    ∙ ap
        (λ (line : Bytes).
          whole false rest (record k { editor = record k.editor { combine = line } }))
        (append_assoc k.editor.combine (c ∷ []) text)

-- The console behind a fill.
abbrev pub after_fill : Bytes → Console → Console
after_fill text k = record k {
  wmode = w_normal;
  editor = record k.editor {
    combine = text;
    shown = k.editor.shown ++ redraw_line text k.editor.pos (sub_u32 k.editor.pos 1);
  };
}

whole-after_fill :
    (text rest : Bytes) (k : Console)
    → k.wmode ≡ w_normal
    → NoneIs b'$' text
    → whole false (27 ∷ b'$' ∷ (text ++ (b'$' ∷ rest))) k ≡ whole false rest (after_fill text k)
whole-after_fill text rest k normal plain =
    let k' : Console = record k { wmode = w_fill; editor = record k.editor { combine = [] } } in
    whole-by_mode 27 (b'$' ∷ (text ++ (b'$' ∷ rest))) k w_normal normal
    ∙ unfold by_mode in
      unfold begin_fill in
      unfold whole in
      whole-filled text (b'$' ∷ rest) k' refl plain
      ∙ whole-by_mode b'$' rest (filled text k') w_fill refl
      ∙ unfold by_mode in unfold fill in refl

-- The output of the wrapped program, however it is cut, holds a fill between two texts without ESC,
-- and no piece ends in ESC or in ESC and a dollar: the terminal gets the first text, the line drawn
-- anew, and the second text; the text of the fill, which has no dollar, is the line to edit, with the
-- cursor's place as it was; and the last line of the output is that of the two texts, without the
-- fill. The equation is up to the flag `moving`.
pub receive_stdout-fill :
    (m : Bool) (bs : List Bytes) (first text second : Bytes) (k : Console)
    → k.wmode ≡ w_normal
    → concat bs ≡ first ++ (27 ∷ b'$' ∷ (text ++ (b'$' ∷ second)))
    → NoneCuts bs
    → NoneIs 27 first
    → NoneIs b'$' text
    → NoneIs 27 second
    → with_moving m (receive_stdout bs k)
      ≡ with_moving m (copied second (after_fill text (copied first k)))
receive_stdout-fill m bs first text second k normal output clean plain no_dollar plain' =
    receive_stdout-whole m bs k clean
    ∙ ap (with_moving m) (
        ap (λ (all : Bytes). whole false all k) output
        ∙ whole-copied first _ k normal plain
        ∙ whole-after_fill text second (copied first k) normal no_dollar
        ∙ ap (λ (all : Bytes). whole false all (after_fill text (copied first k)))
            (sym (append-nil second))
        ∙ whole-copied second [] (after_fill text (copied first k)) refl plain'
        ∙ whole_nil (copied second (after_fill text (copied first k))))
