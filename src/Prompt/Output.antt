-- ===== src/Prompt/Output.antt =====
-- The output side of src/prompt.cc: `receive_stdout`, which copies the program's output to the
-- terminal and obeys its escape code ESC $ text $, and `sigcont_handler`.
pub mod Cuts
pub mod Filled
use modglue.Common.{
  ℕ, ◌<◌, ◌^◌, ◌≡◌, Bool, true, false, List, [], ◌∷◌, ◌++◌, map, arith, Bytes, ◌==◌, equal,
  if◌then◌else◌, sub_u32, length, drop, leb, ◌-◌, ◌&&◌, throw,
}
use modglue.Prompt.{
  Editor, initial, TermOp, put, newline, redraw_line, show, out_of_range, step, step_in, on_key,
  backspace,
}

pub data WriteMode : Type 0 where
  w_normal w_fill : WriteMode

-- The editor with the static `wmode` and the global `last_output_line`.
pub record Console : Type 0 where
  pub editor : Editor
  pub wmode : WriteMode
  pub last_output_line : Bytes

-- A byte of the program's output on the terminal.
abbrev pub emit : ℕ → TermOp
emit c = if c == b'\n' then newline else put c

-- The escape ESC $ starts a fill where at least one byte of the same buffer stands behind it.
abbrev pub starts_fill : Bytes → Bool
starts_fill (d ∷ next ∷ rest) = d == b'$'
starts_fill _ = false

unfoldable pub copy : Console → ℕ → Console
copy k c = record k {
  editor = show k.editor (emit c ∷ []);
  last_output_line = if c == b'\n' then [] else k.last_output_line ++ c ∷ [];
}

-- One byte in mode `w_fill`. `pos-1` wraps at zero.
unfoldable pub fill : Console → ℕ → Console
fill k c =
    if c == b'$'
    then (let e = k.editor in
        record k {
          wmode = w_normal;
          editor = show e (redraw_line e.combine e.pos (sub_u32 e.pos 1));
        })
    else record k { editor = record k.editor { combine = k.editor.combine ++ c ∷ [] } }

unfoldable pub begin_fill : Console → Console
begin_fill k = record k { wmode = w_fill; editor = record k.editor { combine = [] } }

-- The loop over the buffer; the flag says that the byte before was the ESC of a fill, so that this
-- one, the dollar, is skipped by the `++i`.
pub transfer : Bool → Bytes → Console → Console
unfolding copy fill begin_fill
transfer skip [] k = k
transfer true (c ∷ rest) k = transfer false rest k
transfer false (c ∷ rest) k =
    let begins = c == 27 && starts_fill rest in
    transfer (elim k.wmode [ w_normal ↦ begins | w_fill ↦ false ]) rest
      (elim k.wmode [ w_normal ↦ if begins then begin_fill k else copy k c | w_fill ↦ fill k c ])

-- `strncmp("\033[u", &(buffer[len-3]), 3)`: the program switches to movement mode.
pub ends_moving : Bytes → Bool
ends_moving buffer =
    leb 3 (length buffer) && equal (drop (length buffer - 3) buffer) (27 ∷ b'[' ∷ b'u' ∷ [])

-- One round of the loop of `receive_stdout`, on what one `read` delivered.
unfoldable pub receive_buffer : Bytes → Console → Console
unfolding ends_moving transfer
receive_buffer buffer k =
    let moved =
      if ends_moving buffer then record k { editor = record k.editor { moving = true } } else k in
    transfer false buffer moved

-- The buffers are what the calls of `read` deliver until one delivers nothing.
unfoldable pub receive_stdout : List Bytes → Console → Console
unfolding receive_buffer
receive_stdout [] k = k
receive_stdout (buffer ∷ more) k = receive_stdout more (receive_buffer buffer k)

-- `sigcont_handler`: after a stop the line is written again, behind the program's last output.
unfoldable pub on_continue : Console → Console
on_continue k =
    let e = k.editor in
    record k { editor = show e (map put k.last_output_line ++ redraw_line e.combine 0 e.pos) }

-- A fill by the empty text leaves the cursor where it was, beyond the end of the line, and the next
-- backspace throws `out_of_range`: whatever the line was, if the cursor was not at its start.
pub backspace_empty_fill :
    (k : Console)
    → k.wmode ≡ w_normal
    → k.editor.mode ≡ initial
    → 0 < k.editor.pos
    → k.editor.pos < 2 ^ 32
    → step (receive_stdout ((27 ∷ b'$' ∷ b'$' ∷ []) ∷ []) k).editor 127 ≡ throw out_of_range
unfolding receive_stdout step_in on_key backspace equal
backspace_empty_fill k normal first moved fits = ground arith
