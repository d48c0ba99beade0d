-- ===== src/Main/Listing.antt =====
-- The list of pipes: printed by `build_pipe_list`, read by `setup_pipes_from_string_`.
pub mod Line
use modglue.Common.{
  ℕ, zero, suc, ◌≤◌, ◌≡◌, ◌≢◌, refl, ap, ◌∙◌, false, List, [], ◌∷◌, ◌++◌, some, Bytes, codes, equal,
  arith, append_assoc, append-nil, ok, length, take-length-append, length-append, pred_u64,
}
use modglue.Pipe.{Pipe, new_pipe, input, output}
use modglue.ExtProcess.Setup.{
  setup_pipes_from_string, is_space, scan_word, skip_space, scan_line, scan_field, get_lines,
  unquote, add_line, add_lines,
}
use modglue.ExtProcess.{ExtProcess}
use modglue.Main.{Main, build_pipe_list, pipe_line, pipe_lines}
use modglue.Main.Listing.Line.{
  IsPlain, NoBreak, get_lines-line, IsListed, quoted, body, IsKind, scan_line-body, unquote-quoted,
  pipe_line-body, NoBreak-body,
}

abbrev pub AreListed : List Pipe → Type 0
AreListed [] = Unit {0}
AreListed (p ∷ ps) = IsListed p × AreListed ps

bodies : Bytes → List Pipe → List Bytes
bodies kind [] = []
bodies kind (p ∷ ps) = body p.name kind ∷ bodies kind ps

get_lines-pipe_lines :
    (kind : Bytes) (ps : List Pipe) (rest : Bytes)
    → IsPlain kind
    → AreListed ps
    → get_lines (pipe_lines kind ps ++ rest) [] ≡ bodies kind ps ++ get_lines rest []
unfolding pipe_lines bodies
get_lines-pipe_lines kind [] rest k h = refl
get_lines-pipe_lines kind (p ∷ ps) rest k h =
    ap (λ (t : Bytes). get_lines t [])
      (append_assoc (pipe_line kind p) (pipe_lines kind ps) rest
        ∙ pipe_line-body kind p (pipe_lines kind ps ++ rest))
    ∙ get_lines-line (body p.name kind) [] (pipe_lines kind ps ++ rest)
        (NoBreak-body p.name kind h.0.0 k)
    ∙ ap (◌∷◌ (body p.name kind)) (get_lines-pipe_lines kind ps rest k h.1)

-- The pipes at the other side.
abbrev pub flipped_inputs : List Pipe → List Pipe
flipped_inputs [] = []
flipped_inputs (p ∷ ps) = new_pipe input p.name ∷ flipped_inputs ps

abbrev pub flipped_outputs : List Pipe → List Pipe
flipped_outputs [] = []
flipped_outputs (p ∷ ps) = new_pipe output p.name ∷ flipped_outputs ps

IsKind-input : IsKind (codes "input")
IsKind-input = ground arith

IsKind-output : IsKind (codes "output")
IsKind-output = ground arith

add_line-scanned :
    (line pipename : Bytes) (p : ExtProcess)
    → (scan_line line ≡ some (pipename, codes "input")
        → add_line line p
          ≡ ok (record p {
            output_pipes = p.output_pipes ++ new_pipe output (unquote pipename) ∷ [];
          }))
      × (scan_line line ≡ some (pipename, codes "output")
          → add_line line p
            ≡ ok (record p {
              input_pipes = p.input_pipes ++ new_pipe input (unquote pipename) ∷ [];
            }))
unfolding add_line equal
add_line-scanned line pipename p = (λ e. rw (e, add_line), λ e. rw (e, add_line))

add_line-input :
    (q : Pipe) (p : ExtProcess)
    → IsListed q
    → add_line (body q.name (codes "input")) p
      ≡ ok (record p { output_pipes = p.output_pipes ++ new_pipe output q.name ∷ [] })
add_line-input q p h =
    (add_line-scanned _ (quoted q.name) p).0
      (scan_line-body q.name (codes "input") h.0 h.1 IsKind-input)
    ∙ ap
        (λ (name : Bytes).
          ok (record p { output_pipes = p.output_pipes ++ new_pipe output name ∷ [] }))
        (unquote-quoted q.name)

add_line-output :
    (q : Pipe) (p : ExtProcess)
    → IsListed q
    → add_line (body q.name (codes "output")) p
      ≡ ok (record p { input_pipes = p.input_pipes ++ new_pipe input q.name ∷ [] })
add_line-output q p h =
    (add_line-scanned _ (quoted q.name) p).1
      (scan_line-body q.name (codes "output") h.0 h.1 IsKind-output)
    ∙ ap
        (λ (name : Bytes).
          ok (record p { input_pipes = p.input_pipes ++ new_pipe input name ∷ [] }))
        (unquote-quoted q.name)

add_lines-input :
    (ps : List Pipe) (more : List Bytes) (p : ExtProcess)
    → AreListed ps
    → add_lines (bodies (codes "input") ps ++ more) p
      ≡ add_lines more (record p { output_pipes = p.output_pipes ++ flipped_outputs ps })
unfolding add_lines bodies
add_lines-input [] more p h = rw append-nil
add_lines-input (q ∷ ps) more p h =
    rw (add_line-input q p h.0) (add_lines-input ps more _ h.1)
    ∙ ap (λ (outs : List Pipe). add_lines more (record p { output_pipes = outs }))
        (append_assoc p.output_pipes (new_pipe output q.name ∷ []) (flipped_outputs ps))

add_lines-output :
    (ps : List Pipe) (more : List Bytes) (p : ExtProcess)
    → AreListed ps
    → add_lines (bodies (codes "output") ps ++ more) p
      ≡ add_lines more (record p { input_pipes = p.input_pipes ++ flipped_inputs ps })
unfolding add_lines bodies
add_lines-output [] more p h = rw append-nil
add_lines-output (q ∷ ps) more p h =
    rw (add_line-output q p h.0) (add_lines-output ps more _ h.1)
    ∙ ap (λ (ins : List Pipe). add_lines more (record p { input_pipes = ins }))
        (append_assoc p.input_pipes (new_pipe input q.name ∷ []) (flipped_inputs ps))

-- The list of pipes that a program prints, read at the other side: each of its input pipes becomes
-- an output pipe there and each of its output pipes an input pipe, with the same names, in order, if
-- the names have no white space and no zero byte, and at most 97 bytes.
pub setup_pipes_from_string-build_pipe_list :
    (m : Main) (p : ExtProcess)
    → AreListed m.ipipes
    → AreListed m.opipes
    → setup_pipes_from_string (build_pipe_list m) p
      ≡ ok (record p {
        input_pipes = p.input_pipes ++ flipped_inputs m.opipes;
        output_pipes = p.output_pipes ++ flipped_outputs m.ipipes;
      })
unfolding setup_pipes_from_string build_pipe_list
setup_pipes_from_string-build_pipe_list m p hi ho =
    ap (λ (lines : List Bytes). add_lines lines p)
      (get_lines-pipe_lines (codes "input") m.ipipes _ IsKind-input.0 hi
        ∙ ap (◌++◌ (bodies (codes "input") m.ipipes))
            (get_lines-pipe_lines (codes "output") m.opipes (0 ∷ []) IsKind-output.0 ho))
    ∙ add_lines-input m.ipipes _ p hi
    ∙ add_lines-output m.opipes _ _ ho
    ∙ unfold equal add_lines in refl
