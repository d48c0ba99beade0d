-- ===== src/ExtProcess/Setup.antt =====
-- How an `ext_process` finds its program and the pipes of it: `determine_path_`,
-- `determine_binary_type_`, `setup_pipes_from_string_` and `setup_pipes` of src/ext_process.cc.
pub mod Binary
pub mod Found
use modglue.Common.{
  ℕ, zero, suc, ◌+◌, Bool, true, false, not, ◌||◌, ◌&&◌, List, [], ◌∷◌, ◌++◌, Option, none, some,
  Bytes, codes, leb, ◌==◌, equal, pred_u64, if◌then◌else◌, length, take, drop, get_or, Result, ok,
  throw, ◌>>=◌,
}
use modglue.Pipe.{Pipe, input, output, new_pipe, set_unix_style}
use modglue.ExtProcess.{ExtProcess}

-- `text.find(part) != npos`.
unfoldable pub starts : Bytes → Bytes → Bool
starts [] text = true
starts (c ∷ part) [] = false
starts (c ∷ part) (d ∷ text) = c == d && starts part text

unfoldable pub contains : Bytes → Bytes → Bool
unfolding starts
contains part [] = starts part []
contains part (d ∷ text) = starts part (d ∷ text) || contains part text

-- The parts of the system that `determine_path_` and `setup_pipes` ask: whether `stat` finds a file,
-- what `which` prints, what `realpath` leaves in its buffer, the bytes of a file, and what a program
-- prints when it is called with `--list-pipes`.
pub record Host : Type 0 where
  pub stat : Bytes → Bool
  pub which : Bytes → Bytes
  pub realpath : Bytes → Bytes
  pub file : Bytes → Bytes
  pub list_pipes : Bytes → Bytes

unfoldable pub find_path : Host → Bytes → Bytes
unfolding contains
find_path host name =
    let out = host.which name in
    if contains (b'/' ∷ []) name
    then if host.stat name then name else []
    else if not (contains (codes "no " ++ (name ++ codes " in")) out)
    then host.realpath (take (pred_u64 (length out)) out)
    else []

unfoldable pub determine_path : Host → ExtProcess → Result ExtProcess
unfolding find_path
determine_path host p =
    let path = find_path host p.name in
    if equal path []
    then throw (
        codes "modglue::ext_process::determine_path_: executable "
        ++ (p.name ++ codes " not found"))
    else ok (record p { full_path = path })

abbrev pub comp : Bytes
comp = codes "MODGLUE_1.0_BINARO"

-- The loop of `determine_binary_type_` over the bytes of the file, with `hit` bytes matched.
unfoldable pub scan_binary : ℕ → Bytes → Bool
scan_binary hit [] = false
scan_binary hit (c ∷ text) =
    let matches = c == get_or comp hit 0 in
    let rest = scan_binary (if matches then hit + 1 else 0) text in
    if matches && (hit + 1 == length comp) then true else rest

unfoldable pub determine_binary_type : Host → ExtProcess → ExtProcess
unfolding scan_binary
determine_binary_type host p = record p { modglue_binary = scan_binary 0 (host.file p.full_path) }

abbrev pub is_space : ℕ → Bool
is_space c = c == 32 || (leb 9 c && leb c 13)

unfoldable pub skip_space : Bytes → Bytes
skip_space [] = []
skip_space (c ∷ text) = if is_space c then skip_space text else c ∷ text

-- `%99s` behind the white space: at most `n` bytes that are no white space.
unfoldable pub scan_word : ℕ → Bytes → Bytes × Bytes
scan_word zero text = ([], text)
scan_word (suc n) [] = ([], [])
scan_word (suc n) (c ∷ text) =
    let rest = scan_word n text in if is_space c then ([], c ∷ text) else (c ∷ rest.0, rest.1)

-- `c` and then a conversion `%99s`, which fails on no byte.
unfoldable pub scan_field : ℕ → Bytes → Option (Bytes × Bytes)
scan_field c [] = none
scan_field c (d ∷ text) =
    let word = scan_word 99 (skip_space text) in
    if c == d then (if equal word.0 [] then none else some word) else none

-- `sscanf(line, "{ %99s , %99s }\n", pipename, iotype)==2`.
unfoldable pub scan_line : Bytes → Option (Bytes × Bytes)
unfolding scan_field scan_word skip_space
scan_line line = elim (scan_field b'{' line) [
  | none ↦ none
  | some (pipename, rest) ↦ elim (scan_field b',' (skip_space rest)) [
    | none ↦ none
    | some (iotype, _) ↦ some (pipename, iotype)
  ]
]

-- The lines that `getline` finds, before the first zero byte. The second argument is the line so
-- far.
unfoldable pub get_lines : Bytes → Bytes → List Bytes
get_lines [] line = if equal line [] then [] else line ∷ []
get_lines (c ∷ text) line =
    let more = get_lines text (line ++ c ∷ []) in
    let next = get_lines text [] in
    if c == 0
    then if equal line [] then [] else line ∷ []
    else if c == b'\n'
    then line ∷ next
    else more

-- The name without its first and its last byte, the quotes.
abbrev pub unquote : Bytes → Bytes
unquote pipename = let s1 = drop 1 pipename in take (pred_u64 (length s1)) s1

-- One round of `setup_pipes_from_string_`. The direction is flipped, as we are at the other side.
unfoldable pub add_line : Bytes → ExtProcess → Result ExtProcess
add_line line p = elim (scan_line line) [
  | none ↦ ok p
  | some (pipename, iotype) ↦
      if equal iotype (codes "output")
      then ok (record p { input_pipes = p.input_pipes ++ new_pipe input (unquote pipename) ∷ [] })
      else if equal iotype (codes "input")
      then ok
          (record p { output_pipes = p.output_pipes ++ new_pipe output (unquote pipename) ∷ [] })
      else throw (codes "modglue::ext_process::setup_pipes_from_string_: parse error")
]

unfoldable pub add_lines : List Bytes → ExtProcess → Result ExtProcess
add_lines [] p = ok p
add_lines (line ∷ lines) p = do q ← add_line line p; add_lines lines q

unfoldable pub setup_pipes_from_string : Bytes → ExtProcess → Result ExtProcess
unfolding add_lines add_line scan_line get_lines
setup_pipes_from_string desc p = add_lines (get_lines desc []) p

unfoldable pub is_nil {ℓ} : {A : Type ℓ} → List A → Bool
is_nil [] = true
is_nil (x ∷ xs) = false

-- The second loop of `setup_pipes` counts the output pipes and sets input pipes.
unfoldable pub set_first : ℕ → List Pipe → List Pipe
set_first zero ps = ps
set_first (suc n) [] = []
set_first (suc n) (p ∷ ps) = set_unix_style p ∷ set_first n ps

unfoldable pub unix_pipes : ExtProcess → ExtProcess
unfolding set_first
unix_pipes p =
    let outs =
      p.output_pipes
      ++ (new_pipe output (codes "startup_args") ∷ new_pipe output (codes "stdin") ∷ []) in
    let ins =
      p.input_pipes ++ (new_pipe input (codes "stdout") ∷ new_pipe input (codes "stderr") ∷ []) in
    record p {
      output_pipes = outs;
      input_pipes = set_first (length outs) (set_first (length ins) ins);
    }

unfoldable pub modglue_pipes : Host → ExtProcess → Result ExtProcess
modglue_pipes host p = do
  q ←
      setup_pipes_from_string (host.list_pipes p.full_path)
        (record p { output_pipes = p.output_pipes ++ new_pipe output (codes "startup_args") ∷ [] })
  if is_nil q.input_pipes && (length q.output_pipes == 1)
      then throw (codes "moglue::ext_process::setup_pipes: process reports no pipes.")
      else ok q

abbrev pub assertion : Bytes
assertion = codes "Assertion failed"

unfoldable pub setup_pipes : Host → ExtProcess → Result ExtProcess
unfolding is_nil modglue_pipes unix_pipes determine_binary_type determine_path
setup_pipes host p =
    if is_nil p.output_pipes && is_nil p.input_pipes
    then (do
      found ← determine_path host p
      let typed = determine_binary_type host found
      done ← if typed.modglue_binary then modglue_pipes host typed else ok (unix_pipes typed)
      ok (record done { pipes_done = true }))
    else throw assertion
