-- ===== src/ExtProcess/Ledger/Fresh.antt =====
-- The pipes that `setup_pipes` makes hold no descriptor.
use modglue.Common.{
  ℕ, zero, suc, ◌+◌, ◌≡◌, refl, sym, ◌∙◌, ◌&&◌, inl, inr, true, List, [], ◌∷◌, ◌++◌, Bytes, codes,
  if◌then◌else◌, length, arith, ok, >>=-eq-ok, Bool-cases, if-cases, Option-cases,
}
use modglue.Pipe.{Pipe, Direction, input, output, new_pipe, set_unix_style}
use modglue.Pipe.Ledger.{count, count-append, held}
use modglue.ExtProcess.{ExtProcess}
use modglue.ExtProcess.Setup.{
  Host, unquote, setup_pipes, is_nil, add_line, add_lines, setup_pipes_from_string, scan_line,
  set_first, unix_pipes, modglue_pipes, determine_path, determine_binary_type, get_lines,
}
use modglue.ExtProcess.Ledger.{all_held, holds}

-- An object with the descriptors of another, one more or less being no matter where it holds none.
abbrev SameHeld : ℕ → ExtProcess → ExtProcess → Type 0
SameHeld n p q = holds n q ≡ holds n p

count-all_held-append :
    (n : ℕ) (ps qs : List Pipe)
    → count n (all_held (ps ++ qs)) ≡ count n (all_held ps) + count n (all_held qs)
count-all_held-append n [] qs = omega arith
count-all_held-append n (p ∷ ps) qs = omega (
  arith,
  count-append n (held p) (all_held (ps ++ qs)),
  count-append n (held p) (all_held ps),
  count-all_held-append n ps qs,
)

count-all_held-new :
    (n : ℕ) (ps : List Pipe) (d : Direction) (name : Bytes)
    → count n (all_held (ps ++ new_pipe d name ∷ [])) ≡ count n (all_held ps)
unfolding new_pipe
count-all_held-new n ps d name = omega (arith, count-all_held-append n ps (new_pipe d name ∷ []))

add_line-SameHeld :
    (n : ℕ) (line : Bytes) (p : ExtProcess) {q : ExtProcess}
    → add_line line p ≡ ok q
    → SameHeld n p q
unfolding add_line
add_line-SameHeld n line p h = elim (Option-cases (scan_line line)) [
  | inl nothing ↦ ground arith
  | inr ((pipename, iotype), e) ↦ ground (
    arith,
    count-all_held-new n p.input_pipes input (unquote pipename),
    count-all_held-new n p.output_pipes output (unquote pipename),
  )
]

add_lines-SameHeld :
    (n : ℕ) (lines : List Bytes) (p : ExtProcess) {q : ExtProcess}
    → add_lines lines p ≡ ok q
    → SameHeld n p q
unfolding add_lines
add_lines-SameHeld n [] p {q} h = let same : p ≡ q = cc in rw (sym same) refl
add_lines-SameHeld n (line ∷ lines) p h =
    let (first, one, more) = >>=-eq-ok (add_line line p) _ h in
    add_lines-SameHeld n lines first more ∙ add_line-SameHeld n line p one

count-all_held-set_first :
    (n k : ℕ) (ps : List Pipe) → count n (all_held (set_first k ps)) ≡ count n (all_held ps)
unfolding set_first set_unix_style
count-all_held-set_first n zero ps = refl
count-all_held-set_first n (suc k) [] = refl
count-all_held-set_first n (suc k) (p ∷ ps) = omega (
  arith,
  count-append n (held p) (all_held ps),
  count-append n (held p) (all_held (set_first k ps)),
  count-all_held-set_first n k ps,
)

unix_pipes-SameHeld : (n : ℕ) (p : ExtProcess) → SameHeld n p (unix_pipes p)
unfolding unix_pipes new_pipe
unix_pipes-SameHeld n p =
    let outs = new_pipe output (codes "startup_args") ∷ new_pipe output (codes "stdin") ∷ [] in
    let ins = new_pipe input (codes "stdout") ∷ new_pipe input (codes "stderr") ∷ [] in
    let all_ins = p.input_pipes ++ ins in
    omega (
      arith,
      count-all_held-append n p.output_pipes outs,
      count-all_held-append n p.input_pipes ins,
      count-all_held-set_first n (length all_ins) all_ins,
      count-all_held-set_first n (length (p.output_pipes ++ outs))
          (set_first (length all_ins) all_ins),
    )

modglue_pipes-SameHeld :
    (n : ℕ) (host : Host) (p : ExtProcess) {q : ExtProcess}
    → modglue_pipes host p ≡ ok q
    → SameHeld n p q
unfolding modglue_pipes setup_pipes_from_string
modglue_pipes-SameHeld n host p {q} h =
    let start = record p {
      output_pipes = p.output_pipes ++ new_pipe output (codes "startup_args") ∷ [];
    } in
    let (r, read, e) =
      >>=-eq-ok (setup_pipes_from_string (host.list_pipes p.full_path) start) _ h in
    let same : r ≡ q = ground arith in
    rw (sym same) (
      add_lines-SameHeld n (get_lines (host.list_pipes p.full_path) []) start read
      ∙ omega (arith, count-all_held-new n p.output_pipes output (codes "startup_args")))

determine_path-SameHeld :
    (n : ℕ) (host : Host) (p : ExtProcess) {q : ExtProcess}
    → determine_path host p ≡ ok q
    → SameHeld n p q
unfolding determine_path
determine_path-SameHeld n host p h = ground arith

made-SameHeld :
    (n : ℕ) (host : Host) (p : ExtProcess) {q : ExtProcess}
    → (if p.modglue_binary then modglue_pipes host p else ok (unix_pipes p)) ≡ ok q
    → SameHeld n p q
made-SameHeld n host p {q} h = elim (if-cases p.modglue_binary _ _ h) [
  | inl ours ↦ modglue_pipes-SameHeld n host p ours
  | inr plain ↦ let same : unix_pipes p ≡ q = cc in rw (sym same) (unix_pipes-SameHeld n p)
]

-- `setup_pipes` changes nothing of what an object holds.
pub setup_pipes-SameHeld :
    (n : ℕ) (host : Host) (p : ExtProcess) {q : ExtProcess}
    → setup_pipes host p ≡ ok q
    → holds n q ≡ holds n p
unfolding setup_pipes
setup_pipes-SameHeld n host p {q} h =
    elim (Bool-cases (is_nil p.output_pipes && is_nil p.input_pipes)) [
      | inr some_pipes ↦ cc (rw some_pipes at h)
      | inl no_pipes ↦
          let (found, path, h') =
            >>=-eq-ok (determine_path host p) _ (rw (no_pipes, setup_pipes) at h) in
          let typed = determine_binary_type host found in
          let (done, made, e) =
            >>=-eq-ok
              (if typed.modglue_binary then modglue_pipes host typed else ok (unix_pipes typed)) _
              h' in
          let same : record done { pipes_done = true } ≡ q = ground arith in
          rw (sym same) (
            made-SameHeld n host typed made
            ∙ (unfold determine_binary_type in determine_path-SameHeld n host p path))
    ]
