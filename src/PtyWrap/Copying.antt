-- ===== src/PtyWrap/Copying.antt =====
-- What `ptywrap` copies, up to the end of the wrapped program.
use modglue.Common.{
  ℕ, ◌<◌, ◌≡◌, ◌∙◌, refl, Bool, true, false, List, [], ◌∷◌, ◌++◌, Option, none, some, Bytes, negsuc,
  signed_char, arith, append_assoc, append-nil, ◌≤◌, ◌⊎◌, inl, inr, length, take_all,
}
use modglue.System.{ReadAnswer, got, interrupted, failed}
use modglue.PtyWrap.{
  Ready, taken, Answers, Wrap, new_wrap, copied, wrap_round, wrap_loop, last_reads, is_minus_one,
  wrap,
}

-- Bytes that are delivered and a `write` that succeeds, or a descriptor that is not reported.
abbrev pub IsCopied : Option Ready → Type 0
IsCopied none = Unit {0}
IsCopied (some ready) =
    ((n : ℕ) × (ready.written ≡ some n))
    × ((c : ℕ) × (text : Bytes) × (ready.answer ≡ got (c ∷ text)))

abbrev text_of : ReadAnswer → Bytes
text_of (got text) = text
text_of _ = []

-- What is written of a stream, and what is read of it.
abbrev pub bytes : Option Ready → Bytes
bytes none = []
bytes (some ready) = taken ready.written (text_of ready.answer)

abbrev pub read_bytes : Option Ready → Bytes
read_bytes none = []
read_bytes (some ready) = text_of ready.answer

-- A `write` that takes all that was read.
abbrev pub IsWhole : Option Ready → Type 0
IsWhole none = Unit {0}
IsWhole (some ready) = (n : ℕ) × (ready.written ≡ some n) × (length (text_of ready.answer) ≤ n)

-- A round in which all streams are copied and the program has not ended.
pub record IsQuiet (a : Answers) : Type 0 where
  pub running : a.sig_chld ≡ none
  pub stdin_copied : IsCopied a.on_stdin
  pub stdout_copied : IsCopied a.on_stdout
  pub stderr_copied : IsCopied a.on_stderr

abbrev pub AreQuiet : List Answers → Type 0
AreQuiet [] = Unit {0}
AreQuiet (a ∷ answers) = IsQuiet a × AreQuiet answers

-- All bytes of a stream that are written.
abbrev written : (Answers → Option Ready) → List Answers → Bytes
written f [] = []
written f (a ∷ answers) = bytes (f a) ++ written f answers

-- All bytes of a stream that are read.
abbrev pub streamed : (Answers → Option Ready) → List Answers → Bytes
streamed f [] = []
streamed f (a ∷ answers) = read_bytes (f a) ++ streamed f answers

abbrev pub AreWhole : (Answers → Option Ready) → List Answers → Type 0
AreWhole f [] = Unit {0}
AreWhole f (a ∷ answers) = IsWhole (f a) × AreWhole f answers

bytes-whole : (r : Option Ready) → IsWhole r → bytes r ≡ read_bytes r
bytes-whole none h = refl
bytes-whole (some ready) (n, all, enough) = rw all (take_all n (text_of ready.answer) enough)

written-streamed :
    (f : Answers → Option Ready) (answers : List Answers)
    → AreWhole f answers
    → written f answers ≡ streamed f answers
written-streamed f [] h = refl
written-streamed f (a ∷ answers) (h, hs) =
    rw (bytes-whole (f a) h, written-streamed f answers hs) refl

-- What is read at the end, up to the end of the file or an error.
abbrev pub last_streamed : List Ready → Bytes
last_streamed [] = []
last_streamed (ready ∷ answers) =
    let rest = last_streamed answers in
    elim ready.answer [
      | got [] ↦ []
      | got (c ∷ text) ↦ (c ∷ text) ++ rest
      | interrupted ↦ []
      | failed ↦ []
    ]

abbrev pub LastWhole : List Ready → Type 0
LastWhole [] = Unit {0}
LastWhole (ready ∷ answers) = IsWhole (some ready) × LastWhole answers

ReadAnswer-cases :
    (r : ReadAnswer)
    → ((r ≡ got []) ⊎ ((c : ℕ) × (text : Bytes) × (r ≡ got (c ∷ text))))
      ⊎ ((r ≡ interrupted) ⊎ (r ≡ failed))
ReadAnswer-cases (got []) = inl (inl refl)
ReadAnswer-cases (got (c ∷ text)) = inl (inr (c, text, refl))
ReadAnswer-cases interrupted = inr (inl refl)
ReadAnswer-cases failed = inr (inr refl)

last_reads-streamed :
    (answers : List Ready) → LastWhole answers → last_reads answers ≡ last_streamed answers
unfolding last_reads
last_reads-streamed [] h = refl
last_reads-streamed (ready ∷ answers) ((n, all, enough), hs) =
    elim (ReadAnswer-cases ready.answer) [
      | inl (inl at_end) ↦ rw at_end refl
      | inl (inr (c, text, e)) ↦
          let fits : length (c ∷ text) ≤ n = rw e at enough in
          rw (e, all, take_all n (c ∷ text) fits, last_reads-streamed answers hs) refl
      | inr (inl again) ↦ rw again refl
      | inr (inr error) ↦ rw error refl
    ]

copied-bytes : (at_end : Bool) (r : Option Ready) → IsCopied r → copied at_end r ≡ (bytes r, true)
unfolding copied
copied-bytes at_end none h = refl
copied-bytes at_end (some r) ((n, w), (c, text, e)) = rw (e, w) refl

after : Answers → Wrap → Wrap
after a w = record w {
  to_program = w.to_program ++ bytes a.on_stdin;
  out = w.out ++ bytes a.on_stdout;
  err = w.err ++ bytes a.on_stderr;
}

round-after : (a : Answers) (w : Wrap) → IsQuiet a → wrap_round a w ≡ (after a w, true)
unfolding wrap_round after
round-after a w q =
    rw
      (
        q.running,
        copied-bytes true a.on_stdin q.stdin_copied,
        copied-bytes false a.on_stdout q.stdout_copied,
        copied-bytes false a.on_stderr q.stderr_copied,
      )
      refl

-- The round in which the byte of the signal handler is there.
abbrev pub end_round : ℕ → Answers
end_round code = record {
  sig_chld = some code;
  on_stdin = none;
  on_stdout = none;
  on_stderr = none;
}

loop-written :
    (answers : List Answers) (code : ℕ) (w : Wrap)
    → AreQuiet answers
    → wrap_loop (answers ++ end_round code ∷ []) w
      ≡ some (record {
        to_program = w.to_program ++ written (λ a. a.on_stdin) answers;
        out = w.out ++ written (λ a. a.on_stdout) answers;
        err = w.err ++ written (λ a. a.on_stderr) answers;
        retcode = signed_char code;
      })
unfolding wrap_loop wrap_round after
loop-written [] code w q = simp append-nil
loop-written (a ∷ answers) code w q =
    rw (round-after a w q.0) (loop-written answers code (after a w) q.1 ∙ simp append_assoc)

-- What is written before the program ends with an exit code other than 255, and at the end.
wrap_written :
    (answers : List Answers) (outs errs : List Ready) (code : ℕ)
    → AreQuiet answers
    → code < 255
    → wrap (answers ++ end_round code ∷ []) outs errs
      ≡ some (record {
        to_program = written (λ a. a.on_stdin) answers;
        out = written (λ a. a.on_stdout) answers ++ last_reads outs;
        err = written (λ a. a.on_stderr) answers ++ last_reads errs;
        retcode = signed_char code;
      })
unfolding wrap
wrap_written answers outs errs code q h =
    let other : is_minus_one (signed_char code) ≡ false = ground arith in
    rw (loop-written answers code new_wrap q, wrap, other) refl

-- While the streams can be read, and then the program ends with an exit code other than 255 (or by no
-- signal), where each `write` takes all that it is given: the program got all that was read from
-- standard input, and to each of the two output streams went all that was read from the program, in
-- its order, with what is left at the end.
pub wrap_exited :
    (answers : List Answers) (outs errs : List Ready) (code : ℕ)
    → AreQuiet answers
    → AreWhole (λ a. a.on_stdin) answers
    → AreWhole (λ a. a.on_stdout) answers
    → AreWhole (λ a. a.on_stderr) answers
    → LastWhole outs
    → LastWhole errs
    → code < 255
    → wrap (answers ++ end_round code ∷ []) outs errs
      ≡ some (record {
        to_program = streamed (λ a. a.on_stdin) answers;
        out = streamed (λ a. a.on_stdout) answers ++ last_streamed outs;
        err = streamed (λ a. a.on_stderr) answers ++ last_streamed errs;
        retcode = signed_char code;
      })
wrap_exited answers outs errs code q ins out err louts lerrs h =
    wrap_written answers outs errs code q h
    ∙ rw
        (
          written-streamed (λ a. a.on_stdin) answers ins,
          written-streamed (λ a. a.on_stdout) answers out,
          written-streamed (λ a. a.on_stderr) answers err,
          last_reads-streamed outs louts,
          last_reads-streamed errs lerrs,
        )
        refl

-- With the exit code 255, which is the byte for a signal too, what is left at the end is not read:
-- the last output of the program is lost.
pub wrap_255 :
    (answers : List Answers) (outs errs : List Ready)
    → AreQuiet answers
    → wrap (answers ++ end_round 255 ∷ []) outs errs
      ≡ some (record {
        to_program = written (λ a. a.on_stdin) answers;
        out = written (λ a. a.on_stdout) answers;
        err = written (λ a. a.on_stderr) answers;
        retcode = negsuc 0;
      })
unfolding wrap
wrap_255 answers outs errs q = rw (loop-written answers 255 new_wrap q, wrap) refl
