-- ===== src/PtyWrap.antt =====
-- The program `ptywrap` of src/ptywrap.cc: the messages of its signal handler, and the loop that
-- copies between the pseudo-terminals of the wrapped program and its own streams. The answers of the
-- kernel are arguments.
pub mod Copying
pub mod Start
pub mod Openpty
pub mod Streams
pub mod Tests
use modglue.Common.{
  ℕ, zero, suc, Bool, true, false, not, List, [], ◌∷◌, ◌++◌, Option, none, some, Bytes, codes, ltb,
  ◌==◌, if◌then◌else◌, Result, ok, throw, ℤ, negsuc, signed_char, pos, take,
}
use modglue.System.{ReadAnswer, got, interrupted, failed}
use modglue.Main.Notice.{WaitAnswer, echild, wait_error, ended, exited, signalled}

-- `sig_chld`: the byte that it writes. An exit code is a byte.
unfoldable pub sig_chld : WaitAnswer → Result Bytes
sig_chld echild = throw (codes "waitpid failed")
sig_chld (wait_error errno) = throw (codes "waitpid failed")
sig_chld (ended (exited pid exit_code)) = ok (exit_code ∷ [])
sig_chld (ended (signalled pid)) = ok (255 ∷ [])

-- A descriptor that `select` reports: what `read` answers, and what the `write` that follows on bytes
-- does: how many it takes at most, or an error.
pub record Ready : Type 0 where
  pub answer : ReadAnswer
  pub written : Option ℕ

-- The bytes of a text that a `write` takes. The code does not write the others again.
abbrev pub taken : Option ℕ → Bytes → Bytes
taken none text = []
taken (some n) text = take n text

-- One round: the byte of the signal handler, if it is there, and the three streams, where `select`
-- reports them.
pub record Answers : Type 0 where
  pub sig_chld : Option ℕ
  pub on_stdin : Option Ready
  pub on_stdout : Option Ready
  pub on_stderr : Option Ready

-- What was copied so far, and `retcode`.
pub record Wrap : Type 0 where
  pub to_program : Bytes
  pub out : Bytes
  pub err : Bytes
  pub retcode : ℤ

abbrev pub new_wrap : Wrap
new_wrap = record { to_program = []; out = []; err = []; retcode = pos 0 }

-- One of the copying steps: the bytes written, and whether the loop goes on. The flag says whether
-- it goes on where `read` delivers nothing.
unfoldable pub copied : Bool → Option Ready → Bytes × Bool
copied at_end none = ([], true)
copied at_end (some ready) = elim ready.answer [
  | got [] ↦ ([], at_end)
  | got (c ∷ text) ↦ elim ready.written [
    | none ↦ ([], false)
    | some n ↦ (taken (some n) (c ∷ text), true)
  ]
  | interrupted ↦ ([], at_end)
  | failed ↦ ([], at_end)
]

-- One round of the loop, and whether it goes on.
unfoldable pub wrap_round : Answers → Wrap → Wrap × Bool
unfolding copied
wrap_round a w = elim a.sig_chld [
  | some code ↦ (record w { retcode = signed_char code }, false)
  | none ↦
      let (input, go) = copied true a.on_stdin in
      let (output, go') = copied false a.on_stdout in
      let (errors, go'') = copied false a.on_stderr in
      if not go
      then (record w { to_program = w.to_program ++ input }, false)
      else if not go'
      then (record w { to_program = w.to_program ++ input; out = w.out ++ output }, false)
      else (
        record w {
          to_program = w.to_program ++ input;
          out = w.out ++ output;
          err = w.err ++ errors;
        },
        go'',
      )
]

-- The loop; `none` where it has not ended.
unfoldable pub wrap_loop : List Answers → Wrap → Option Wrap
unfolding wrap_round
wrap_loop [] w = none
wrap_loop (a ∷ answers) w =
    let r = wrap_round a w in let rest = wrap_loop answers r.0 in if r.1 then rest else some r.0

-- The loops behind it, which read up to the end of a file or an error, and what each `write` takes;
-- its result is not looked at.
unfoldable pub last_reads : List Ready → Bytes
last_reads [] = []
last_reads (ready ∷ answers) =
    let rest = last_reads answers in
    elim ready.answer [
      | got [] ↦ []
      | got (c ∷ text) ↦ taken ready.written (c ∷ text) ++ rest
      | interrupted ↦ []
      | failed ↦ []
    ]

abbrev pub is_minus_one : ℤ → Bool
is_minus_one (pos n) = false
is_minus_one (negsuc n) = n == 0

-- The part of `main` from the loop on.
unfoldable pub wrap : List Answers → List Ready → List Ready → Option Wrap
wrap answers outs errs = elim (wrap_loop answers new_wrap) [
  | none ↦ none
  | some w ↦ some (
      if is_minus_one w.retcode
      then w
      else record w { out = w.out ++ last_reads outs; err = w.err ++ last_reads errs })
]
