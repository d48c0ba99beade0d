-- ===== src/Prompt/Output/Cuts.antt =====
-- The output of the wrapped program reaches `receive_stdout` of src/prompt.cc in pieces, as `read`
-- delivers them: where it does not matter how it is cut.
use modglue.Common.{
  ℕ, ◌≡◌, refl, sym, ap, ◌∙◌, inl, inr, Bool, true, false, List, [], ◌∷◌, ◌++◌, append-nil, arith,
  Bytes, ◌==◌, if◌then◌else◌, ◌&&◌, ◌||◌, Bool-cases,
}
use modglue.ExtProcess.Setup.{is_nil}
use modglue.Pipe.Buffer.Flush.{concat}
use modglue.Prompt.Output.{
  WriteMode, w_normal, w_fill, Console, starts_fill, copy, fill, begin_fill, transfer, ends_moving,
  receive_buffer, receive_stdout,
}

abbrev pub starts_with_dollar : Bytes → Bool
starts_with_dollar [] = false
starts_with_dollar (d ∷ rest) = d == b'$'

-- What the code means to do with the whole output: each ESC with a dollar behind it starts a fill.
unfoldable pub whole : Bool → Bytes → Console → Console
unfolding copy fill begin_fill
whole skip [] k = k
whole true (c ∷ rest) k = whole false rest k
whole false (c ∷ rest) k =
    let begins = c == 27 && starts_with_dollar rest in
    whole (elim k.wmode [ w_normal ↦ begins | w_fill ↦ false ]) rest
      (elim k.wmode [ w_normal ↦ if begins then begin_fill k else copy k c | w_fill ↦ fill k c ])

-- Whether a piece ends in ESC, or in ESC and a dollar.
abbrev pub cuts_escape : Bytes → Bool
cuts_escape [] = false
cuts_escape (c ∷ []) = c == 27
cuts_escape (c ∷ d ∷ []) = (c == 27 && d == b'$') || d == 27
cuts_escape (c ∷ d ∷ e ∷ rest) = cuts_escape (d ∷ e ∷ rest)

abbrev pub NoneCuts : List Bytes → Type 0
NoneCuts [] = Unit {0}
NoneCuts (b ∷ bs) = (cuts_escape b ≡ false) × NoneCuts bs

cuts_escape-tail : (c : ℕ) (b : Bytes) → cuts_escape (c ∷ b) ≡ false → cuts_escape b ≡ false
cuts_escape-tail c [] h = refl
cuts_escape-tail c (d ∷ []) h = ground arith
cuts_escape-tail c (d ∷ e ∷ rest) h = h

-- In such a piece the test of the code finds each ESC with a dollar.
same_test :
    (c : ℕ) (b rest : Bytes)
    → cuts_escape (c ∷ b) ≡ false
    → (c == 27 && starts_fill b) ≡ (c == 27 && starts_with_dollar (b ++ rest))
same_test c [] rest h = ground arith
same_test c (d ∷ []) rest h = ground arith
same_test c (d ∷ e ∷ b) rest h = refl

-- A byte to skip is in the same piece.
skip_behind : WriteMode → ℕ → Bytes → Bool
skip_behind w c b = elim w [ w_normal ↦ c == 27 && starts_fill b | w_fill ↦ false ]

skip_behind_inside : (w : WriteMode) (c : ℕ) (b : Bytes) → (skip_behind w c b && is_nil b) ≡ false
unfolding skip_behind is_nil
skip_behind_inside w_fill c b = refl
skip_behind_inside w_normal c [] = ground arith
skip_behind_inside w_normal c (d ∷ b) = ground arith

-- The console after a byte.
after_byte : Console → ℕ → Bytes → Console
after_byte k c b = elim k.wmode [
  | w_normal ↦ if c == 27 && starts_fill b then begin_fill k else copy k c
  | w_fill ↦ fill k c
]

transfer-whole :
    (skip : Bool) (b rest : Bytes) (k : Console)
    → (skip && is_nil b) ≡ false
    → cuts_escape b ≡ false
    → whole skip (b ++ rest) k ≡ whole false rest (transfer skip b k)
unfolding whole transfer is_nil skip_behind after_byte
transfer-whole true [] rest k ready clean = cc
transfer-whole false [] rest k ready clean = refl
transfer-whole true (c ∷ b) rest k ready clean =
    transfer-whole false b rest k refl (cuts_escape-tail c b clean)
transfer-whole false (c ∷ b) rest k ready clean =
    ap
      (λ (begins : Bool).
        whole (elim k.wmode [ w_normal ↦ begins | w_fill ↦ false ]) (b ++ rest)
          (elim k.wmode [
            | w_normal ↦ if begins then begin_fill k else copy k c
            | w_fill ↦ fill k c
          ]))
      (sym (same_test c b rest clean))
    ∙ transfer-whole (skip_behind k.wmode c b) b rest (after_byte k c b)
        (skip_behind_inside k.wmode c b) (cuts_escape-tail c b clean)

transfer-eq-whole :
    (b : Bytes) (k : Console) → cuts_escape b ≡ false → transfer false b k ≡ whole false b k
unfolding whole
transfer-eq-whole b k clean =
    sym (transfer-whole false b [] k refl clean)
    ∙ ap (λ (text : Bytes). whole false text k) (append-nil b)

-- A console with another value of `moving`, which the loop over the bytes does not read.
abbrev pub with_moving : Bool → Console → Console
with_moving moving k = record k { editor = record k.editor { moving = moving } }

byte-with_moving :
    (m begins : Bool) (w : WriteMode) (k : Console) (c : ℕ)
    → with_moving m
        (elim w [ w_normal ↦ if begins then begin_fill k else copy k c | w_fill ↦ fill k c ])
      ≡ elim w [
        | w_normal ↦ if begins then begin_fill (with_moving m k) else copy (with_moving m k) c
        | w_fill ↦ fill (with_moving m k) c
      ]
unfolding copy fill begin_fill
byte-with_moving m true w_normal k c = refl
byte-with_moving m false w_normal k c = refl
byte-with_moving m begins w_fill k c = ground arith

whole-with_moving :
    (m skip : Bool) (text : Bytes) (k : Console)
    → with_moving m (whole skip text k) ≡ whole skip text (with_moving m k)
unfolding whole
whole-with_moving m skip [] k = refl
whole-with_moving m true (c ∷ text) k = whole-with_moving m false text k
whole-with_moving m false (c ∷ text) k =
    let begins = c == 27 && starts_with_dollar text in
    whole-with_moving m (elim k.wmode [ w_normal ↦ begins | w_fill ↦ false ]) text _
    ∙ ap
        (λ (after : Console).
          whole (elim k.wmode [ w_normal ↦ begins | w_fill ↦ false ]) text after)
        (byte-with_moving m begins k.wmode k c)

receive_buffer-with_moving :
    (m : Bool) (b : Bytes) (k : Console)
    → cuts_escape b ≡ false
    → with_moving m (receive_buffer b k) ≡ with_moving m (whole false b k)
unfolding receive_buffer
receive_buffer-with_moving m b k clean = elim (Bool-cases (ends_moving b)) [
  | inl moves ↦ rw moves (
      ap (with_moving m) (transfer-eq-whole b (with_moving true k) clean)
      ∙ whole-with_moving m false b (with_moving true k)
      ∙ sym (whole-with_moving m false b k))
  | inr stays ↦ rw stays (ap (with_moving m) (transfer-eq-whole b k clean))
]

-- However the output of the wrapped program is cut into pieces, if no piece ends in ESC or in ESC and a
-- dollar, `receive_stdout` does with them what it is meant to do with the whole output: the terminal,
-- the line, the cursor and all else are the same, but for the flag `moving`, which depends on the ends
-- of the pieces.
pub receive_stdout-whole :
    (m : Bool) (bs : List Bytes) (k : Console)
    → NoneCuts bs
    → with_moving m (receive_stdout bs k) ≡ with_moving m (whole false (concat bs) k)
unfolding receive_stdout
receive_stdout-whole m [] k clean = unfold whole in refl
receive_stdout-whole m (b ∷ bs) k (here, behind) =
    receive_stdout-whole m bs (receive_buffer b k) behind
    ∙ whole-with_moving m false (concat bs) (receive_buffer b k)
    ∙ ap (whole false (concat bs)) (receive_buffer-with_moving m b k here)
    ∙ sym (whole-with_moving m false (concat bs) (whole false b k))
    ∙ ap (λ (after : Console). with_moving m (whole false (concat bs) after))
        (sym (transfer-eq-whole b k here))
    ∙ ap (with_moving m) (sym (transfer-whole false b (concat bs) k refl here))
