-- ===== src/ExtProcess/Setup/Binary.antt =====
-- `determine_binary_type_`: which files count as modglue binaries.
use modglue.Common.{
  ℕ, zero, suc, ◌+◌, ◌<◌, ◌≡◌, ◌≢◌, refl, sym, ap, ◌∙◌, true, false, [], ◌∷◌, ◌++◌, Bytes, codes,
  ◌⊎◌, inl, inr, Bool-cases, ◌==◌, length, take, get_or, arith, append_assoc, append-nil,
}
use modglue.ExtProcess.Setup.{comp, scan_binary}

abbrev pub Lacks : ℕ → Bytes → Type 0
Lacks b [] = Unit {0}
Lacks b (c ∷ cs) = (c ≢ b) × Lacks b cs

-- The text that `main.hh` puts into every program that includes it.
abbrev pub signature : Bytes
signature = codes "MODGLUE_1.0_BINARY"

-- `M` stands in `comp` at its beginning only, so that any other byte than `M` keeps `hit` at 0.
scan-Lacks :
    (text rest : Bytes) → Lacks b'M' text → scan_binary 0 (text ++ rest) ≡ scan_binary 0 rest
unfolding scan_binary
scan-Lacks [] rest h = refl
scan-Lacks (c ∷ text) rest h = ground (arith, scan-Lacks text rest h.1)

scan-comp : (rest : Bytes) → scan_binary 0 (comp ++ rest) ≡ true
unfolding scan_binary
scan-comp rest = refl

scan-signature : (rest : Bytes) → scan_binary 0 (signature ++ rest) ≡ scan_binary 0 rest
unfolding scan_binary
scan-signature rest = refl

scan_doubled : (rest : Bytes) → scan_binary 0 (b'M' ∷ (comp ++ rest)) ≡ scan_binary 0 rest
unfolding scan_binary
scan_doubled rest = refl

scan-end : scan_binary 0 [] ≡ false
unfolding scan_binary
scan-end = refl

scan_none : (text : Bytes) → Lacks b'M' text → scan_binary 0 text ≡ false
scan_none text h = ap (scan_binary 0) (sym (append-nil text)) ∙ scan-Lacks text [] h ∙ scan-end

-- A file is recognised if the text searched for stands in it and no `M` stands before it.
pub scan_complete :
    (before after : Bytes) → Lacks b'M' before → scan_binary 0 (before ++ (comp ++ after)) ≡ true
scan_complete before after h = scan-Lacks before (comp ++ after) h ∙ scan-comp after

-- A program that carries the signature of `main.hh`, with no other `M`, is not recognised: the text
-- searched for ends in BINARO, and the signature in BINARY.
pub scan_signature_missed :
    (before after : Bytes)
    → Lacks b'M' before
    → Lacks b'M' after
    → scan_binary 0 (before ++ (signature ++ after)) ≡ false
scan_signature_missed before after h k =
    scan-Lacks before (signature ++ after) h ∙ scan-signature after ∙ scan_none after k

-- Nor is a file that holds the text searched for directly behind another `M`: at a mismatch the
-- scan does not try the mismatched byte as the first one.
pub scan_restart_missed :
    (before after : Bytes)
    → Lacks b'M' before
    → Lacks b'M' after
    → scan_binary 0 (before ++ (b'M' ∷ (comp ++ after))) ≡ false
scan_restart_missed before after h k =
    scan-Lacks before (b'M' ∷ (comp ++ after)) h ∙ scan_doubled after ∙ scan_none after k

take_next :
    (xs text : Bytes) (i : ℕ)
    → i < length xs
    → take (suc i) xs ++ text ≡ take i xs ++ (get_or xs i 0 ∷ text)
take_next [] text i h = absurd (omega arith)
take_next (x ∷ xs) text zero h = refl
take_next (x ∷ xs) text (suc i) h = ap (◌∷◌ x) (take_next xs text i (omega arith))

-- One byte of the scan: it matches the last byte, or an earlier one, or none.
scan_step :
    (hit c : ℕ) (text : Bytes)
    → hit < length comp
    → scan_binary hit (c ∷ text) ≡ true
    → ((c ≡ get_or comp hit 0) × (suc hit ≡ length comp))
      ⊎ ((c ≡ get_or comp hit 0) × (suc hit < length comp) × (scan_binary (suc hit) text ≡ true))
      ⊎ (scan_binary 0 text ≡ true)
unfolding scan_binary
scan_step hit c text h e = elim (Bool-cases (c == get_or comp hit 0)) [
  | inl same ↦ elim (Bool-cases (hit + 1 == length comp)) [
    | inl last ↦ inl (ground arith, ground arith)
    | inr more ↦ inr (inl (ground arith, ground arith, goes_on same more))
  ]
  | inr other ↦ inr (inr (rw other at e))
]
  where
    goes_on :
        (c == get_or comp hit 0) ≡ true
        → (hit + 1 == length comp) ≡ false
        → scan_binary (suc hit) text ≡ true
    goes_on same more =
        let one : hit + 1 ≡ suc hit = omega arith in rw (← one) (rw (same, more) at e)

scan_binary_nil : (hit : ℕ) → scan_binary hit [] ≡ false
unfolding scan_binary
scan_binary_nil hit = refl

Found : Bytes → Type 0
Found text = (before : Bytes) × (after : Bytes) × (text ≡ before ++ (comp ++ after))

-- The `hit` bytes that are matched already stand in front of the text.
scan_sound_from :
    (text : Bytes) (hit : ℕ)
    → hit < length comp
    → scan_binary hit text ≡ true
    → Found (take hit comp ++ text)
unfolding Found
scan_sound_from [] hit h e = cc (scan_binary_nil hit)
scan_sound_from (c ∷ text) hit h e = elim (scan_step hit c text h e) [
  | inl (same, last) ↦ (
    [],
    text,
    rw same (sym (take_next comp text hit h) ∙ ap (λ (n : ℕ). take n comp ++ text) last),
  )
  | inr (inl (same, more, later)) ↦
      let (before, after, split) = scan_sound_from text (suc hit) more later in
      (before, after, rw same (sym (take_next comp text hit h) ∙ split))
  | inr (inr later) ↦
      let (before, after, split) = scan_sound_from text 0 (omega arith) later in
      (
        take hit comp ++ c ∷ before,
        after,
        ap (λ (t : Bytes). take hit comp ++ c ∷ t) split
            ∙ sym (append_assoc (take hit comp) (c ∷ before) (comp ++ after)),
      )
]

-- A file is recognised only if the text searched for stands somewhere in it.
pub scan_sound :
    (text : Bytes)
    → scan_binary 0 text ≡ true
    → (before : Bytes) × (after : Bytes) × (text ≡ before ++ (comp ++ after))
unfolding Found
scan_sound text e = scan_sound_from text 0 (omega arith) e
