-- ===== src/Process/Reading.antt =====
-- What `call` collects of a child's output.
use modglue.Common.{
  ◌≡◌, ◌≢◌, refl, ap, ◌∙◌, List, [], ◌∷◌, ◌++◌, some, Bytes, arith, append_assoc, append-nil,
}
use modglue.System.{ReadAnswer, got, interrupted, failed}
use modglue.Process.{read_all, c_string}

abbrev pub NoZero : Bytes → Type 0
NoZero [] = Unit {0}
NoZero (c ∷ text) = (c ≢ 0) × NoZero text

abbrev pub Texts : List ReadAnswer → Type 0
Texts [] = Unit {0}
Texts (got [] ∷ answers) = ⊥
Texts (got (c ∷ text) ∷ answers) = NoZero (c ∷ text) × Texts answers
Texts (interrupted ∷ answers) = Texts answers
Texts (failed ∷ answers) = ⊥

abbrev pub delivered : List ReadAnswer → Bytes
delivered [] = []
delivered (got text ∷ answers) = text ++ delivered answers
delivered (_ ∷ answers) = delivered answers

c_string-NoZero : (text : Bytes) → NoZero text → c_string text ≡ text
unfolding c_string
c_string-NoZero [] h = refl
c_string-NoZero (c ∷ text) h = ground (arith, c_string-NoZero text h.1)

-- `call` collects all that the child writes to a stream, over any number of reads and interruptions,
-- up to the end of the file, if the child writes no zero byte.
pub read_all-delivered :
    (answers more : List ReadAnswer) (text : Bytes)
    → Texts answers
    → read_all (answers ++ got [] ∷ more) text ≡ some (text ++ delivered answers)
unfolding read_all
read_all-delivered [] more text h = rw append-nil
read_all-delivered (got [] ∷ answers) more text h = absurd h
read_all-delivered (got (c ∷ chunk) ∷ answers) more text (plain, h) =
    ap (λ (t : Bytes). read_all (answers ++ got [] ∷ more) (text ++ t))
      (c_string-NoZero (c ∷ chunk) plain)
    ∙ read_all-delivered answers more (text ++ c ∷ chunk) h
    ∙ ap some (append_assoc text (c ∷ chunk) (delivered answers))
read_all-delivered (interrupted ∷ answers) more text h = read_all-delivered answers more text h
read_all-delivered (failed ∷ answers) more text h = absurd h
