-- ===== src/Prompt/Errors.antt =====
-- `receive_stderr` of src/prompt.cc, which prints its buffer as a C string.
use modglue.Common.{
  ◌≡◌, ◌≢◌, refl, ◌∙◌, ap, List, [], ◌∷◌, ◌++◌, Bytes, arith, length, drop, append-nil,
  append_assoc, drop-length-append,
}
use mathlib.Core.Path.{ap₂}
use modglue.Process.{c_string}

-- One round of its loop: the buffer after it, and what is printed. No zero byte is put behind the
-- bytes that were read, and where the buffer has none the code reads on behind it: so the first
-- argument is the memory from the buffer's start on, up to a zero byte behind it if need be.
unfoldable pub print_chunk : Bytes → Bytes → Bytes × Bytes
unfolding c_string
print_chunk buffer text =
    let filled = text ++ drop (length text) buffer in (filled, c_string filled)

-- The loop, on what the calls of `read` deliver until one delivers nothing.
unfoldable pub receive_stderr : List Bytes → Bytes → Bytes
unfolding print_chunk
receive_stderr [] buffer = []
receive_stderr (text ∷ more) buffer =
    let (filled, printed) = print_chunk buffer text in printed ++ receive_stderr more filled

abbrev pub HasNoZero : Bytes → Type 0
HasNoZero [] = Unit {0}
HasNoZero (c ∷ text) = (c ≢ 0) × HasNoZero text

c_string-append :
    (text rest : Bytes) → HasNoZero text → c_string (text ++ rest) ≡ text ++ c_string rest
unfolding c_string
c_string-append [] rest h = refl
c_string-append (c ∷ text) rest (h, hs) = ground (arith, c_string-append text rest hs)

-- What is printed for a text of a buffer that held another text and more before.
second_chunk :
    (text rest short : Bytes)
    → HasNoZero short
    → length short ≡ length text
    → c_string (short ++ drop (length short) (text ++ rest)) ≡ short ++ c_string rest
second_chunk text rest short h same =
    rw (same, drop-length-append text rest) (c_string-append short rest h)

-- After a text, a shorter one is printed with the end of the longer one behind it, since the buffer
-- is not ended by a zero byte; each is followed by what stood behind in the buffer from the start.
pub receive_stderr_stale :
    (buffer text stale short : Bytes)
    → HasNoZero text
    → HasNoZero stale
    → HasNoZero short
    → length short ≡ length text
    → let behind = c_string (drop (length (text ++ stale)) buffer) in
      receive_stderr ((text ++ stale) ∷ short ∷ []) buffer
      ≡ (text ++ (stale ++ behind)) ++ (short ++ (stale ++ behind))
unfolding receive_stderr print_chunk
receive_stderr_stale buffer text stale short ht hs hk same =
    let rest = drop (length (text ++ stale)) buffer in
    let order : (text ++ stale) ++ rest ≡ text ++ (stale ++ rest) = append_assoc text stale rest in
    let first : c_string ((text ++ stale) ++ rest) ≡ text ++ (stale ++ c_string rest) =
      ap c_string order
      ∙ c_string-append text (stale ++ rest) ht
      ∙ ap (λ (t : Bytes). text ++ t) (c_string-append stale rest hs) in
    let second : c_string (short ++ drop (length short) ((text ++ stale) ++ rest))
        ≡ short ++ (stale ++ c_string rest) =
      ap (λ (t : Bytes). c_string (short ++ drop (length short) t)) order
      ∙ second_chunk text (stale ++ rest) short hk same
      ∙ ap (λ (t : Bytes). short ++ t) (c_string-append stale rest hs) in
    ap₂ (λ (r s : Bytes). r ++ (s ++ [])) first second
    ∙ ap (λ (t : Bytes). (text ++ (stale ++ c_string rest)) ++ t)
        (append-nil (short ++ (stale ++ c_string rest)))
