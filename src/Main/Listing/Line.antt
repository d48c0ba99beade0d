-- ===== src/Main/Listing/Line.antt =====
-- One line of the list of pipes, as it is printed and as it is scanned.
use modglue.Common.{
  ℕ, zero, suc, ◌≤◌, ◌≡◌, ◌≢◌, refl, ap, ◌∙◌, false, [], ◌∷◌, ◌++◌, some, Bytes, equal, arith,
  append_assoc, append-nil, length, take-length-append, length-append, pred_u64,
}
use modglue.Pipe.{Pipe}
use modglue.ExtProcess.Setup.{
  is_space, scan_word, skip_space, scan_line, scan_field, get_lines, unquote,
}
use modglue.Main.{pipe_line}

-- No white space and no zero byte.
abbrev pub IsPlain : Bytes → Type 0
IsPlain [] = Unit {0}
IsPlain (c ∷ cs) = (is_space c ≡ false) × (c ≢ 0) × IsPlain cs

abbrev pub NoBreak : Bytes → Type 0
NoBreak [] = Unit {0}
NoBreak (c ∷ cs) = (c ≢ b'\n') × (c ≢ 0) × NoBreak cs

pub get_lines-line :
    (line acc rest : Bytes)
    → NoBreak line
    → get_lines (line ++ (b'\n' ∷ rest)) acc ≡ (acc ++ line) ∷ get_lines rest []
unfolding get_lines
get_lines-line [] acc rest h = rw append-nil
get_lines-line (c ∷ line) acc rest h =
    ground (arith, get_lines-line line (acc ++ c ∷ []) rest h.2, append_assoc acc (c ∷ []) line)

scan_word-plain :
    (n : ℕ) (word : Bytes) (rest : Bytes)
    → IsPlain word
    → length word ≤ n
    → scan_word n (word ++ (32 ∷ rest)) ≡ (word, 32 ∷ rest)
unfolding scan_word
scan_word-plain zero [] rest h k = refl
scan_word-plain zero (c ∷ word) rest h k = absurd (omega arith)
scan_word-plain (suc n) [] rest h k = refl
scan_word-plain (suc n) (c ∷ word) rest h k =
    ground (arith, scan_word-plain n word rest h.2 (omega arith))

-- The name of a pipe that fits the format `%99s` with its quotes.
abbrev pub IsListed : Pipe → Type 0
IsListed p = IsPlain p.name × (length p.name ≤ 97)

pub quoted : Bytes → Bytes
quoted name = b'"' ∷ (name ++ b'"' ∷ [])

pub IsPlain-append : (xs ys : Bytes) → IsPlain xs → IsPlain ys → IsPlain (xs ++ ys)
IsPlain-append [] ys h k = k
IsPlain-append (x ∷ xs) ys h k = (h.0, h.1, IsPlain-append xs ys h.2 k)

-- A line of the list, without its newline.
pub body : Bytes → Bytes → Bytes
body name kind = b'{' ∷ 32 ∷ (quoted name ++ (32 ∷ b',' ∷ 32 ∷ (kind ++ (32 ∷ b'}' ∷ []))))

skip_space-plain : (c : ℕ) (text : Bytes) → is_space c ≡ false → skip_space (c ∷ text) ≡ c ∷ text
unfolding skip_space
skip_space-plain c text h = rw h

skip_space-space : (text : Bytes) → skip_space (32 ∷ text) ≡ skip_space text
unfolding skip_space
skip_space-space text = refl

scan_field-plain :
    (mark c : ℕ) (word rest : Bytes)
    → IsPlain (c ∷ word)
    → length (c ∷ word) ≤ 99
    → scan_field mark (mark ∷ 32 ∷ ((c ∷ word) ++ (32 ∷ rest))) ≡ some (c ∷ word, 32 ∷ rest)
unfolding scan_field equal
scan_field-plain mark c word rest h k =
    let read = scan_word-plain 99 (c ∷ word) rest h k in
    rw
      (
        skip_space-space (c ∷ (word ++ (32 ∷ rest))),
        skip_space-plain c (word ++ (32 ∷ rest)) h.0,
        read,
      )
      (ground arith)

scan_line-fields :
    (line name kind rest rest' : Bytes)
    → scan_field b'{' line ≡ some (name, rest)
    → scan_field b',' (skip_space rest) ≡ some (kind, rest')
    → scan_line line ≡ some (name, kind)
unfolding scan_line
scan_line-fields line name kind rest rest' h k = ground arith

IsPlain-quoted : (name : Bytes) → IsPlain name → IsPlain (quoted name)
unfolding quoted
IsPlain-quoted name h =
    (refl, ground arith, IsPlain-append name (b'"' ∷ []) h (refl, ground arith, tt))

-- The two kinds of pipes.
abbrev pub IsKind : Bytes → Type 0
IsKind [] = ⊥
IsKind (c ∷ kind) = IsPlain (c ∷ kind) × (length (c ∷ kind) ≤ 99)

pub scan_line-body :
    (name kind : Bytes)
    → IsPlain name
    → length name ≤ 97
    → IsKind kind
    → scan_line (body name kind) ≡ some (quoted name, kind)
unfolding body
scan_line-body name [] h k e = absurd e
scan_line-body name (c ∷ kind) h k e =
    let behind : Bytes = b',' ∷ 32 ∷ ((c ∷ kind) ++ (32 ∷ b'}' ∷ [])) in
    scan_line-fields _ (quoted name) (c ∷ kind) (32 ∷ behind) (32 ∷ b'}' ∷ [])
      (unfold quoted in
        scan_field-plain b'{' b'"' (name ++ b'"' ∷ []) behind
          (unfold quoted in IsPlain-quoted name h) (omega (arith, length-append name (b'"' ∷ []))))
      (ap (scan_field b',') (
          skip_space-space behind
          ∙ skip_space-plain b',' (32 ∷ ((c ∷ kind) ++ (32 ∷ b'}' ∷ []))) refl)
        ∙ scan_field-plain b',' c kind (b'}' ∷ []) e.0 e.1)

pub unquote-quoted : (name : Bytes) → unquote (quoted name) ≡ name
unfolding quoted
unquote-quoted name =
    let size : pred_u64 (length (name ++ b'"' ∷ [])) ≡ length name =
      ground (arith, length-append name (b'"' ∷ [])) in
    rw size (take-length-append name (b'"' ∷ []))

pub pipe_line-body :
    (kind : Bytes) (p : Pipe) (rest : Bytes)
    → pipe_line kind p ++ rest ≡ body p.name kind ++ (b'\n' ∷ rest)
unfolding pipe_line body quoted
pipe_line-body kind p rest = simp append_assoc

pub NoBreak-append : (xs ys : Bytes) → NoBreak xs → NoBreak ys → NoBreak (xs ++ ys)
NoBreak-append [] ys h k = k
NoBreak-append (x ∷ xs) ys h k = (h.0, h.1, NoBreak-append xs ys h.2 k)

pub NoBreak-plain : (xs : Bytes) → IsPlain xs → NoBreak xs
NoBreak-plain [] h = tt
NoBreak-plain (x ∷ xs) h = (ground arith, h.1, NoBreak-plain xs h.2)

pub NoBreak-body : (name kind : Bytes) → IsPlain name → IsPlain kind → NoBreak (body name kind)
unfolding body quoted
NoBreak-body name kind h k =
    let end = NoBreak-append kind (32 ∷ b'}' ∷ []) (NoBreak-plain kind k) (omega arith) in
    let middle : NoBreak (32 ∷ b',' ∷ 32 ∷ (kind ++ (32 ∷ b'}' ∷ []))) =
      (omega arith, omega arith, (omega arith, omega arith, (omega arith, omega arith, end))) in
    let named = NoBreak-append name (b'"' ∷ []) (NoBreak-plain name h) (omega arith) in
    (
      omega arith,
      omega arith,
      (
        omega arith,
        omega arith,
        (omega arith, omega arith, NoBreak-append (name ++ b'"' ∷ []) _ named middle),
      ),
    )
