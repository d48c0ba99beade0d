-- ===== src/Shell/Commands.antt =====
-- What the parser makes of a command, and the list of bonds.
use modglue.Common.{
  ℕ, zero, suc, ◌+◌, ◌*◌, ◌≤◌, ◌≡◌, ◌≢◌, ◌∙◌, ap, refl, sym, codes, Bool, true, not, ◌||◌, List, [],
  ◌∷◌, ◌++◌, some, Bytes, ◌==◌, length, arith, append_assoc, append-nil, length-append, ok,
}
use modglue.ExtProcess.Setup.{is_space}
use modglue.Shell.Parser.{parse-takes, parse-ungets}
use modglue.Shell.{
  Status, s_initial, s_command, s_skipwhite, s_arg_or_control, s_scan, Loader, takes, ungets, round,
  on_initial, on_scan, on_command, parse, accepted, refused, aborted, new_loader, is_control,
  process_info, end_word, add_bond, remove_bond, erase_bond,
}

-- A byte of a plain word.
abbrev pub is_plain : ℕ → Bool
is_plain c = not (is_space c || (is_control c || (c == b'{' || c == b'}')))

abbrev pub IsWord : Bytes → Type 0
IsWord [] = Unit {0}
IsWord (c ∷ word) = (is_plain c ≡ true) × IsWord word

-- Behind a command all bytes are used up without effect.
parse-swallows :
    (fuel : ℕ) (rest : Bytes) (l : Loader) (below : List Status)
    → l.status ≡ s_arg_or_control ∷ below
    → length rest ≤ fuel
    → parse fuel rest l ≡ some (accepted l)
unfolding parse round
parse-swallows fuel [] l below e h = refl
parse-swallows zero (c ∷ rest) l below e h = absurd (omega arith)
parse-swallows (suc fuel) (c ∷ rest) l below e h =
    parse-takes fuel c rest l l (ap (λ (s : List Status). round s c l) e)
    ∙ parse-swallows fuel rest l below e (omega arith)

on_command-word :
    (below : List Status) (c : ℕ) (l : Loader)
    → is_plain c ≡ true
    → on_command below c l ≡ takes (record l { current = l.current ++ c ∷ [] })
unfolding on_command
on_command-word below c l h = ground arith

-- The state behind a word.
abbrev behind_word : List Status → Bytes → Loader → Loader
behind_word below word l =
    end_word (s_arg_or_control ∷ s_skipwhite ∷ s_command ∷ below)
      (record l { current = l.current ++ word })

parse-word :
    (fuel : ℕ) (word rest : Bytes) (l : Loader) (below : List Status)
    → l.status ≡ s_command ∷ below
    → IsWord word
    → length word + suc (length rest) ≤ fuel
    → parse fuel (word ++ 32 ∷ rest) l ≡ some (accepted (behind_word below word l))
unfolding parse round on_command
parse-word zero word rest l below e w h = absurd (omega arith)
parse-word (suc fuel) [] rest l below e w h =
    parse-takes fuel 32 rest l _ (ap (λ (s : List Status). round s 32 l) e)
    ∙ parse-swallows fuel rest _ _ refl (omega arith)
    ∙ ap
        (λ (word : Bytes). some (
          accepted (
            end_word (s_arg_or_control ∷ s_skipwhite ∷ s_command ∷ below)
              (record l { current = word }))))
        (sym (append-nil l.current))
parse-word (suc fuel) (c ∷ word) rest l below e w h =
    parse-takes fuel c (word ++ 32 ∷ rest) l _
      (ap (λ (s : List Status). round s c l) e ∙ on_command-word below c l w.0)
    ∙ parse-word fuel word rest _ below e w.1 (omega arith)
    ∙ ap
        (λ (word : Bytes). some (
          accepted (
            end_word (s_arg_or_control ∷ s_skipwhite ∷ s_command ∷ below)
              (record l { current = word }))))
        (append_assoc l.current (c ∷ []) word)

in_initial :
    (c : ℕ) (l : Loader) (below : List Status)
    → is_plain c ≡ true
    → round (s_initial ∷ below) c l ≡ ungets (record l { status = s_scan ∷ s_skipwhite ∷ below })
unfolding round on_initial
in_initial c l below h = ground arith

in_scan :
    (c : ℕ) (l : Loader) (below : List Status)
    → is_plain c ≡ true
    → round (s_scan ∷ below) c l ≡ ungets (record l { status = s_command ∷ s_scan ∷ below })
unfolding round on_scan
in_scan c l below h = ground arith

in_skipwhite :
    (c : ℕ) (l : Loader) (below : List Status)
    → is_plain c ≡ true
    → round (s_skipwhite ∷ below) c l ≡ ungets (record l { status = below })
unfolding round
in_skipwhite c l below h = ground arith

parse-start :
    (fuel c : ℕ) (text : Bytes)
    → is_plain c ≡ true
    → parse (suc (suc (suc fuel))) (c ∷ text) new_loader
      ≡ parse fuel (c ∷ text) (record new_loader { status = s_command ∷ s_scan ∷ s_skipwhite ∷ [] })
parse-start fuel c text h =
    parse-ungets (suc (suc fuel)) c text new_loader _ (in_skipwhite c new_loader _ h)
    ∙ parse-ungets (suc fuel) c text _ _ (in_initial c _ _ h)
    ∙ parse-ungets fuel c text _ _ (in_scan c _ _ h)

-- The input of a new shell is a word and a space, and any bytes behind it: with five rounds for each
-- byte or more, a process with the word as its name and its unique name is made, and the bytes
-- behind it are used up without effect.
pub parse_command :
    (fuel c : ℕ) (word rest : Bytes)
    → IsWord (c ∷ word)
    → 5 * length ((c ∷ word) ++ 32 ∷ rest) ≤ fuel
    → parse fuel ((c ∷ word) ++ 32 ∷ rest) new_loader
      ≡ some (
          accepted (record new_loader {
            status = s_arg_or_control ∷ s_skipwhite ∷ s_command ∷ s_scan ∷ s_skipwhite ∷ [];
            new_processes = process_info (c ∷ word) (c ∷ word) ∷ [];
          }))
parse_command (suc (suc (suc fuel))) c word rest w h =
    parse-start fuel c (word ++ 32 ∷ rest) w.0
    ∙ parse-word fuel (c ∷ word) rest _ _ refl w (omega (arith, length-append word (32 ∷ rest)))
parse_command _ c word rest w h = absurd (omega arith)

-- An input that begins with `|`, `^` or `&` is refused, and it leaves the parser in a state where
-- an assertion fails if the next input begins with white space.
pub refused-aborted :
    (fuel c space : ℕ) (rest next : Bytes)
    → is_control c ≡ true
    → is_space space ≡ true
    → (l : Loader) × (parse (suc (suc fuel)) (c ∷ rest) new_loader ≡ some (refused l))
      × (parse (suc fuel) (space ∷ next) l ≡ some aborted)
unfolding parse round on_initial
refused-aborted fuel c space rest next h k = (
  record new_loader {
    errors = codes "illegal character at begin of input" ∷ [];
    status = s_initial ∷ [];
  },
  ground arith,
  ground arith,
)

abbrev pub NotBond : ℕ → List ℕ → Type 0
NotBond b [] = Unit {0}
NotBond b (x ∷ xs) = (x ≢ b) × NotBond b xs

erase_bond-last : (b : ℕ) (bs : List ℕ) → NotBond b bs → erase_bond b (bs ++ b ∷ []) ≡ some bs
unfolding erase_bond
erase_bond-last b [] h = ground arith
erase_bond-last b (x ∷ bs) h = ground (arith, erase_bond-last b bs h.1)

-- A bond that is added to a shell that does not have it, and then removed, leaves the shell as it
-- was: the other bonds stay, in their order.
pub remove_bond-add_bond :
    (b : ℕ) (l : Loader) → NotBond b l.bonds → remove_bond b (add_bond b l) ≡ ok l
unfolding add_bond remove_bond
remove_bond-add_bond b l h = rw (erase_bond-last b l.bonds h, remove_bond) refl
