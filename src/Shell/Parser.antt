-- ===== src/Shell/Parser.antt =====
-- The rounds of the loop of `parse_`, and how it ends.
use mathlib.Core.Path.{subst}
use modglue.Common.{
  ℕ, zero, suc, ◌+◌, ◌*◌, ◌≤◌, ◌≡◌, inl, inr, refl, sym, false, List, [], ◌∷◌, Option, none, some,
  Bytes, length, arith, Bool-cases,
}
use modglue.ExtProcess.Setup.{is_space}
use modglue.Shell.{
  Status, s_initial, s_command, s_skipwhite, s_arg_or_control, s_scan, s_groupscan, Loader, Round,
  takes, ungets, refuses, aborts, round, on_initial, on_scan, on_command, parse, Parsed, aborted,
  new_loader,
}

pub parse-takes :
    (fuel c : ℕ) (text : Bytes) (l l' : Loader)
    → round l.status c l ≡ takes l'
    → parse (suc fuel) (c ∷ text) l ≡ parse fuel text l'
unfolding parse
parse-takes fuel c text l l' e = rw (e, parse) refl

pub parse-ungets :
    (fuel c : ℕ) (text : Bytes) (l l' : Loader)
    → round l.status c l ≡ ungets l'
    → parse (suc fuel) (c ∷ text) l ≡ parse fuel (c ∷ text) l'
unfolding parse
parse-ungets fuel c text l l' e = rw (e, parse) refl

-- A bound on the rounds that one byte takes, by the stack.
abbrev pub rank : List Status → ℕ
rank [] = 1
rank (s_skipwhite ∷ below) = suc (rank below)
rank (s_initial ∷ below) = 4
rank (s_scan ∷ below) = 3
rank (s_command ∷ below) = 2
rank (_ ∷ below) = 1

-- The stacks in which a byte may stand next: an assertion wants no white space in `s_initial`.
abbrev pub IsReady : List Status → Bytes → Type 0
IsReady (s_skipwhite ∷ s_initial ∷ []) text = Unit {0}
IsReady (s_skipwhite ∷ s_groupscan ∷ below) text = Unit {0}
IsReady (s_initial ∷ []) [] = Unit {0}
IsReady (s_initial ∷ []) (c ∷ text) = is_space c ≡ false
IsReady (s_scan ∷ below) text = Unit {0}
IsReady (s_command ∷ below) text = Unit {0}
IsReady (s_arg_or_control ∷ below) text = Unit {0}
IsReady (s_groupscan ∷ below) text = Unit {0}
IsReady _ text = ⊥

-- A byte that is given back lowers the rank.
abbrev Goes : List Status → ℕ → Bytes → Round → Type 0
Goes stack c text (takes l) = IsReady l.status text
Goes stack c text (ungets l) = IsReady l.status (c ∷ text) × (rank l.status + 1 ≤ rank stack)
Goes stack c text (refuses l) = Unit {0}
Goes stack c text aborts = ⊥

round-Goes :
    (stack : List Status) (c : ℕ) (text : Bytes) (l : Loader)
    → l.status ≡ stack
    → IsReady stack (c ∷ text)
    → Goes stack c text (round stack c l)
unfolding round on_initial on_scan on_command
round-Goes [] c text l e h = absurd h
round-Goes (s_skipwhite ∷ []) c text l e h = absurd h
round-Goes (s_skipwhite ∷ s_initial ∷ []) c text l e h = elim (Bool-cases (is_space c)) [
  | inl space ↦ rw space (subst (λ (s : List Status). IsReady s text) (sym e) tt)
  | inr other ↦ rw other (other, omega arith)
]
round-Goes (s_skipwhite ∷ s_groupscan ∷ below) c text l e h = elim (Bool-cases (is_space c)) [
  | inl space ↦ rw space (subst (λ (s : List Status). IsReady s text) (sym e) tt)
  | inr other ↦ rw other (tt, omega arith)
]
round-Goes (s_initial ∷ []) c text l e h = ground arith
round-Goes (s_scan ∷ below) c text l e h = ground arith
round-Goes (s_command ∷ below) c text l e h = ground arith
round-Goes (s_arg_or_control ∷ below) c text l e h =
    subst (λ (s : List Status). IsReady s text) (sym e) tt
round-Goes (s_groupscan ∷ below) c text l e h =
    subst (λ (s : List Status). IsReady s text) (sym e) tt
round-Goes _ c text l e h = absurd h

IsReady-rank :
    (stack : List Status) (text : Bytes) → IsReady stack text → (rank stack ≤ 5) × (1 ≤ rank stack)
IsReady-rank (s_skipwhite ∷ s_initial ∷ []) text h = omega arith
IsReady-rank (s_skipwhite ∷ s_groupscan ∷ below) text h = omega arith
IsReady-rank (s_initial ∷ []) text h = omega arith
IsReady-rank (s_scan ∷ below) text h = omega arith
IsReady-rank (s_command ∷ below) text h = omega arith
IsReady-rank (s_arg_or_control ∷ below) text h = omega arith
IsReady-rank (s_groupscan ∷ below) text h = omega arith
IsReady-rank _ text h = absurd h

-- The parser returned, by no failed assertion.
abbrev pub Returns : Option Parsed → Type 0
Returns none = ⊥
Returns (some aborted) = ⊥
Returns (some _) = Unit {0}

parse-round :
    (fuel c : ℕ) (text : Bytes) (l : Loader) (r : Round)
    → round l.status c l ≡ r
    → Goes l.status c text r
    → (1 ≤ rank l.status) × (rank l.status + 5 * length text ≤ suc fuel)
    → ((next : Bytes) (l' : Loader)
        → IsReady l'.status next
        → rank l'.status + 5 * length next ≤ fuel + 5
        → Returns (parse fuel next l'))
    → Returns (parse (suc fuel) (c ∷ text) l)
unfolding parse
parse-round fuel c text l (takes l') e ready k again =
    let low = IsReady-rank l'.status text ready in
    rw (e, Returns) (again text l' ready (omega arith))
parse-round fuel c text l (ungets l') e ready k again =
    rw (e, Returns) (again (c ∷ text) l' ready.0 (omega arith))
parse-round fuel c text l (refuses l') e ready k again = rw (e, Returns) tt
parse-round fuel c text l aborts e ready k again = absurd ready

parse-Returns_ready :
    (fuel : ℕ) (text : Bytes) (l : Loader)
    → IsReady l.status text
    → rank l.status + 5 * length text ≤ fuel + 5
    → Returns (parse fuel text l)
unfolding parse
parse-Returns_ready fuel [] l h k = tt
parse-Returns_ready zero (c ∷ text) l h k =
    let bound = IsReady-rank l.status (c ∷ text) h in absurd (omega arith)
parse-Returns_ready (suc fuel) (c ∷ text) l h k =
    let bound = IsReady-rank l.status (c ∷ text) h in
    parse-round fuel c text l _ refl (round-Goes l.status c text l refl h) (bound.1, omega arith)
      (λ next l'. parse-Returns_ready fuel next l')

-- On five rounds for each byte the parser of a new shell returns, on any input: it is never caught
-- giving a byte back for ever, it never takes the back of an empty stack, and no assertion fails.
pub parse-Returns : (text : Bytes) → Returns (parse (5 * length text) text new_loader)
parse-Returns text = parse-Returns_ready (5 * length text) text new_loader tt (omega arith)
