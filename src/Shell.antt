-- ===== src/Shell.antt =====
-- `loader` of src/shell.cc and include/modglue/shell.hh: the parser of commands, which the source
-- leaves unfinished, and the list of bonds.
pub mod Parser
pub mod Commands
pub mod Printing
pub mod Tests
use modglue.Common.{
  ℕ, zero, suc, Bool, true, false, not, ◌||◌, List, [], ◌∷◌, ◌++◌, Option, none, some, Bytes, codes,
  ◌==◌, if◌then◌else◌, Result, ok, throw,
}
use modglue.ExtProcess.{ExtProcess, new_process}
use modglue.ExtProcess.Setup.{is_space, assertion}

pub data Status : Type 0 where
  s_initial s_command s_skipwhite s_arg_or_control s_scan s_groupscan s_curlygroup : Status

pub record ProcessInfo : Type 0 where
  pub process : ExtProcess
  pub start_on_input : Bool
  pub restart_after_exit : Bool
  pub abort_on_failed_write : Bool
  pub remove_after_exit : Bool
  pub unique_name : Bytes

unfoldable pub process_info : Bytes → Bytes → ProcessInfo
process_info name unique_name = record {
  process = new_process name [];
  start_on_input = false;
  restart_after_exit = false;
  abort_on_failed_write = false;
  remove_after_exit = false;
  unique_name = unique_name;
}

-- What the parser works on, and the bonds, which stand for their addresses. The back of `status_`
-- is the head of the list.
pub record Loader : Type 0 where
  pub status : List Status
  pub errors : List Bytes
  pub new_processes : List ProcessInfo
  pub current : Bytes
  pub ingroup : Bool
  pub bonds : List ℕ

-- The constructor.
abbrev pub new_loader : Loader
new_loader = record {
  status = s_skipwhite ∷ s_initial ∷ [];
  errors = [];
  new_processes = [];
  current = [];
  ingroup = false;
  bonds = [];
}

abbrev pub is_control : ℕ → Bool
is_control c = c == b'|' || (c == b'^' || c == b'&')

-- How one round of the loop of `parse_` ends: the byte is used up, or given back by `unget`, or
-- `false` is returned, or an assertion fails. `back` of an empty `status_` is undefined and counts
-- as the latter.
pub data Round : Type 0 where
  takes : Loader → Round
  ungets : Loader → Round
  refuses : Loader → Round
  aborts : Round

-- A process is made of the word read so far, and the stack becomes the first argument.
abbrev pub end_word : List Status → Loader → Loader
end_word stack l = record l {
  status = stack;
  new_processes = l.new_processes ++ process_info l.current l.current ∷ [];
  current = [];
}

abbrev pub fail : Bytes → Loader → Round
fail message l = refuses (record l { errors = l.errors ++ message ∷ [] })

pub on_initial : List Status → ℕ → Loader → Round
on_initial below c l =
    if is_space c
    then aborts
    else if is_control c
    then fail (codes "illegal character at begin of input") l
    else ungets (record l { status = s_scan ∷ s_skipwhite ∷ below })

pub on_scan : List Status → ℕ → Loader → Round
on_scan below c l =
    if c == b'{'
    then takes (record l { ingroup = true; status = s_skipwhite ∷ s_groupscan ∷ s_scan ∷ below })
    else ungets (record l { status = s_command ∷ s_scan ∷ below })

pub on_command : List Status → ℕ → Loader → Round
on_command below c l =
    if c == b'}'
    then if not l.ingroup
      then fail (codes "encountered superfluous '}' character") l
      else takes (record l { ingroup = false })
    else if is_space c
    then takes (end_word (s_arg_or_control ∷ s_skipwhite ∷ s_command ∷ below) l)
    else if is_control c
    then ungets (end_word (s_arg_or_control ∷ s_command ∷ below) l)
    else takes (record l { current = l.current ++ c ∷ [] })

-- The `switch`, on the stack of states.
unfoldable pub round : List Status → ℕ → Loader → Round
unfolding on_initial on_scan on_command
round [] c l = aborts
round (s_skipwhite ∷ below) c l =
    if is_space c then takes l else ungets (record l { status = below })
round (s_initial ∷ below) c l = on_initial below c l
round (s_scan ∷ below) c l = on_scan below c l
round (s_command ∷ below) c l = on_command below c l
round (_ ∷ below) c l = takes l

-- The results of `parse_`.
pub data Parsed : Type 0 where
  accepted : Loader → Parsed
  refused : Loader → Parsed
  aborted : Parsed

-- The loop of `parse_` over the bytes that `get` delivers, on fuel for its rounds.
unfoldable pub parse : ℕ → Bytes → Loader → Option Parsed
parse fuel [] l = some (accepted l)
parse zero (c ∷ text) l = none
parse (suc fuel) (c ∷ text) l = elim (round l.status c l) [
  | takes l' ↦ parse fuel text l'
  | ungets l' ↦ parse fuel (c ∷ text) l'
  | refuses l' ↦ some (refused l')
  | aborts ↦ some aborted
]

lines : List Bytes → Bytes
lines [] = []
lines (text ∷ texts) = text ++ (b'\n' ∷ lines texts)

names : List ProcessInfo → List Bytes
names [] = []
names (p ∷ ps) = p.process.name ∷ names ps

-- What is printed after the parser, and the errors are cleared; then comes the prompt.
unfoldable pub report : Loader → Loader × Bytes
unfolding lines names
report l =
    (record l { errors = [] }, lines l.errors ++ (lines (names l.new_processes) ++ b'>' ∷ []))

-- `accept_commands`; `ignore` drops the input that a refusal leaves.
unfoldable pub accept_commands : ℕ → Bytes → Loader → Option (Result (Loader × Bytes))
unfolding report
accept_commands fuel text l = elim (parse fuel text l) [
  | none ↦ none
  | some (accepted l') ↦ some (ok (report l'))
  | some (refused l') ↦ some (ok (report l'))
  | some aborted ↦ some (throw assertion)
]

unfoldable pub add_bond : ℕ → Loader → Loader
add_bond b l = record l { bonds = l.bonds ++ b ∷ [] }

unfoldable pub erase_bond : ℕ → List ℕ → Option (List ℕ)
erase_bond b [] = none
erase_bond b (x ∷ xs) =
    if x == b then some xs else (elim (erase_bond b xs) [ none ↦ none | some ys ↦ some (x ∷ ys) ])

-- `remove_bond_`: of a bond that is not there, an assertion fails.
unfoldable pub remove_bond : ℕ → Loader → Result Loader
unfolding erase_bond
remove_bond b l = elim (erase_bond b l.bonds) [
  | none ↦ throw assertion
  | some bs ↦ ok (record l { bonds = bs })
]
