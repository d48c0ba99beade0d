-- ===== src/Shell/Printing.antt =====
-- What `loader` of src/shell.cc prints of its processes and bonds, and the program of
-- src/modshell.cc around it.
use modglue.Common.{
  ℕ, List, [], ◌∷◌, ◌++◌, Option, none, some, Bytes, codes, Result, ok, ◌>>=◌, if◌then◌else◌, ◌==◌,
  length,
}
use modglue.Decimal.{print_dec}
use modglue.Pipe.{Pipe, input, output, new_pipe}
use modglue.Main.{Main, new_main, add_ipipe, add_opipe, check}
use modglue.Shell.{ProcessInfo, Loader, new_loader}

-- `bond`, with the pairs of its set in their order.
pub record Bond : Type 0 where
  pub name : Bytes
  pub pipes : List (Bytes × Bytes)

-- The constructor.
unfoldable pub new_bond : Bytes → Bond
new_bond name = record { name = name; pipes = [] }

-- `print_prompt`.
abbrev pub print_prompt : Bytes
print_prompt = b'>' ∷ []

-- One line of `print_jobs_` for each pipe: what is printed for the pipe is its address.
unfoldable pub pipe_addresses : (Pipe → Bytes) → Bytes → List Pipe → Bytes
pipe_addresses address name [] = []
pipe_addresses address name (p ∷ ps) =
    (b' ' ∷ name) ++ (codes "::" ++ (address p ++ (b'\n' ∷ pipe_addresses address name ps)))

print_job : (Pipe → Bytes) → ProcessInfo → Bytes
unfolding pipe_addresses
print_job address info =
    let p = info.process in
    p.name
    ++ ((if p.pid == 0 then codes " (standby)\n" else codes " (running)\n")
        ++ (pipe_addresses address p.name p.input_pipes
            ++ pipe_addresses address p.name p.output_pipes))

print_each : (Pipe → Bytes) → List ProcessInfo → Bytes
unfolding print_job
print_each address [] = []
print_each address (info ∷ infos) = print_job address info ++ print_each address infos

-- `print_jobs_`. How an address is printed is an argument.
unfoldable pub print_jobs : (Pipe → Bytes) → List ProcessInfo → Bytes
unfolding print_each
print_jobs address infos =
    codes "process list: ("
    ++ (print_dec (length infos) ++ (codes " entries)\n" ++ print_each address infos))

-- `print_bonds_`, whose inner loop prints nothing.
unfoldable pub print_bonds : List Bond → Bytes
print_bonds [] = []
print_bonds (b ∷ bonds) = b.name ++ (codes ": \n" ++ print_bonds bonds)

-- `main` of src/modshell.cc up to the event loop: the object of the library with its three pipes, the
-- loader and what is printed, or none of the latter where only the pipes are listed. A script is
-- read by `accept_commands_old`, which does nothing.
unfoldable pub modshell : ℕ → List Bytes → Result (Main × Option (Loader × Bytes))
modshell sig_chld_pipe args = do
  (m0, _) ← add_ipipe (some 0) (new_pipe input (codes "stdin")) (new_main sig_chld_pipe args)
  (m1, _) ← add_opipe (some 1) (new_pipe output (codes "stdout")) m0
  (m2, _) ← add_opipe (some 2) (new_pipe output (codes "stderr")) m1
  ok (m2, if (check m2).0 then some (new_loader, print_prompt) else none)
