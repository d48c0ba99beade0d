-- ===== src/Lib.antt =====
-- modglue: a library that starts programs and talks to them over named pipes, and a line editor on
-- top of it.
--
-- The parts, and the files that model them:
-- - `pipe`, `ipipe`, `opipe` and `pipebuf` (src/pipe.cc, include/modglue/pipe.hh): Pipe is the pipe
--   with its descriptors and its sending and reading, Pipe/Buffer the two stream buffers. Pipe/Link
--   puts a writer, the kernel and a reader together, as a step relation on the state of all three.
--   Pipe/Stream is `ipipe` and `opipe` as streams with a buffer. Pipe/Send, Pipe/Ledger,
--   Pipe/Buffer/Flush, Pipe/Buffer/Refill, Pipe/Link/Order and Pipe/Link/Drain hold the theorems.
-- - `ext_process` (src/ext_process.cc, include/modglue/ext_process.hh): ExtProcess is the state
--   with `terminate`, `pause` and `restart`; ExtProcess/Setup finds the executable, its kind and
--   its pipes; ExtProcess/Fork is `fork`; ExtProcess/Output is `receive_output_` and the
--   destructor. Their children hold the theorems; those of ExtProcess/Fork/Streams are about the
--   descriptors in the started program, by the table of System/Table.
-- - `main` (src/main.cc, include/modglue/main.hh): Main is the state, the command line and `add`;
--   Main/Signals the registration of the signal handlers and `run`, Main/Notice their messages;
--   Main/Loop the event loop, with theorems on what it watches in Watch and Valid, and on its
--   rounds in Death, Round, Leave and Stop. Main/Wiring, Main/Wiring/Program and Main/Listing
--   relate it to `ext_process` at the other side of a pipe.
-- - `child_process` (src/process.cc, include/modglue/process.hh): Process.
-- - the program `prompt` (src/prompt.cc): Prompt is the line editor, Prompt/Output the filter on
--   the wrapped program's output, with its theorems in Prompt/Output/Cuts and Prompt/Output/Filled;
--   Prompt/Errors is the filter on its errors, Prompt/Modes the terminal's modes, with
--   Prompt/Modes/Restored on them over a session, Prompt/Session its `main`. Prompt/Screen is the
--   terminal, which is a specification.
-- - the program `ptywrap` (src/ptywrap.cc): PtyWrap is the copying loop, with its theorems in
--   PtyWrap/Copying, and PtyWrap/Start what comes before it, with PtyWrap/Streams, and
--   PtyWrap/Openpty the replacement of `openpty`.
-- - `loader` (src/shell.cc, include/modglue/shell.hh): Shell is the parser of commands and the list
--   of bonds; Shell/Parser is about the rounds of its loop, Shell/Commands about single commands;
--   Shell/Printing is what it prints, and the program `modshell` (src/modshell.cc).
-- - the program `modwrap` (src/modwrap.cc), an older form of `ptywrap`: ModWrap, with
--   ModWrap/Copying.
-- - the graphical shell (src/gtkshell.cc): GtkShell reads an argument `--bond=`, GtkShell/Table all
--   arguments, with theorems in their children. GtkShell/View is what the window keeps and the
--   handlers that change modules and watched descriptors, GtkShell/View/Events the others and their
--   order; GtkShell/View/Invariant, GtkShell/View/Watched and GtkShell/View/Distinct hold the
--   theorems.
-- - the window `PipeView` (src/gtkiowin.cc) that shows what is read and sends what is typed:
--   GtkIoWin.
-- - `mid` (src/mid.cc, include/modglue/mid.hh): Mid.
-- Common has the names and lemmas that all share, System the calls of the kernel and its answers,
-- with the table of descriptors and the modes of a terminal as specifications, Decimal the numbers
-- of `sprintf` and `sscanf`.
--
-- How they interact: a parent's `main` owns `ext_process` objects, each of which holds pipes;
-- `fork` opens the pipes and tells a modglue program their descriptors by `--pipe` arguments, which
-- the program's own `main` reads; the program prints the list of its pipes, which `setup_pipes` of
-- the parent reads; a signal handler writes a message to a pipe, which `select_callback` reads.
--
-- Conventions: an object's state is a record with the source's members, and an operation returns
-- the new state, its result, and the calls of the kernel that it makes, in order. What the kernel
-- answers is an argument: a list of answers of `read` or `write`, a pair of sockets, a process id.
-- What C leaves undefined where `underflow` copies within its array is a function. Where the code
-- waits for a further answer, the result says that it has not returned. An exception is `throw`
-- with its message. A descriptor -1 is `none`. Numbers are natural; a size that wraps is written
-- out where the code subtracts from it. The terminal's lines are shorter than 2 ^ 32 bytes. Digits
-- are produced on fuel `n + 1` for the number n, which has at most as many digits. The shell's
-- parser runs on five rounds for each byte, since a byte is given back four times at most before it
-- is used up. The loop over the ends of a bond runs on a round for each byte of the argument and
-- one, as each round but the last uses up a comma.
--
-- Not modelled: the layout of the windows of the graphical programs, and their `main`, which calls
-- members that the repository no longer has; the copy src/gtkshell2.cc of the graphical shell; the
-- tests and the examples; `isatty`, which only prints what the kernel says. The branches of `pipe`
-- behind `1==1` that use `sendmsg` and `recvmsg` are never taken. Of `loader`, the members that are
-- declared but nowhere defined, or have an empty body, have no counterpart.
pub mod Common
pub mod Decimal
pub mod ExtProcess
pub mod GtkIoWin
pub mod GtkShell
pub mod Main
pub mod Mid
pub mod ModWrap
pub mod Pipe
pub mod Process
pub mod Prompt
pub mod PtyWrap
pub mod Shell
pub mod System
