-- ===== src/Pipe.antt =====
-- `modglue::pipe` of src/pipe.cc and include/modglue/pipe.hh, with its subclasses `ipipe` and
-- `opipe`.
pub mod Ledger
pub mod Send
pub mod Buffer
pub mod Link
pub mod Stream
pub mod Tests
use modglue.Common.{
  ℕ, zero, suc, ◌+◌, ◌-◌, min, Bool, true, false, not, ◌||◌, ◌&&◌, List, [], ◌∷◌, ◌++◌, Option,
  none, some, ℤ, pos, minus_one, Bytes, codes, ltb, ◌==◌, if◌then◌else◌, length, take, drop, Result,
  ok, throw, ◌>>=◌,
}
use modglue.System.{
  Fd, Call, closes, nonblock, WriteAnswer, took, again, broke, ReadAnswer, got, interrupted, failed,
}

-- The subclass: `ipipe` or `opipe`.
pub data Direction : Type 0 where
  input output : Direction

pub record Pipe : Type 0 where
  pub name : Bytes
  pub direction : Direction
  pub fd : Fd
  pub fd_external : Fd
  pub first_read_after_select : Bool
  pub broken : Bool
  pub unix_style_pipe : Bool
  pub make_blocking : Bool

-- The constructors of `ipipe` and `opipe`.
unfoldable pub new_pipe : Direction → Bytes → Pipe
new_pipe direction name = record {
  name = name;
  direction = direction;
  fd = none;
  fd_external = none;
  first_read_after_select = false;
  broken = true;
  unix_style_pipe = false;
  make_blocking = false;
}

unfoldable pub set_unix_style : Pipe → Pipe
set_unix_style p = record p { unix_style_pipe = true }

unfoldable pub set_blocking : Pipe → Pipe
set_blocking p = record p { make_blocking = true }

abbrev pub is_open : Fd → Bool
is_open none = false
is_open (some n) = true

-- `ipipe::do_fcntl_`, which spares descriptor 0, and `opipe::do_fcntl_`, which does nothing.
unfoldable pub do_fcntl : Direction → Fd → List Call
do_fcntl output fd = []
do_fcntl input (some n) = if n == 0 then [] else nonblock (some n) ∷ []
do_fcntl input none = nonblock none ∷ []

opened : Fd → Fd → Pipe → Pipe × List Call
unfolding do_fcntl
opened fd fd_external p =
    (record p { fd = fd; fd_external = fd_external; broken = false }, do_fcntl p.direction fd)

-- `pipe::open`. The last but one argument is what `socketpair` would answer.
unfoldable pub open_pipe : Fd → Fd → Option (ℕ × ℕ) → Pipe → Result (Pipe × List Call)
unfolding opened
open_pipe fd fd_external sockets p =
    if is_open p.fd || is_open p.fd_external
    then throw (codes "pipe already open")
    else if not (is_open fd) && not (is_open fd_external)
    then (elim sockets [
      | none ↦ throw (codes "cannot open sockets")
      | some (ours, theirs) ↦ ok (opened (some ours) (some theirs) p)
    ])
    else ok (opened fd fd_external p)

unfoldable pub close_pipe : Pipe → Pipe × List Call
close_pipe p = elim p.fd [
  | none ↦ (p, [])
  | some n ↦ (record p { fd = none; broken = true }, closes n ∷ [])
]

unfoldable pub close_external : Pipe → Pipe × List Call
close_external p = elim p.fd_external [
  | none ↦ (p, [])
  | some n ↦ (record p { fd_external = none }, closes n ∷ [])
]

-- The destructor.
unfoldable pub destroy : Pipe → Pipe × List Call
unfolding close_pipe close_external
destroy p =
    let (p', calls) = close_pipe p in let (p'', more) = close_external p' in (p'', calls ++ more)

unfoldable pub first_read_after_select : Pipe → Pipe
first_read_after_select p = record p { first_read_after_select = true }

-- How the loop of `send_blocking_` ends; `waiting` means that it has not ended when the answers of
-- the kernel do.
pub data SendEnd : Type 0 where
  sent gave_up waiting : SendEnd

abbrev pub chunk_size : ℕ
chunk_size = 512

-- The loop of `send_blocking_`, from `len` on. The second result is what the kernel took.
unfoldable pub send_loop : Bytes → ℕ → List WriteAnswer → SendEnd × Bytes
send_loop text len [] = if ltb len (length text) then (waiting, []) else (sent, [])
send_loop text len (took n ∷ answers) =
    let ret = min n (min chunk_size (length text - len)) in
    let rest = send_loop text (len + ret) answers in
    if ltb len (length text) then (rest.0, take ret (drop len text) ++ rest.1) else (sent, [])
send_loop text len (again ∷ answers) =
    let rest = send_loop text len answers in if ltb len (length text) then rest else (sent, [])
send_loop text len (broke ∷ answers) = if ltb len (length text) then (gave_up, []) else (sent, [])

-- `send_blocking_`: its return value (`none` where the call has not returned), and what the kernel
-- took. `false` is 0. The text is not
-- empty, which the code asserts.
unfoldable pub send_blocking : Pipe → Bytes → List WriteAnswer → Option ℤ × Bytes
unfolding send_loop
send_blocking p text answers =
    if not (is_open p.fd) || p.broken
    then (some (pos 0), [])
    else (let run = send_loop text 0 answers in
        (
          elim run.0 [
            | sent ↦ some (pos (length text))
            | gave_up ↦ some minus_one
            | waiting ↦ none
          ],
          run.1,
        ))

-- The test `==false` on an `int`.
abbrev pub is_false : ℤ → Bool
is_false (pos zero) = true
is_false _ = false

pub data Sending : Type 0 where
  returns : Sending
  throws : Sending
  hangs : Sending

-- `send_with_ack`, and what the kernel took.
unfoldable pub send_with_ack : Pipe → Bytes → List WriteAnswer → Sending × Bytes
unfolding send_blocking
send_with_ack p text answers =
    if not p.broken
    then (let (ret, taken) = send_blocking p text answers in
        (elim ret [ none ↦ hangs | some r ↦ if is_false r then throws else returns ], taken))
    else (returns, [])

-- `read_nonblocking_`: reads again while EINTR is the answer. `none` is a call that has not returned.
unfoldable pub read_loop : List ReadAnswer → Option (ℤ × Bytes)
read_loop [] = none
read_loop (got text ∷ answers) = some (pos (length text), text)
read_loop (interrupted ∷ answers) = read_loop answers
read_loop (failed ∷ answers) = some (minus_one, [])

unfoldable pub read_nonblocking : Pipe → List ReadAnswer → Option (ℤ × Bytes)
unfolding read_loop
read_nonblocking p answers =
    if not (is_open p.fd) || p.broken then some (minus_one, []) else read_loop answers

-- `read_with_ack`: the pipe after it, the return value and the bytes read.
unfoldable pub read_with_ack : Pipe → List ReadAnswer → Option (Pipe × ℤ × Bytes)
unfolding read_nonblocking
read_with_ack p answers = elim (read_nonblocking p answers) [
  | none ↦ none
  | some (ret, text) ↦
      let p' = record p {
        broken = if is_false ret && p.first_read_after_select then true else p.broken;
        first_read_after_select = false;
      } in
      some (p', if is_false ret then minus_one else ret, text)
]
