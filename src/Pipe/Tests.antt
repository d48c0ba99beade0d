-- ===== src/Pipe/Tests.antt =====
-- The theorems on pipes and their buffers, at concrete inputs.
use modglue.Common.{
  ℕ, zero, suc, ◌-◌, ◌≡◌, ◌≢◌, ◌↔◌, ◌⊎◌, refl, true, false, List, [], ◌∷◌, ◌++◌, some, none, Bytes,
  codes, pos, minus_one, arith, length,
}
use modglue.System.{took, again, broke, got, interrupted}
use modglue.Pipe.{
  Pipe, input, output, returns, send_with_ack, send_blocking, send_loop, read_with_ack,
  read_nonblocking, destroy,
}
use modglue.Pipe.Ledger.{
  PipeOp, opens, closes_theirs, run_ops, fresh, count, closed_by, destroy_balance,
}
use modglue.Pipe.Send.{Writable, send_with_ack_delivers, send_with_ack_prefix, read_with_ack-broken}
use modglue.Pipe.Buffer.{
  InBuf, new_out, sputc, write_text, sync, underflow, slice, num_putback, bufsiz,
}
use modglue.Pipe.Link.{Link, Step, put, flush, Reach, here, next, new_link}
use modglue.Pipe.Link.Part.{IsPart}
use modglue.Pipe.Link.Order.{Reach-written}
use modglue.Pipe.Link.Ends.{unread}
use modglue.Pipe.Link.Drain.{Reach-drained}
use modglue.Pipe.Stream.{Opipe, write_opipe, destroy_opipe, destroy_buf, destroy_opipe-write_opipe}
use modglue.Pipe.Buffer.Flush.{concat, Sizes, sync-write_text}
use modglue.Pipe.Buffer.Refill.{IsBounded, underflow_lem}

-- A pipe that is open at our end.
abbrev open_output : Pipe
open_output = record {
  name = codes "stdin";
  direction = output;
  fd = some 4;
  fd_external = none;
  first_read_after_select = true;
  broken = false;
  unix_style_pipe = false;
  make_blocking = false;
}

send_with_ack_delivers_example :
    send_with_ack open_output (codes "abc") (took 1 ∷ again ∷ took 0 ∷ took 1 ∷ took 1 ∷ [])
    ≡ (returns, codes "abc")
send_with_ack_delivers_example =
    send_with_ack_delivers open_output (codes "abc")
      (took 1 ∷ again ∷ took 0 ∷ took 1 ∷ took 1 ∷ []) (refl, refl) (ground arith) tt (omega arith)

send_with_ack_prefix_example :
    let r = send_with_ack open_output (codes "abc") (took 2 ∷ again ∷ []) in
    ((rest : Bytes) × (codes "abc" ≡ r.1 ++ rest)) × (Writable open_output ⊎ (r.1 ≡ []))
send_with_ack_prefix_example =
    send_with_ack_prefix open_output (codes "abc") (took 2 ∷ again ∷ []) (ground arith)

abbrev at_end : Pipe
at_end = record open_output { broken = true; first_read_after_select = false }

read_at_end : read_with_ack open_output (interrupted ∷ got [] ∷ []) ≡ some (at_end, minus_one, [])
unfolding read_with_ack read_nonblocking
read_at_end = refl

read_with_ack-broken_example :
    (((read_nonblocking open_output (interrupted ∷ got [] ∷ []) ≡ some (pos 0, []))
        × (minus_one ≡ minus_one))
      ⊎ ((minus_one ≢ pos 0)
          × (read_nonblocking open_output (interrupted ∷ got [] ∷ []) ≡ some (minus_one, []))))
    × (at_end.first_read_after_select ≡ false)
    × ((at_end.broken ≡ true) ↔ (
        (open_output.broken ≡ true)
        ⊎ ((open_output.first_read_after_select ≡ true)
            × (read_nonblocking open_output (interrupted ∷ got [] ∷ []) ≡ some (pos 0, [])))))
read_with_ack-broken_example =
    read_with_ack-broken open_output (interrupted ∷ got [] ∷ []) read_at_end

abbrev life : List PipeOp
life = opens none none (some (7, 8)) ∷ closes_theirs ∷ opens none none (some (9, 10)) ∷ []

destroy_balance_example :
    let t = run_ops life (fresh input (codes "stdout")) in
    count 7 (closed_by (destroy t.pipe).1 ++ t.closed) ≡ count 7 t.given
destroy_balance_example = destroy_balance input (codes "stdout") life 7

sync-write_text_example :
    let b = sync (write_text new_out (codes "some text")) in
    (concat b.flushed ≡ codes "some text") × Sizes b.flushed × (b.o_buf ≡ [])
sync-write_text_example = sync-write_text (codes "some text")

abbrev zeros : ℕ → Bytes
zeros zero = []
zeros (suc n) = 0 ∷ zeros n

length-zeros : (n : ℕ) → length (zeros n) ≡ n
length-zeros zero = refl
length-zeros (suc n) = omega (arith, length-zeros n)

-- A buffer whose bytes are all read, two of them after a refill.
abbrev used_up : InBuf
used_up = record { i_buf = zeros bufsiz; eback = 8; gptr = 20; egptr = 20 }

used_up-IsBounded : IsBounded used_up
used_up-IsBounded = record {
  size = length-zeros bufsiz;
  back = omega arith;
  back_get = omega arith;
  get_end = omega arith;
  end_in = omega arith;
}

underflow_lem_example :
    let b' = (underflow (λ i. 0) used_up (some (codes "more"))).0 in
    IsBounded b'
    × (slice b'.i_buf b'.gptr (b'.egptr - b'.gptr) ≡ codes "more")
    × (slice b'.i_buf b'.eback (b'.gptr - b'.eback)
        ≡ slice used_up.i_buf (used_up.gptr - num_putback used_up) (num_putback used_up))
underflow_lem_example =
    underflow_lem (λ i. 0) used_up (codes "more") used_up-IsBounded refl (omega arith) refl

-- A stream into which a program has put one byte.
abbrev empty_link : Link
empty_link = new_link (zeros bufsiz)

one_put : (l : Link) × Step open_output empty_link l
one_put = (_, put empty_link 65 (unfold new_out in omega arith))

-- The flush gets an error.
one_lost : (l : Link) × Step open_output one_put.0 l
unfolding send_with_ack send_blocking send_loop sputc new_out one_put
one_lost = (_, flush one_put.0 (broke ∷ []) (λ e. cc) refl)

Reach-written_example :
    let l = one_lost.0 in
    let got = l.consumed ++ (unread l.reader ++ (l.wire ++ l.writer.o_buf)) in
    IsPart got l.written × ((l.lost ≡ true) ⊎ (l.written ≡ got))
Reach-written_example =
    Reach-written open_output (zeros bufsiz) (length-zeros bufsiz)
      (next (next here one_put.1) one_lost.1)

Reach-drained_example :
    (m : Link) × Reach open_output one_put.0 m
    × IsPart m.consumed one_put.0.written
    × ((one_put.0.lost ≡ true) ⊎ (m.consumed ≡ one_put.0.written))
    × (m.consumed
        ≡ one_put.0.consumed
          ++ (unread one_put.0.reader ++ (one_put.0.wire ++ one_put.0.writer.o_buf)))
    × (m.written ≡ one_put.0.written)
Reach-drained_example =
    Reach-drained open_output (zeros bufsiz) one_put.0 (refl, refl) (length-zeros bufsiz)
      (next here one_put.1)

abbrev no_text_yet : Opipe
no_text_yet = record { pipe = open_output; rdbuf = record { o_buf = []; flushed = [] } }

destroy_opipe-write_opipe_example :
    let o' = write_opipe no_text_yet (codes "lost") in
    (concat (destroy_opipe o').0.rdbuf.flushed ≡ [])
    × (concat (destroy_buf o'.rdbuf).flushed ≡ codes "lost")
destroy_opipe-write_opipe_example = destroy_opipe-write_opipe no_text_yet (codes "lost") refl
