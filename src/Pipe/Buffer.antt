-- ===== src/Pipe/Buffer.antt =====
-- `pipebuf` of src/pipe.cc: the two buffers between a C++ stream and a pipe.
pub mod Flush
pub mod Refill
use modglue.Common.{
  zero, Bool, ◌&&◌, ℕ, suc, ◌+◌, ◌-◌, min, List, [], ◌∷◌, ◌++◌, Option, none, some, ℤ, minus_one,
  signed_char, Bytes, ltb, if◌then◌else◌, length, take, drop, get_or,
}

abbrev pub bufsiz : ℕ
bufsiz = 1024

abbrev pub putbackarea : ℕ
putbackarea = 8

-- The output buffer: the bytes from `pbase` to `pptr`, and the texts that `flushbuffer` gave to
-- `send_with_ack` so far, where none of these calls threw.
pub record OutBuf : Type 0 where
  pub o_buf : Bytes
  pub flushed : List Bytes

unfoldable pub new_out : OutBuf
new_out = record { o_buf = []; flushed = [] }

unfoldable pub flushbuffer : OutBuf → OutBuf × ℕ
flushbuffer b =
    let len = length b.o_buf in
    if ltb 0 len
    then (record { o_buf = []; flushed = b.flushed ++ b.o_buf ∷ [] }, len)
    else (b, len)

-- `sync`: it returns 0, as `flushbuffer` never returns EOF.
unfoldable pub sync : OutBuf → OutBuf
unfolding flushbuffer
sync b = (flushbuffer b).0

-- `overflow(ch)`, for a byte and for EOF.
unfoldable pub overflow : OutBuf → Option ℕ → OutBuf
unfolding flushbuffer
overflow b none = (flushbuffer b).0
overflow b (some ch) = (flushbuffer (record b { o_buf = b.o_buf ++ ch ∷ [] })).0

-- `sputc` of the stream library: `epptr` is one byte before the end of `o_buf`.
unfoldable pub sputc : OutBuf → ℕ → OutBuf
unfolding overflow
sputc b ch =
    if ltb (length b.o_buf) (bufsiz - 1)
    then record b { o_buf = b.o_buf ++ ch ∷ [] }
    else overflow b (some ch)

unfoldable pub write_text : OutBuf → Bytes → OutBuf
unfolding sputc
write_text b [] = b
write_text b (ch ∷ text) = write_text (sputc b ch) text

-- The input buffer, with its three pointers as indices.
pub record InBuf : Type 0 where
  pub i_buf : Bytes
  pub eback : ℕ
  pub gptr : ℕ
  pub egptr : ℕ

-- The constructor's `setg`, over an array of any content.
unfoldable pub new_in : Bytes → InBuf
new_in i_buf = record {
  i_buf = i_buf;
  eback = putbackarea;
  gptr = putbackarea;
  egptr = putbackarea;
}

-- `n` bytes of an array from index `i` on.
abbrev pub slice : Bytes → ℕ → ℕ → Bytes
slice buf i n = take n (drop i buf)

-- `memcpy` within an array, where the two ranges do not overlap, and `read` into an array.
abbrev pub store : Bytes → ℕ → Bytes → Bytes
store buf i text = take i buf ++ (text ++ drop (i + length text) buf)

-- How many bytes go to the putback area.
abbrev pub num_putback : InBuf → ℕ
num_putback b = min putbackarea (b.gptr - b.eback)

-- The first `n` values of a function.
abbrev pub tabulate : ℕ → (ℕ → ℕ) → Bytes
tabulate zero f = []
tabulate (suc n) f = f 0 ∷ tabulate n (λ i. f (i + 1))

-- Whether the two ranges of the `memcpy` in `underflow` overlap.
abbrev pub overlaps : InBuf → Bool
overlaps b = ltb 0 (num_putback b) && ltb (b.gptr - num_putback b) putbackarea

-- What the `memcpy` copies. Where the ranges overlap C leaves it undefined, and `f` tells what the
-- copy is then.
abbrev pub copied_putback : (ℕ → ℕ) → InBuf → Bytes
copied_putback f b =
    if overlaps b
    then tabulate (num_putback b) f
    else slice b.i_buf (b.gptr - num_putback b) (num_putback b)

abbrev pub keep_putback : (ℕ → ℕ) → InBuf → Bytes
keep_putback f b = store b.i_buf (putbackarea - num_putback b) (copied_putback f b)

-- `underflow`. The first argument is that of `copied_putback`, the last what `read_with_ack` delivers (at most `bufsiz - putbackarea`
-- bytes), or `none` if it returns a number that is not positive; it is called only where the buffer
-- is used up. `*gptr()` is a plain `char`.
unfoldable pub underflow : (ℕ → ℕ) → InBuf → Option Bytes → InBuf × ℤ
underflow f b read =
    if ltb b.gptr b.egptr then (b, signed_char (get_or b.i_buf b.gptr 0)) else (elim read [
      | none ↦ (record b { i_buf = keep_putback f b }, minus_one)
      | some text ↦
          let b' : InBuf = record {
            i_buf = store (keep_putback f b) putbackarea text;
            eback = putbackarea - num_putback b;
            gptr = putbackarea;
            egptr = putbackarea + length text;
          } in
          (b', signed_char (get_or b'.i_buf b'.gptr 0))
    ])
