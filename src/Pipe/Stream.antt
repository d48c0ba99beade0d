-- ===== src/Pipe/Stream.antt =====
-- `opipe` and `ipipe` of src/pipe.cc as streams: each has a `pipebuf` of its own. The base classes
-- std::ostream and std::istream, which are not code of the repository, do not own their buffer: no
-- destructor deletes it, and so that of `pipebuf` is never run.
use modglue.Common.{
  ℕ, ◌+◌, ◌-◌, ◌*◌, ◌/◌, ◌<◌, ◌≡◌, sym, ap, ◌∙◌, inl, inr, List, [], ◌∷◌, ◌++◌, Bytes, arith,
  length, take, append_assoc, append-nil, length-append, Bool-cases, true, false, ltb, suc,
}
use modglue.System.{Call}
use modglue.Pipe.{Pipe, input, output, new_pipe, destroy}
use modglue.Pipe.Buffer.{
  OutBuf, InBuf, new_out, new_in, sync, overflow, flushbuffer, sputc, write_text, bufsiz,
}
use modglue.Pipe.Buffer.Flush.{concat, concat-append, write_text-all_put}

pub record Opipe : Type 0 where
  pub pipe : Pipe
  pub rdbuf : OutBuf

pub record Ipipe : Type 0 where
  pub pipe : Pipe
  pub rdbuf : InBuf

unfoldable pub new_opipe : Bytes → Opipe
unfolding new_pipe new_out
new_opipe name = record { pipe = new_pipe output name; rdbuf = new_out }

-- The array of the buffer has any content.
unfoldable pub new_ipipe : Bytes → Bytes → Ipipe
unfolding new_pipe new_in
new_ipipe i_buf name = record { pipe = new_pipe input name; rdbuf = new_in i_buf }

-- The destructor of `pipebuf`.
unfoldable pub destroy_buf : OutBuf → OutBuf
unfolding sync
destroy_buf b = sync b

-- The destructor of `opipe`: that of `pipe`, and nothing is done to the buffer.
unfoldable pub destroy_opipe : Opipe → Opipe × List Call
unfolding destroy
destroy_opipe o = let (p, calls) = destroy o.pipe in (record o { pipe = p }, calls)

-- `operator<<` and `write` of the stream library.
unfoldable pub write_opipe : Opipe → Bytes → Opipe
unfolding write_text
write_opipe o text = record o { rdbuf = write_text o.rdbuf text }

-- How many of `n` bytes are in whole blocks of the buffer's size.
abbrev pub blocks : ℕ → ℕ
blocks n = n / bufsiz * bufsiz

take-length-add : (xs ys : Bytes) (n : ℕ) → take (length xs + n) (xs ++ ys) ≡ xs ++ take n ys
take-length-add [] ys n = ground arith
take-length-add (x ∷ xs) ys n =
    let more : suc (length xs) + n ≡ suc (length xs + n) = omega arith in
    rw more (ap (◌∷◌ x) (take-length-add xs ys n))

sputc-fits :
    (b : OutBuf) (c : ℕ)
    → ltb (length b.o_buf) (bufsiz - 1) ≡ true
    → sputc b c ≡ record b { o_buf = b.o_buf ++ c ∷ [] }
unfolding sputc
sputc-fits b c fits = ground arith

sputc-full :
    (b : OutBuf) (c : ℕ)
    → ltb (length b.o_buf) (bufsiz - 1) ≡ false
    → sputc b c ≡ record { o_buf = []; flushed = b.flushed ++ (b.o_buf ++ c ∷ []) ∷ [] }
unfolding sputc overflow flushbuffer
sputc-full b c full = ground (arith, length-append b.o_buf (c ∷ []))

-- What `send_with_ack` has got after a text, from a buffer that is not full.
write_text-blocks :
    (b : OutBuf) (text : Bytes)
    → length b.o_buf < bufsiz
    → concat (write_text b text).flushed
      ≡ concat b.flushed ++ take (blocks (length (b.o_buf ++ text))) (b.o_buf ++ text)
unfolding write_text
write_text-blocks b [] room =
    let few : blocks (length (b.o_buf ++ [])) ≡ 0 = omega (arith, length-append {0} b.o_buf []) in
    rw few (sym (append-nil (concat b.flushed)))
write_text-blocks b (c ∷ text) room = elim (Bool-cases (ltb (length b.o_buf) (bufsiz - 1))) [
  | inl fits ↦
      let b' : OutBuf = record b { o_buf = b.o_buf ++ c ∷ [] } in
      let small : length b'.o_buf < bufsiz = ground (arith, length-append b.o_buf (c ∷ [])) in
      ap (λ (x : OutBuf). concat (write_text x text).flushed) (sputc-fits b c fits)
      ∙ rw (sym (append_assoc b.o_buf (c ∷ []) text)) (write_text-blocks b' text small)
  | inr full ↦
      let block = b.o_buf ++ c ∷ [] in
      let b' : OutBuf = record { o_buf = []; flushed = b.flushed ++ block ∷ [] } in
      let whole : length block ≡ bufsiz = ground (arith, length-append b.o_buf (c ∷ [])) in
      let more : blocks (length (block ++ text)) ≡ length block + blocks (length text) =
        omega (arith, whole, length-append {0} block text) in
      ap (λ (x : OutBuf). concat (write_text x text).flushed) (sputc-full b c full)
      ∙ rw (sym (append_assoc b.o_buf (c ∷ []) text), more)
          (rw (take-length-add block text (blocks (length text))) (
            write_text-blocks b' text (omega arith)
            ∙ rw (concat-append b.flushed (block ∷ []), append-nil block)
                (append_assoc (concat b.flushed) block _)))
]

concat-sync :
    (o : Bytes) (ts : List Bytes)
    → concat (sync (record { o_buf = o; flushed = ts })).flushed ≡ concat ts ++ o
unfolding sync flushbuffer
concat-sync [] ts = sym (append-nil (concat ts))
concat-sync (c ∷ o) ts = ground (arith, concat-append ts ((c ∷ o) ∷ []), append-nil (c ∷ o))

-- An output pipe with an empty buffer, a text written to it, and then the destructor: of the text
-- `send_with_ack` has got the whole blocks of 1024 bytes, and nothing of what is behind them. The
-- destructor of the buffer, had it been run, would have sent that too.
pub destroy_opipe-write_opipe :
    (o : Opipe) (text : Bytes)
    → o.rdbuf.o_buf ≡ []
    → let o' = write_opipe o text in
      (concat (destroy_opipe o').0.rdbuf.flushed
        ≡ concat o.rdbuf.flushed ++ take (blocks (length text)) text)
      × (concat (destroy_buf o'.rdbuf).flushed ≡ concat o.rdbuf.flushed ++ text)
unfolding destroy_opipe write_opipe destroy_buf
destroy_opipe-write_opipe o text empty =
    let b : OutBuf = record { o_buf = []; flushed = o.rdbuf.flushed } in
    let same : o.rdbuf ≡ b = ground arith in
    let left = write_text b text in
    rw same (
      write_text-blocks b text (omega arith),
      concat-sync left.o_buf left.flushed
          ∙ write_text-all_put b text
          ∙ ap (λ (x : Bytes). x ++ text) (append-nil (concat o.rdbuf.flushed)),
    )
