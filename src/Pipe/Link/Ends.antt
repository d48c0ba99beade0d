-- ===== src/Pipe/Link/Ends.antt =====
-- The two buffers of a link.
use modglue.Common.{
  ℕ, zero, suc, ◌+◌, ◌-◌, ◌≤◌, ◌<◌, ◌≡◌, ◌≢◌, refl, ap, ◌∙◌, [], ◌∷◌, ◌++◌, some, Bytes, length,
  get_or, arith, length-append,
}
use modglue.Pipe.Buffer.{
  OutBuf, InBuf, flushbuffer, sputc, sync, overflow, underflow, bufsiz, putbackarea, slice,
}
use modglue.Pipe.Buffer.Refill.{IsBounded, underflow_read}

-- The bytes that the reader has in its buffer.
abbrev pub unread : InBuf → Bytes
unread b = slice b.i_buf b.gptr (b.egptr - b.gptr)

slice-suc :
    (buf : Bytes) (i n : ℕ)
    → i < length buf
    → slice buf i (suc n) ≡ get_or buf i 0 ∷ slice buf (suc i) n
slice-suc [] i n h = absurd (omega arith)
slice-suc (x ∷ xs) zero n h = refl
slice-suc (x ∷ xs) (suc i) n h = slice-suc xs i n (omega arith)

pub unread_get :
    (b : InBuf)
    → IsBounded b
    → b.gptr < b.egptr
    → unread b ≡ get_or b.i_buf b.gptr 0 ∷ unread (record b { gptr = b.gptr + 1 })
unread_get b v h =
    let left : b.egptr - b.gptr ≡ suc (b.egptr - (b.gptr + 1)) = omega arith in
    let after : suc b.gptr ≡ b.gptr + 1 = omega arith in
    ap (slice b.i_buf b.gptr) left
    ∙ slice-suc b.i_buf b.gptr (b.egptr - (b.gptr + 1)) (omega (arith, v.size))
    ∙ ap (λ (i : ℕ). get_or b.i_buf b.gptr 0 ∷ slice b.i_buf i (b.egptr - (b.gptr + 1))) after

pub unread_refill :
    (g : ℕ → ℕ) (b : InBuf) (text : Bytes)
    → IsBounded b
    → b.gptr ≡ b.egptr
    → length text ≤ bufsiz - putbackarea
    → unread (underflow g b (some text)).0 ≡ text
unread_refill g b text bounded used h = (underflow_read g b text bounded used h).1

pub unread_end : (b : InBuf) → b.gptr ≡ b.egptr → unread b ≡ []
unread_end b e = let none_left : b.egptr - b.gptr ≡ 0 = omega arith in rw none_left refl

pub sputc_put :
    (b : OutBuf) (c : ℕ) → length b.o_buf < bufsiz - 1 → (sputc b c).o_buf ≡ b.o_buf ++ c ∷ []
unfolding sputc
sputc_put b c h = ground arith

pub sputc_full : (b : OutBuf) (c : ℕ) → length b.o_buf ≡ bufsiz - 1 → (sputc b c).o_buf ≡ []
unfolding sputc overflow flushbuffer
sputc_full b c h = ground (arith, length-append b.o_buf (c ∷ []))

pub sync_empty : (b : OutBuf) → (sync b).o_buf ≡ []
unfolding sync flushbuffer
sync_empty b = ground arith

pub append-ne-nil : (xs : Bytes) (c : ℕ) → xs ++ c ∷ [] ≢ []
append-ne-nil [] c e = cc
append-ne-nil (x ∷ xs) c e = cc
