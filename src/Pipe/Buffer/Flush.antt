-- ===== src/Pipe/Buffer/Flush.antt =====
-- The output buffer: what of a text reaches `send_with_ack`.
use modglue.Common.{
  ℕ, ◌-◌, ◌≤◌, ◌<◌, ◌≡◌, refl, sym, ◌∙◌, List, [], ◌∷◌, ◌++◌, Bytes, arith, length, append_assoc,
  append-nil, length-append,
}
use modglue.Pipe.Buffer.{OutBuf, bufsiz, flushbuffer, sync, overflow, sputc, write_text, new_out}

abbrev pub concat : List Bytes → Bytes
concat [] = []
concat (t ∷ ts) = t ++ concat ts

pub concat-append : (ts us : List Bytes) → concat (ts ++ us) ≡ concat ts ++ concat us
concat-append [] us = refl
concat-append (t ∷ ts) us = rw (concat-append ts us) (sym (append_assoc t (concat ts) (concat us)))

-- Everything that was put into the buffer, in order.
abbrev pub all_put : OutBuf → Bytes
all_put b = concat b.flushed ++ b.o_buf

abbrev pub Sizes : List Bytes → Type 0
Sizes [] = Unit {0}
Sizes (t ∷ ts) = (0 < length t) × (length t ≤ bufsiz) × Sizes ts

pub record IsValid (b : OutBuf) : Type 0 where
  pub room : length b.o_buf ≤ bufsiz - 1
  pub sizes : Sizes b.flushed

flush-all_put : (b : OutBuf) → all_put (flushbuffer b).0 ≡ all_put b
unfolding flushbuffer
flush-all_put b = ground (
  arith,
  concat-append b.flushed (b.o_buf ∷ []),
  append-nil b.o_buf,
  append-nil (concat b.flushed ++ b.o_buf),
)

sputc-all_put : (b : OutBuf) (c : ℕ) → all_put (sputc b c) ≡ all_put b ++ c ∷ []
unfolding sputc overflow
sputc-all_put b c = ground (
  arith,
  flush-all_put (record b { o_buf = b.o_buf ++ c ∷ [] }),
  append_assoc (concat b.flushed) b.o_buf (c ∷ []),
)

Sizes-concat :
    (ts : List Bytes) (t : Bytes)
    → 0 < length t
    → length t ≤ bufsiz
    → Sizes ts
    → Sizes (ts ++ t ∷ [])
Sizes-concat [] t h k s = (h, k, tt)
Sizes-concat (u ∷ ts) t h k s = (s.0, s.1, Sizes-concat ts t h k s.2)

sputc-IsValid : (b : OutBuf) (c : ℕ) → IsValid b → IsValid (sputc b c)
unfolding sputc overflow flushbuffer
sputc-IsValid b c v =
    ground (arith, length-append b.o_buf (c ∷ []), Sizes-concat b.flushed (b.o_buf ++ c ∷ []))

pub write_text-all_put :
    (b : OutBuf) (text : Bytes) → all_put (write_text b text) ≡ all_put b ++ text
unfolding write_text
write_text-all_put b [] = sym (append-nil (all_put b))
write_text-all_put b (c ∷ text) =
    write_text-all_put (sputc b c) text
    ∙ rw (sputc-all_put b c) (append_assoc (all_put b) (c ∷ []) text)

pub write_text-IsValid : (b : OutBuf) (text : Bytes) → IsValid b → IsValid (write_text b text)
unfolding write_text
write_text-IsValid b [] v = v
write_text-IsValid b (c ∷ text) v = write_text-IsValid (sputc b c) text (sputc-IsValid b c v)

abbrev Synced : OutBuf → Type 0
Synced b = (concat (sync b).flushed ≡ all_put b) × Sizes (sync b).flushed × ((sync b).o_buf ≡ [])

sync-Synced :
    (o : Bytes) (ts : List Bytes)
    → length o ≤ bufsiz - 1
    → Sizes ts
    → Synced (record { o_buf = o; flushed = ts })
unfolding sync flushbuffer
sync-Synced [] ts h s = (sym (append-nil (concat ts)), s, refl)
sync-Synced (c ∷ o) ts h s =
    ground (arith, concat-append ts ((c ∷ o) ∷ []), append-nil (c ∷ o), Sizes-concat ts (c ∷ o))

-- A text written to a new stream, and then `sync`: the texts given to `send_with_ack` are together
-- the text, in order; each of them has between 1 and 1024 bytes; and the buffer is empty.
pub sync-write_text :
    (text : Bytes)
    → let b = sync (write_text new_out text) in
      (concat b.flushed ≡ text) × Sizes b.flushed × (b.o_buf ≡ [])
unfolding new_out
sync-write_text text =
    let b = write_text new_out text in
    let v = write_text-IsValid new_out text (record { room = omega arith; sizes = tt }) in
    let (whole, sizes, empty) = sync-Synced b.o_buf b.flushed v.room v.sizes in
    (whole ∙ write_text-all_put new_out text, sizes, empty)
