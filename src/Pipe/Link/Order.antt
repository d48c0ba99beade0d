-- ===== src/Pipe/Link/Order.antt =====
-- What the reader of a link gets.
use modglue.Common.{
  ℕ, ◌+◌, ◌-◌, ◌≤◌, ◌<◌, ◌≡◌, ◌≢◌, refl, sym, ap, ◌∙◌, ◌⊎◌, inl, inr, true, List, [], ◌∷◌, ◌++◌,
  some, none, Bytes, length, get_or, arith, append_assoc, append-nil, length-append,
}
use modglue.System.{WriteAnswer}
use modglue.Pipe.{Pipe}
use modglue.Pipe.Buffer.{OutBuf, new_out, new_in, sputc, sync, underflow, bufsiz, putbackarea}
use modglue.Pipe.Buffer.Refill.{
  IsBounded, underflow_read, underflow-none-IsBounded, underflow-none_used,
}
use modglue.Pipe.Send.{send_with_ack_prefix}
use modglue.Pipe.Link.Ends.{
  unread, unread_get, unread_refill, unread_end, sputc_put, sputc_full, sync_empty, append-ne-nil,
}
use modglue.Pipe.Link.Part.{IsPart, IsPart-append, sent-IsPart, sent_whole}
use modglue.Pipe.Link.{
  Link, new_link, transmitted, lost_by, Step, put, put_full, flush, refill, starve, get, Reach,
  here, next,
}

-- What the reader has got or can still get.
abbrev pub arrived : Link → Bytes
arrived l = l.consumed ++ (unread l.reader ++ (l.wire ++ l.writer.o_buf))

-- What was written and not lost is somewhere on the way, once and in its order.
pub record IsFifo (l : Link) : Type 0 where
  pub bounded : IsBounded l.reader
  pub room : length l.writer.o_buf ≤ bufsiz - 1
  pub part : IsPart (arrived l) l.written
  pub whole : (l.lost ≡ true) ⊎ (l.written ≡ arrived l)

transmitted_first :
    (p : Pipe) (text : Bytes) (answers : List WriteAnswer)
    → text ≢ []
    → (rest : Bytes) × (text ≡ transmitted p text answers ++ rest)
transmitted_first p text answers ne = (send_with_ack_prefix p text answers ne).0

put-arrived :
    (l : Link) (c : ℕ)
    → length l.writer.o_buf < bufsiz - 1
    → arrived (record l { writer = sputc l.writer c; written = l.written ++ c ∷ [] })
      ≡ arrived l ++ c ∷ []
put-arrived l c h = rw (sputc_put l.writer c h) (simp append_assoc)

pub refill-arrived :
    (g : ℕ → ℕ) (l : Link) (text rest : Bytes)
    → IsBounded l.reader
    → l.wire ≡ text ++ rest
    → length text ≤ bufsiz - putbackarea
    → l.reader.gptr ≡ l.reader.egptr
    → arrived l ≡ arrived (record l { reader = (underflow g l.reader (some text)).0; wire = rest })
refill-arrived g l text rest bounded e h used = rw (unread_refill g l.reader text bounded used h) (
    ap (λ (t : Bytes). l.consumed ++ (t ++ (l.wire ++ l.writer.o_buf))) (unread_end l.reader used)
    ∙ ap (λ (t : Bytes). l.consumed ++ (t ++ l.writer.o_buf)) e
    ∙ simp append_assoc)

starve-arrived :
    (g : ℕ → ℕ) (l : Link)
    → l.reader.gptr ≡ l.reader.egptr
    → arrived l ≡ arrived (record l { reader = (underflow g l.reader none).0 })
starve-arrived g l used =
    ap (λ (t : Bytes). l.consumed ++ (t ++ (l.wire ++ l.writer.o_buf)))
      (unread_end l.reader used
        ∙ sym (unread_end (underflow g l.reader none).0 (underflow-none_used g l.reader used)))

pub get-arrived :
    (l : Link)
    → IsBounded l.reader
    → l.reader.gptr < l.reader.egptr
    → arrived l
      ≡ arrived (record l {
        reader = record l.reader { gptr = l.reader.gptr + 1 };
        consumed = l.consumed ++ get_or l.reader.i_buf l.reader.gptr 0 ∷ [];
      })
get-arrived l bounded h =
    ap (λ (t : Bytes). l.consumed ++ (t ++ (l.wire ++ l.writer.o_buf)))
      (unread_get l.reader bounded h)
    ∙ simp append_assoc

-- What comes before the writer's buffer.
abbrev ahead : Link → Bytes
ahead l = l.consumed ++ (unread l.reader ++ l.wire)

arrived-ahead : (l : Link) → arrived l ≡ ahead l ++ l.writer.o_buf
arrived-ahead l = simp append_assoc

module _ (l : Link) (f : IsFifo l) where
  put-IsFifo :
      (c : ℕ)
      → length l.writer.o_buf < bufsiz - 1
      → IsFifo (record l { writer = sputc l.writer c; written = l.written ++ c ∷ [] })
  put-IsFifo c h = record {
    bounded = f.bounded;
    room = rw (sputc_put l.writer c h) (omega (arith, length-append l.writer.o_buf (c ∷ [])));
    part = rw (put-arrived l c h) (IsPart-append (arrived l) l.written (c ∷ []) f.part);
    whole = elim f.whole [
      | inl lost ↦ inl lost
      | inr all ↦ inr (ap (λ (t : Bytes). t ++ c ∷ []) all ∙ sym (put-arrived l c h))
    ];
  }

  refill-IsFifo :
      (g : ℕ → ℕ) (text rest : Bytes)
      → l.wire ≡ text ++ rest
      → length text ≤ bufsiz - putbackarea
      → l.reader.gptr ≡ l.reader.egptr
      → IsFifo (record l { reader = (underflow g l.reader (some text)).0; wire = rest })
  refill-IsFifo g text rest e h used = record {
    bounded = (underflow_read g l.reader text f.bounded used h).0;
    room = f.room;
    part = rw (sym (refill-arrived g l text rest f.bounded e h used)) f.part;
    whole = rw (sym (refill-arrived g l text rest f.bounded e h used)) f.whole;
  }

  starve-IsFifo :
      (g : ℕ → ℕ)
      → l.reader.gptr ≡ l.reader.egptr
      → IsFifo (record l { reader = (underflow g l.reader none).0 })
  starve-IsFifo g used = record {
    bounded = underflow-none-IsBounded g l.reader f.bounded used;
    room = f.room;
    part = rw (sym (starve-arrived g l used)) f.part;
    whole = rw (sym (starve-arrived g l used)) f.whole;
  }

  get-IsFifo :
      l.reader.gptr < l.reader.egptr
      → IsFifo (record l {
        reader = record l.reader { gptr = l.reader.gptr + 1 };
        consumed = l.consumed ++ get_or l.reader.i_buf l.reader.gptr 0 ∷ [];
      })
  get-IsFifo h = record {
    bounded = ground (arith, f.bounded);
    room = f.room;
    part = rw (sym (get-arrived l f.bounded h)) f.part;
    whole = rw (sym (get-arrived l f.bounded h)) f.whole;
  }

-- A text is sent whose bytes before the buffer's end were written.
sent-IsFifo :
    (p : Pipe) (l : Link) (text written : Bytes) (answers : List WriteAnswer) (empty : OutBuf)
    → IsBounded l.reader
    → empty.o_buf ≡ []
    → text ≢ []
    → IsPart (ahead l ++ text) written
    → (l.lost ≡ true) ⊎ (written ≡ ahead l ++ text)
    → IsFifo (record l {
      writer = empty;
      written = written;
      wire = l.wire ++ transmitted p text answers;
      lost = lost_by p text answers l.lost;
    })
sent-IsFifo p l text written answers empty bounded flushed ne part whole =
    let got : Bytes = transmitted p text answers in
    let (rest, split) = transmitted_first p text answers ne in
    let now : l.consumed ++ (unread l.reader ++ ((l.wire ++ got) ++ empty.o_buf)) ≡ ahead l ++ got =
      rw flushed (simp (append_assoc, append-nil)) in
    record {
      bounded = bounded;
      room = rw flushed (omega arith);
      part = rw now (sent-IsPart (ahead l) got text written rest split part);
      whole = rw now (sent_whole (ahead l) got text written l.lost whole);
    }

module _ (p : Pipe) (l : Link) (f : IsFifo l) where
  put_full-IsFifo :
      (c : ℕ) (answers : List WriteAnswer)
      → length l.writer.o_buf ≡ bufsiz - 1
      → IsFifo (record l {
        writer = sputc l.writer c;
        written = l.written ++ c ∷ [];
        wire = l.wire ++ transmitted p (l.writer.o_buf ++ c ∷ []) answers;
        lost = lost_by p (l.writer.o_buf ++ c ∷ []) answers l.lost;
      })
  put_full-IsFifo c answers h =
      let text : Bytes = l.writer.o_buf ++ c ∷ [] in
      let before : ahead l ++ text ≡ arrived l ++ c ∷ [] = simp append_assoc in
      sent-IsFifo p l text (l.written ++ c ∷ []) answers (sputc l.writer c) f.bounded
        (sputc_full l.writer c h) (append-ne-nil l.writer.o_buf c)
        (rw before (IsPart-append (arrived l) l.written (c ∷ []) f.part))
        (elim f.whole [
          | inl lost ↦ inl lost
          | inr all ↦ inr (ap (λ (t : Bytes). t ++ c ∷ []) all ∙ sym before)
        ])

  flush-IsFifo :
      (answers : List WriteAnswer)
      → l.writer.o_buf ≢ []
      → IsFifo (record l {
        writer = sync l.writer;
        wire = l.wire ++ transmitted p l.writer.o_buf answers;
        lost = lost_by p l.writer.o_buf answers l.lost;
      })
  flush-IsFifo answers h =
      sent-IsFifo p l l.writer.o_buf l.written answers (sync l.writer) f.bounded
        (sync_empty l.writer) h (rw (sym (arrived-ahead l)) f.part)
        (rw (sym (arrived-ahead l)) f.whole)

pub Step-IsFifo : {p : Pipe} {l m : Link} → Step p l m → IsFifo l → IsFifo m
Step-IsFifo (put l c h) f = put-IsFifo l f c h
Step-IsFifo {p = p} (put_full l c answers h k) f = put_full-IsFifo p l f c answers h
Step-IsFifo {p = p} (flush l answers h k) f = flush-IsFifo p l f answers h
Step-IsFifo (refill l g text rest e h k) f = refill-IsFifo l f g text rest e h k
Step-IsFifo (starve l g e) f = starve-IsFifo l f g e
Step-IsFifo (get l h) f = get-IsFifo l f h

pub Reach-IsFifo : {p : Pipe} {l m : Link} → IsFifo l → Reach p l m → IsFifo m
Reach-IsFifo f here = f
Reach-IsFifo f (next r s) = Step-IsFifo s (Reach-IsFifo f r)

pub new_link-IsFifo : (array : Bytes) → length array ≡ bufsiz → IsFifo (new_link array)
unfolding new_out new_in
new_link-IsFifo array h =
    let none_left : unread (new_in array) ≡ [] = unread_end (new_in array) refl in
    record {
      bounded = ground arith;
      room = omega arith;
      part = rw none_left refl;
      whole = inr (rw none_left refl);
    }

-- The two programs write bytes, flush, refill and take bytes out, in any order, and every call that
-- sends returns, whatever `write` answered, errors included; neither end is closed and no byte is put
-- back. What the reader has taken out so far, then its buffer, then what the kernel holds, then the
-- writer's buffer are together what was written, where some bytes may be missing but none is doubled
-- or reordered; and none is missing unless the kernel has not got all of a text that was sent.
pub Reach-written :
    (p : Pipe) (array : Bytes) {l : Link}
    → length array ≡ bufsiz
    → Reach p (new_link array) l
    → let got = l.consumed ++ (unread l.reader ++ (l.wire ++ l.writer.o_buf)) in
      IsPart got l.written × ((l.lost ≡ true) ⊎ (l.written ≡ got))
Reach-written p array h r = let f = Reach-IsFifo (new_link-IsFifo array h) r in (f.part, f.whole)
