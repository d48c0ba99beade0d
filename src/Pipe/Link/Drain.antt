-- ===== src/Pipe/Link/Drain.antt =====
-- How what is under way in a link reaches the reader.
use modglue.Common.{
  ℕ, zero, suc, ◌+◌, ◌-◌, ◌≤◌, ◌<◌, ◌≡◌, refl, sym, ap, ◌∙◌, List, [], ◌∷◌, ◌++◌, some, Bytes,
  length, get_or, arith, append-nil, length-take, length-drop, take-append-drop, take, drop, inl,
  inr, Bool-cases, ltb, ◌⊎◌, ◌≢◌, true,
}
use modglue.System.{WriteAnswer, took}
use modglue.Pipe.{Pipe, Sending, returns, send_with_ack}
use modglue.Pipe.Buffer.{sync, underflow, bufsiz, putbackarea}
use modglue.Pipe.Buffer.Refill.{underflow-some_left}
use modglue.Pipe.Send.{Writable, NoError, progress, send_with_ack_delivers}
use modglue.Pipe.Link.Part.{IsPart}
use modglue.Pipe.Link.{
  Link, transmitted, lost_by, Step, flush, refill, get, Reach, here, next, new_link,
}
use modglue.Pipe.Link.Ends.{unread, sync_empty, unread_end}
use modglue.Pipe.Link.Order.{
  IsFifo, arrived, get-arrived, refill-arrived, Step-IsFifo, Reach-IsFifo, new_link-IsFifo,
}

Reach-trans : {p : Pipe} {l m n : Link} → Reach p l m → Reach p m n → Reach p l n
Reach-trans r here = r
Reach-trans r (next q s) = next (Reach-trans r q) s

-- The kernel takes one byte after the other.
abbrev bytewise : Bytes → List WriteAnswer
bytewise [] = []
bytewise (c ∷ text) = took 1 ∷ bytewise text

NoError-bytewise :
    (text : Bytes) → NoError (bytewise text) × (length text ≤ progress (bytewise text))
NoError-bytewise [] = omega arith
NoError-bytewise (c ∷ text) = let (h, k) = NoError-bytewise text in (h, omega arith)

send_bytewise :
    (p : Pipe) (text : Bytes)
    → Writable p
    → text ≢ []
    → send_with_ack p text (bytewise text) ≡ (returns, text)
send_bytewise p text w ne =
    let (h, k) = NoError-bytewise text in send_with_ack_delivers p text (bytewise text) w ne h k

-- What the reader can still get.
abbrev left : Link → ℕ
left l = (l.reader.egptr - l.reader.gptr) + length l.wire

abbrev Drained : Pipe → Link → Type 0
Drained p l = (m : Link) × Reach p l m × (m.consumed ≡ arrived l) × (m.written ≡ l.written)

Drained-step :
    {p : Pipe} {l m : Link}
    → Step p l m
    → arrived l ≡ arrived m
    → m.written ≡ l.written
    → Drained p m
    → Drained p l
Drained-step s e e' (n, r, all, same) = (n, Reach-trans (next here s) r, all ∙ sym e, same ∙ e')

empty : (text : Bytes) → length text ≡ 0 → text ≡ []
empty [] h = refl
empty (c ∷ text) h = absurd (omega arith)

at_end : (p : Pipe) (l : Link) → IsFifo l → l.writer.o_buf ≡ [] → left l ≡ 0 → Drained p l
at_end p l f flushed h = (l, here, sym rest, refl)
  where
    rest : l.consumed ++ (unread l.reader ++ (l.wire ++ l.writer.o_buf)) ≡ l.consumed
    rest =
        ap (λ (t : Bytes). l.consumed ++ (t ++ (l.wire ++ l.writer.o_buf)))
          (unread_end l.reader (omega (arith, f.bounded.get_end)))
        ∙ ap (λ (t : Bytes). l.consumed ++ (t ++ l.writer.o_buf)) (empty l.wire (omega arith))
        ∙ ap (◌++◌ l.consumed) flushed
        ∙ append-nil l.consumed

abbrev after_get : Link → Link
after_get l = record l {
  reader = record l.reader { gptr = l.reader.gptr + 1 };
  consumed = l.consumed ++ get_or l.reader.i_buf l.reader.gptr 0 ∷ [];
}

-- As much of what the kernel holds as one read takes.
abbrev after_refill : Link → Link
after_refill l = record l {
  reader = (underflow (λ i. 0) l.reader (some (take (bufsiz - putbackarea) l.wire))).0;
  wire = drop (bufsiz - putbackarea) l.wire;
}

abbrev after_flush : Pipe → Link → Link
after_flush p l = record l {
  writer = sync l.writer;
  wire = l.wire ++ transmitted p l.writer.o_buf (bytewise l.writer.o_buf);
  lost = lost_by p l.writer.o_buf (bytewise l.writer.o_buf) l.lost;
}

flush-arrived :
    (p : Pipe) (l : Link) → Writable p → l.writer.o_buf ≢ [] → arrived l ≡ arrived (after_flush p l)
flush-arrived p l w ne =
    let all : transmitted p l.writer.o_buf (bytewise l.writer.o_buf) ≡ l.writer.o_buf =
      ap (λ (t : Sending × Bytes). t.1) (send_bytewise p l.writer.o_buf w ne) in
    let flushed : l.consumed ++ (unread l.reader ++ (l.wire ++ l.writer.o_buf))
        ≡ l.consumed ++ (unread l.reader ++ ((l.wire ++ l.writer.o_buf) ++ [])) =
      simp append-nil in
    rw (sync_empty l.writer) (
      flushed
      ∙ ap (λ (t : Bytes). l.consumed ++ (unread l.reader ++ ((l.wire ++ t) ++ []))) (sym all))

refill_step : (p : Pipe) (l : Link) → l.reader.gptr ≡ l.reader.egptr → Step p l (after_refill l)
refill_step p l used =
    refill l (λ i. 0) (take (bufsiz - putbackarea) l.wire) (drop (bufsiz - putbackarea) l.wire)
      (sym (take-append-drop (bufsiz - putbackarea) l.wire))
      (omega (arith, length-take (bufsiz - putbackarea) l.wire)) used

left-after_refill :
    (l : Link)
    → l.reader.gptr ≡ l.reader.egptr
    → 0 < length l.wire
    → (left (after_refill l) ≡ left l)
      × ((after_refill l).reader.gptr < (after_refill l).reader.egptr)
left-after_refill l used some_left =
    let text : Bytes = take (bufsiz - putbackarea) l.wire in
    omega (
      arith,
      underflow-some_left (λ i. 0) l.reader text used,
      length-take (bufsiz - putbackarea) l.wire,
      length-drop (bufsiz - putbackarea) l.wire,
    )

drain : (p : Pipe) (n : ℕ) (l : Link) → IsFifo l → l.writer.o_buf ≡ [] → left l ≤ n → Drained p l
drain p zero l f flushed h = at_end p l f flushed (omega arith)
drain p (suc n) l f flushed h = elim (Bool-cases (ltb l.reader.gptr l.reader.egptr)) [
  | inl more ↦
      let s : Step p l (after_get l) = get l (ground arith) in
      Drained-step s (get-arrived l f.bounded (ground arith)) refl
        (drain p n (after_get l) (Step-IsFifo s f) flushed (ground arith))
  | inr used ↦ elim (Bool-cases (ltb 0 (length l.wire))) [
    | inl wire ↦
        let used : l.reader.gptr ≡ l.reader.egptr = ground (arith, f.bounded.get_end) in
        let s = refill_step p l used in
        let (same, some_left) = left-after_refill l used (ground arith) in
        let s' : Step p (after_refill l) (after_get (after_refill l)) =
          get (after_refill l) some_left in
        let f' = Step-IsFifo s f in
        Drained-step s
          (refill-arrived (λ i. 0) l _ _ f.bounded
            (sym (take-append-drop (bufsiz - putbackarea) l.wire))
            (omega (arith, length-take (bufsiz - putbackarea) l.wire)) used)
          refl
          (Drained-step s' (get-arrived (after_refill l) f'.bounded some_left) refl
            (drain p n (after_get (after_refill l)) (Step-IsFifo s' f') flushed (omega arith)))
    | inr dry ↦ at_end p l f flushed (ground (arith, f.bounded.get_end))
  ]
]

from_fifo : (p : Pipe) (l : Link) → Writable p → IsFifo l → Drained p l
from_fifo p l w f = elim (Bool-cases (ltb 0 (length l.writer.o_buf))) [
  | inl more ↦
      let ne : l.writer.o_buf ≢ [] = ground arith in
      let answers = bytewise l.writer.o_buf in
      let s : Step p l (after_flush p l) =
        flush l answers ne
          (ap (λ (t : Sending × Bytes). t.0) (send_bytewise p l.writer.o_buf w ne)) in
      Drained-step s (flush-arrived p l w ne) refl (
        drain p (left (after_flush p l)) (after_flush p l) (Step-IsFifo s f) (sync_empty l.writer)
          (omega arith))
  | inr flushed ↦ drain p (left l) l f (empty l.writer.o_buf (ground arith)) (omega arith)
]

-- From every state in which the two programs can be, some steps bring the reader all that was written
-- up to now and not lost: with a flush, reads and the bytes taken out one by one. So no byte stays on
-- the way. The steps are those of `Reach-written`, and a lost byte is one of a text that was sent and
-- of which the kernel has not got all; the writer's pipe is open and not broken.
pub Reach-drained :
    (p : Pipe) (array : Bytes) (l : Link)
    → Writable p
    → length array ≡ bufsiz
    → Reach p (new_link array) l
    → (m : Link) × Reach p l m
      × IsPart m.consumed l.written
      × ((l.lost ≡ true) ⊎ (m.consumed ≡ l.written))
      × (m.consumed ≡ l.consumed ++ (unread l.reader ++ (l.wire ++ l.writer.o_buf)))
      × (m.written ≡ l.written)
Reach-drained p array l w h r =
    let f = Reach-IsFifo (new_link-IsFifo array h) r in
    let (m, more, all, same) = from_fifo p l w f in
    (
      m,
      more,
      rw all f.part,
      elim f.whole [ inl lost ↦ inl lost | inr whole ↦ inr (all ∙ sym whole) ],
      all,
      same,
    )
