-- ===== src/Pipe/Link.antt =====
-- A stream from one program to another: an `opipe` with its buffer at one end, an `ipipe` with its
-- buffer at the other, and the kernel's socket between them, which keeps bytes in their order.
pub mod Part
pub mod Ends
pub mod Order
pub mod Drain
use modglue.Common.{
  ℕ, ◌+◌, ◌-◌, ◌≤◌, Bool, false, ◌||◌, not, equal, ◌<◌, ◌≡◌, ◌≢◌, List, [], ◌∷◌, ◌++◌, some, none,
  Bytes, length, get_or,
}
use modglue.System.{WriteAnswer}
use modglue.Pipe.{Pipe, send_with_ack, returns}
use modglue.Pipe.Buffer.{
  OutBuf, InBuf, new_out, new_in, sputc, sync, underflow, bufsiz, putbackarea,
}

-- `written` and `consumed` are the history: the bytes that the one program put into its stream, and
-- those that the other took out. `lost` tells whether the kernel has not got all of some text that the
-- writer sent, as where `write` answered an error.
pub record Link : Type 0 where
  pub writer : OutBuf
  pub wire : Bytes
  pub reader : InBuf
  pub written : Bytes
  pub consumed : Bytes
  pub lost : Bool

-- The reader's array has any content.
abbrev pub new_link : Bytes → Link
new_link array = record {
  writer = new_out;
  wire = [];
  reader = new_in array;
  written = [];
  consumed = [];
  lost = false;
}

-- What the kernel gets of a text.
abbrev pub transmitted : Pipe → Bytes → List WriteAnswer → Bytes
transmitted p text answers = (send_with_ack p text answers).1

-- What becomes of `lost` when a text is sent.
abbrev pub lost_by : Pipe → Bytes → List WriteAnswer → Bool → Bool
lost_by p text answers lost = lost || not (equal (transmitted p text answers) text)

-- The steps of the two programs, in any order, on whatever the kernel answers, as long as the call
-- returns. Neither end is closed, and the reader puts no byte back.
pub data Step (p : Pipe) : Link → Link → Type 0 where
  -- a byte that fits
  put :
      (l : Link) (c : ℕ)
      → length l.writer.o_buf < bufsiz - 1
      → Step p l (record l { writer = sputc l.writer c; written = l.written ++ c ∷ [] })
  -- a byte that makes the buffer overflow
  put_full :
      (l : Link) (c : ℕ) (answers : List WriteAnswer)
      → length l.writer.o_buf ≡ bufsiz - 1
      → (send_with_ack p (l.writer.o_buf ++ c ∷ []) answers).0 ≡ returns
      → Step p l (record l {
        writer = sputc l.writer c;
        written = l.written ++ c ∷ [];
        wire = l.wire ++ transmitted p (l.writer.o_buf ++ c ∷ []) answers;
        lost = lost_by p (l.writer.o_buf ++ c ∷ []) answers l.lost;
      })
  -- `std::flush`
  flush :
      (l : Link) (answers : List WriteAnswer)
      → l.writer.o_buf ≢ []
      → (send_with_ack p l.writer.o_buf answers).0 ≡ returns
      → Step p l (record l {
        writer = sync l.writer;
        wire = l.wire ++ transmitted p l.writer.o_buf answers;
        lost = lost_by p l.writer.o_buf answers l.lost;
      })
  -- a read of what the kernel has, or of the first part of it, with the function of
  -- `copied_putback`
  refill :
      (l : Link) (f : ℕ → ℕ) (text rest : Bytes)
      → l.wire ≡ text ++ rest
      → length text ≤ bufsiz - putbackarea
      → l.reader.gptr ≡ l.reader.egptr
      → Step p l (record l { reader = (underflow f l.reader (some text)).0; wire = rest })
  -- a read that finds nothing
  starve :
      (l : Link) (f : ℕ → ℕ)
      → l.reader.gptr ≡ l.reader.egptr
      → Step p l (record l { reader = (underflow f l.reader none).0 })
  -- a byte that is taken out of the buffer
  get :
      (l : Link)
      → l.reader.gptr < l.reader.egptr
      → Step p l (record l {
        reader = record l.reader { gptr = l.reader.gptr + 1 };
        consumed = l.consumed ++ get_or l.reader.i_buf l.reader.gptr 0 ∷ [];
      })

pub data Reach (p : Pipe) (l : Link) : Link → Type 0 where
  here : Reach p l l
  next : {m n : Link} → Reach p l m → Step p m n → Reach p l n
