-- ===== src/Pipe/Buffer/Refill.antt =====
-- The input buffer: what `underflow` makes of what is read.
use modglue.Common.{
  ℕ, ◌↔◌, inl, inr, false, Bool-cases, take-append-drop, zero, suc, ◌+◌, ◌-◌, ◌≤◌, ◌<◌, ◌≡◌, refl,
  sym, ap, ◌∙◌, [], ◌∷◌, ◌++◌, Option, none, some, minus_one, Bytes, arith, length, take, drop,
  get_or, length-append, length-take, length-drop, take-length-append, drop-length-append,
}
use modglue.Pipe.Buffer.{
  InBuf, bufsiz, putbackarea, slice, store, num_putback, tabulate, overlaps, copied_putback,
  keep_putback, underflow,
}

drop_exact : (xs ys : Bytes) (i : ℕ) → length xs ≡ i → drop i (xs ++ ys) ≡ ys
drop_exact xs ys i h = rw (← h) (drop-length-append xs ys)

take_exact : (xs ys : Bytes) (i : ℕ) → length xs ≡ i → take i (xs ++ ys) ≡ xs
take_exact xs ys i h = rw (← h) (take-length-append xs ys)

take_before : (xs ys : Bytes) (n : ℕ) → n ≤ length xs → take n (xs ++ ys) ≡ take n xs
take_before xs ys zero h = refl
take_before [] ys (suc n) h = absurd (omega arith)
take_before (x ∷ xs) ys (suc n) h = ap (◌∷◌ x) (take_before xs ys n (omega arith))

slice_before : (xs ys : Bytes) (j n : ℕ) → j + n ≤ length xs → slice (xs ++ ys) j n ≡ slice xs j n
slice_before xs ys zero n h = take_before xs ys n (omega arith)
slice_before [] ys (suc j) n h = absurd (omega arith)
slice_before (x ∷ xs) ys (suc j) n h = slice_before xs ys j n (omega arith)

module _ (buf text : Bytes) (i : ℕ) (fits : i + length text ≤ length buf) where
  kept : length (take i buf) ≡ i
  kept = omega (arith, length-take i buf)

  length-store : length (store buf i text) ≡ length buf
  length-store = omega (
    arith,
    kept,
    length-append (take i buf) (text ++ drop (i + length text) buf),
    length-append text (drop (i + length text) buf),
    length-drop (i + length text) buf,
  )

  -- What was stored is there, and what stands before it is unchanged.
  slice-store : slice (store buf i text) i (length text) ≡ text
  slice-store =
      rw (drop_exact (take i buf) (text ++ drop (i + length text) buf) i kept)
        (take-length-append text (drop (i + length text) buf))

  slice-store_before : (j n : ℕ) → j + n ≤ i → slice (store buf i text) j n ≡ slice buf j n
  slice-store_before j n h =
      slice_before (take i buf) _ j n (omega (arith, kept))
      ∙ sym (slice_before (take i buf) (drop i buf) j n (omega (arith, kept)))
      ∙ rw (take-append-drop i buf)

-- The pointers are in order and in the array.
pub record IsBounded (b : InBuf) : Type 0 where
  pub size : length b.i_buf ≡ bufsiz
  pub back : b.eback ≤ putbackarea
  pub back_get : b.eback ≤ b.gptr
  pub get_end : b.gptr ≤ b.egptr
  pub end_in : b.egptr ≤ bufsiz

length-slice : (buf : Bytes) (i n : ℕ) → i + n ≤ length buf → length (slice buf i n) ≡ n
length-slice buf i n h = omega (arith, length-take n (drop i buf), length-drop i buf)

length-tabulate : (n : ℕ) (f : ℕ → ℕ) → length (tabulate n f) ≡ n
length-tabulate zero f = refl
length-tabulate (suc n) f = ap suc (length-tabulate n (λ i. f (i + 1)))

-- The state after a refill.
abbrev refilled : (ℕ → ℕ) → InBuf → Bytes → InBuf
refilled f b text = record {
  i_buf = store (keep_putback f b) putbackarea text;
  eback = putbackarea - num_putback b;
  gptr = putbackarea;
  egptr = putbackarea + length text;
}

underflow-refilled :
    (f : ℕ → ℕ) (b : InBuf) (text : Bytes)
    → b.gptr ≡ b.egptr
    → (underflow f b (some text)).0 ≡ refilled f b text
unfolding underflow
underflow-refilled f b text used = ground arith

module _ (f : ℕ → ℕ) (b : InBuf) (text : Bytes) (v : IsBounded b)
    (fits : length text ≤ bufsiz - putbackarea) where
  saved : Bytes
  saved = copied_putback f b

  length-saved : length saved ≡ num_putback b
  unfolding saved
  length-saved = elim (Bool-cases (overlaps b)) [
    | inl moved ↦ rw moved (length-tabulate (num_putback b) f)
    | inr apart ↦
        rw apart
          (length-slice b.i_buf (b.gptr - num_putback b) (num_putback b) (omega (arith, v.size)))
  ]

  saved_fits : (putbackarea - num_putback b) + length saved ≤ length b.i_buf
  saved_fits = omega (arith, v.size, length-saved)

  length-keep : length (keep_putback f b) ≡ length b.i_buf
  unfolding saved
  length-keep = length-store b.i_buf saved (putbackarea - num_putback b) saved_fits

  text_fits : putbackarea + length text ≤ length (keep_putback f b)
  text_fits = omega (arith, v.size, length-keep)

  refilled-IsBounded : IsBounded (refilled f b text)
  refilled-IsBounded = record {
    size = length-store (keep_putback f b) text putbackarea text_fits ∙ length-keep ∙ v.size;
    back = omega arith;
    back_get = omega arith;
    get_end = omega arith;
    end_in = omega arith;
  }

  refilled-text :
      slice (refilled f b text).i_buf putbackarea ((putbackarea + length text) - putbackarea) ≡ text
  refilled-text =
      let e : (putbackarea + length text) - putbackarea ≡ length text = omega arith in
      rw e (slice-store (keep_putback f b) text putbackarea text_fits)

  refilled-saved :
      slice
        (refilled f b text).i_buf
        (putbackarea - num_putback b)
        (putbackarea - (putbackarea - num_putback b))
      ≡ saved
  unfolding saved
  refilled-saved =
      let e : putbackarea - (putbackarea - num_putback b) ≡ length saved =
        omega (arith, length-saved) in
      rw e (
        slice-store_before (keep_putback f b) text putbackarea text_fits
          (putbackarea - num_putback b) (length saved) (omega (arith, length-saved))
        ∙ slice-store b.i_buf saved (putbackarea - num_putback b) saved_fits)

-- What can be read next, whatever the `memcpy` does.
pub underflow_read :
    (f : ℕ → ℕ) (b : InBuf) (text : Bytes)
    → IsBounded b
    → b.gptr ≡ b.egptr
    → length text ≤ bufsiz - putbackarea
    → let b' = (underflow f b (some text)).0 in
      IsBounded b' × (slice b'.i_buf b'.gptr (b'.egptr - b'.gptr) ≡ text)
underflow_read f b text v used fits =
    rw (underflow-refilled f b text used)
      (refilled-IsBounded f b text v fits, refilled-text f b text v fits)

-- When the buffer is used up, `read` delivers bytes that fit, and the ranges of the `memcpy` do not
-- overlap: the bytes are what can be read next, behind the bytes (eight at most) that stood in the
-- buffer before the place of the next byte, which can still be put back; and the pointers stay in
-- the array.
pub underflow_lem :
    (f : ℕ → ℕ) (b : InBuf) (text : Bytes)
    → IsBounded b
    → b.gptr ≡ b.egptr
    → length text ≤ bufsiz - putbackarea
    → overlaps b ≡ false
    → let b' = (underflow f b (some text)).0 in
      IsBounded b'
      × (slice b'.i_buf b'.gptr (b'.egptr - b'.gptr) ≡ text)
      × (slice b'.i_buf b'.eback (b'.gptr - b'.eback)
          ≡ slice b.i_buf (b.gptr - num_putback b) (num_putback b))
unfolding saved
underflow_lem f b text v used fits apart =
    let copied : saved f b text v fits ≡ slice b.i_buf (b.gptr - num_putback b) (num_putback b) =
      rw apart refl in
    rw (underflow-refilled f b text used) (
      refilled-IsBounded f b text v fits,
      refilled-text f b text v fits,
      refilled-saved f b text v fits ∙ copied,
    )

pub underflow-some_left :
    (f : ℕ → ℕ) (b : InBuf) (text : Bytes)
    → b.gptr ≡ b.egptr
    → (underflow f b (some text)).0.egptr ≡ (underflow f b (some text)).0.gptr + length text
unfolding underflow
underflow-some_left f b text used = ground arith

-- A read that delivers nothing leaves the pointers where they were.
pub underflow-none-IsBounded :
    (f : ℕ → ℕ) (b : InBuf) → IsBounded b → b.gptr ≡ b.egptr → IsBounded (underflow f b none).0
unfolding underflow
underflow-none-IsBounded f b v used =
    let size = length-keep f b [] v (omega arith) in ground (arith, size)

pub underflow-none_used :
    (f : ℕ → ℕ) (b : InBuf)
    → b.gptr ≡ b.egptr
    → (underflow f b none).0.gptr ≡ (underflow f b none).0.egptr
unfolding underflow
underflow-none_used f b used = ground arith

-- With bytes left to read, the value of `underflow` is EOF exactly when the next byte is 255: the
-- `char` is not converted to an `unsigned char`, and a stream ends at such a byte.
pub underflow_255 :
    (f : ℕ → ℕ) (b : InBuf) (read : Option Bytes)
    → b.gptr < b.egptr
    → get_or b.i_buf b.gptr 0 < 256
    → ((underflow f b read).1 ≡ minus_one) ↔ (get_or b.i_buf b.gptr 0 ≡ 255)
unfolding underflow
underflow_255 f b read h byte = ground arith

-- Where the buffer holds bytes to put back from before the last read, and that read delivered fewer
-- than eight, the source of the `memcpy` begins within its destination.
pub memcpy_overlaps :
    (b : InBuf)
    → b.eback < putbackarea
    → putbackarea < b.gptr
    → b.gptr < putbackarea + putbackarea
    → (putbackarea - num_putback b < b.gptr - num_putback b)
      × (b.gptr - num_putback b < putbackarea)
memcpy_overlaps b h k l = omega arith
