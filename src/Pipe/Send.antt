-- ===== src/Pipe/Send.antt =====
-- `send_blocking_`, `send_with_ack` and `read_with_ack`: what the kernel gets, and what the caller
-- is told.
use modglue.Common.{
  ℕ, ℤ, ◌↔◌, zero, suc, ◌+◌, ◌-◌, ◌≤◌, ◌<◌, min, ◌≡◌, ◌≢◌, refl, sym, ap, ◌∙◌, ◌⊎◌, inl, inr, List,
  [], ◌∷◌, ◌++◌, some, Bytes, arith, ◌==◌, ltb, if◌then◌else◌, true, false, length, take, drop,
  take-append-drop, drop_all, append-nil, append_assoc, Bool-cases, pos, minus_one,
}
use modglue.System.{WriteAnswer, took, again, broke, ReadAnswer}
use modglue.Pipe.{
  Pipe, send_loop, send_blocking, send_with_ack, sent, gave_up, waiting, returns, hangs, Sending,
  SendEnd, is_open, read_nonblocking, read_with_ack, chunk_size,
}

drop_nil {ℓ} : {A : Type ℓ} (n : ℕ) → drop {A = A} n [] ≡ []
drop_nil zero = refl
drop_nil (suc n) = refl

drop-drop {ℓ} : {A : Type ℓ} (m n : ℕ) (xs : List A) → drop n (drop m xs) ≡ drop (m + n) xs
drop-drop zero n xs = let e : 0 + n ≡ n = omega arith in rw e
drop-drop (suc m) n [] = drop_nil n ∙ sym (drop_nil (suc m + n))
drop-drop (suc m) n (x ∷ xs) =
    let e : suc m + n ≡ suc (m + n) = omega arith in rw e (drop-drop m n xs)

-- The first part of `xs` from `m` on, and the rest.
split_at {ℓ} :
    {A : Type ℓ} (m n : ℕ) (xs : List A) → drop m xs ≡ take n (drop m xs) ++ drop (m + n) xs
split_at m n xs =
    sym (take-append-drop n (drop m xs)) ∙ ap (◌++◌ (take n (drop m xs))) (drop-drop m n xs)

-- What the kernel took is the first part of the text from `len` on, and all of it at the end.
Delivers : Bytes → SendEnd × Bytes → Type 0
Delivers text (end, taken) = ((rest : Bytes) × (text ≡ taken ++ rest)) × (end ≡ sent → taken ≡ text)

Delivers-sent :
    (text : Bytes) (len : ℕ) → ltb len (length text) ≡ false → Delivers (drop len text) (sent, [])
unfolding Delivers
Delivers-sent text len h = ((drop len text, refl), λ _. sym (drop_all len text (ground arith)))

Delivers-stopped : (text : Bytes) (end : SendEnd) → end ≢ sent → Delivers text (end, [])
unfolding Delivers
Delivers-stopped text end h = ((text, refl), λ e. absurd (h e))

Delivers-append :
    (text part rest : Bytes) (r : SendEnd × Bytes)
    → text ≡ part ++ rest
    → Delivers rest r
    → Delivers text (r.0, part ++ r.1)
unfolding Delivers
Delivers-append text part rest (end, taken) e ((unsent, split), exact) =
    ((unsent, e ∙ rw split (sym (append_assoc part taken unsent))), λ all. rw (exact all) (sym e))

send_loop-Delivers :
    (text : Bytes) (len : ℕ) (answers : List WriteAnswer)
    → Delivers (drop len text) (send_loop text len answers)
unfolding send_loop
send_loop-Delivers text len [] = elim (Bool-cases (ltb len (length text))) [
  | inl more ↦ rw more (Delivers-stopped _ waiting (λ e. cc))
  | inr done ↦ rw done (Delivers-sent text len done)
]
send_loop-Delivers text len (took n ∷ answers) = elim (Bool-cases (ltb len (length text))) [
  | inl more ↦ rw more (
      let ret = min n (min chunk_size (length text - len)) in
      Delivers-append (drop len text) (take ret (drop len text)) (drop (len + ret) text) _
        (split_at len ret text) (send_loop-Delivers text (len + ret) answers))
  | inr done ↦ rw done (Delivers-sent text len done)
]
send_loop-Delivers text len (again ∷ answers) = elim (Bool-cases (ltb len (length text))) [
  | inl more ↦ rw more (send_loop-Delivers text len answers)
  | inr done ↦ rw done (Delivers-sent text len done)
]
send_loop-Delivers text len (broke ∷ answers) = elim (Bool-cases (ltb len (length text))) [
  | inl more ↦ rw more (Delivers-stopped _ gave_up (λ e. cc))
  | inr done ↦ rw done (Delivers-sent text len done)
]

-- The answers that make progress.
abbrev pub progress : List WriteAnswer → ℕ
progress [] = 0
progress (took n ∷ answers) = (if n == 0 then 0 else 1) + progress answers
progress (_ ∷ answers) = progress answers

abbrev pub NoError : List WriteAnswer → Type 0
NoError [] = Unit {0}
NoError (broke ∷ answers) = ⊥
NoError (_ ∷ answers) = NoError answers

send_loop-sent :
    (text : Bytes) (len : ℕ) (answers : List WriteAnswer)
    → NoError answers
    → length text ≤ len + progress answers
    → (send_loop text len answers).0 ≡ sent
unfolding send_loop
send_loop-sent text len [] h k = ground arith
send_loop-sent text len (took n ∷ answers) h k =
    ground (arith, send_loop-sent text (len + min n (min chunk_size (length text - len))) answers h)
send_loop-sent text len (again ∷ answers) h k = ground (arith, send_loop-sent text len answers h)
send_loop-sent text len (broke ∷ answers) h k = absurd h

abbrev pub Writable : Pipe → Type 0
Writable p = (is_open p.fd ≡ true) × (p.broken ≡ false)

-- What the end of the loop makes of `send_with_ack`, for a text that is not empty.
abbrev outcome : SendEnd → Sending
outcome sent = returns
outcome gave_up = returns
outcome waiting = hangs

send_with_ack-loop :
    (p : Pipe) (c : ℕ) (text : Bytes) (answers : List WriteAnswer)
    → Writable p
    → let run = send_loop (c ∷ text) 0 answers in
      send_with_ack p (c ∷ text) answers ≡ (outcome run.0, run.1)
unfolding send_with_ack send_blocking
send_with_ack-loop p c text answers w = ground arith

-- On an open pipe, if the kernel answers no error and takes at least one byte in as many calls of
-- `write` as the text has bytes, `send_with_ack` returns, and the kernel has got the whole text in
-- order, whatever the sizes of the parts and however often it answered EAGAIN.
pub send_with_ack_delivers :
    (p : Pipe) (text : Bytes) (answers : List WriteAnswer)
    → Writable p
    → text ≢ []
    → NoError answers
    → length text ≤ progress answers
    → send_with_ack p text answers ≡ (returns, text)
unfolding Delivers
send_with_ack_delivers p [] answers w ne h k = absurd (ne refl)
send_with_ack_delivers p (c ∷ text) answers w ne h k =
    let done = send_loop-sent (c ∷ text) 0 answers h (omega arith) in
    send_with_ack-loop p c text answers w
    ∙ rw (done, (send_loop-Delivers (c ∷ text) 0 answers).1 done)

-- The loop on a short write and then an error.
send_loop-broke :
    (text : Bytes) (taken : ℕ) (answers : List WriteAnswer)
    → taken < length text
    → send_loop text 0 (took taken ∷ broke ∷ answers) ≡ (gave_up, take (min taken chunk_size) text)
unfolding send_loop
send_loop-broke text taken answers h =
    let size : min taken (min chunk_size (length text - 0)) ≡ min taken chunk_size = omega arith in
    rw size (ground (arith, append-nil (take (min taken chunk_size) text)))

-- A write error is not reported: `send_blocking_` returns -1, which `send_with_ack` compares with
-- `false`, and so it returns as after a success, with a part of the text lost.
pub send_with_ack-broke :
    (p : Pipe) (text : Bytes) (taken : ℕ) (answers : List WriteAnswer)
    → Writable p
    → taken < length text
    → send_with_ack p text (took taken ∷ broke ∷ answers)
      ≡ (returns, take (min taken chunk_size) text)
send_with_ack-broke p [] taken answers w h = absurd (omega arith)
send_with_ack-broke p (c ∷ text) taken answers w h =
    send_with_ack-loop p c text _ w ∙ rw (send_loop-broke (c ∷ text) taken answers h)

Writable-cases : (p : Pipe) → Writable p ⊎ ((is_open p.fd ≡ false) ⊎ (p.broken ≡ true))
Writable-cases p = ground arith

unwritable :
    (p : Pipe) (text : Bytes) (answers : List WriteAnswer)
    → (is_open p.fd ≡ false) ⊎ (p.broken ≡ true)
    → (send_with_ack p text answers).1 ≡ []
unfolding send_with_ack send_blocking
unwritable p text answers h = ground arith

-- Whatever the kernel answers, what it got is the first part of the text, and nothing of it unless the
-- pipe is open and not broken.
pub send_with_ack_prefix :
    (p : Pipe) (text : Bytes) (answers : List WriteAnswer)
    → text ≢ []
    → let r = send_with_ack p text answers in
      ((rest : Bytes) × (text ≡ r.1 ++ rest)) × (Writable p ⊎ (r.1 ≡ []))
unfolding Delivers
send_with_ack_prefix p [] answers ne = absurd (ne refl)
send_with_ack_prefix p (c ∷ text) answers ne = elim (Writable-cases p) [
  | inl w ↦
      let (rest, split) = (send_loop-Delivers (c ∷ text) 0 answers).0 in
      rw (send_with_ack-loop p c text answers w) ((rest, split), inl w)
  | inr closed ↦
      let none_taken = unwritable p (c ∷ text) answers closed in
      ((c ∷ text, rw none_taken), inr none_taken)
]

-- `read_with_ack` delivers what `read` did and returns its result, but -1 where that is 0, the end of
-- the file. It marks the pipe broken exactly when `read` finds the end of the file and this is the
-- first read after a select, and in each case the next read is no longer the first.
pub read_with_ack-broken :
    (p : Pipe) (answers : List ReadAnswer) {p' : Pipe} {ret : ℤ} {text : Bytes}
    → read_with_ack p answers ≡ some (p', ret, text)
    → (((read_nonblocking p answers ≡ some (pos 0, text)) × (ret ≡ minus_one))
        ⊎ ((ret ≢ pos 0) × (read_nonblocking p answers ≡ some (ret, text))))
      × (p'.first_read_after_select ≡ false)
      × ((p'.broken ≡ true) ↔ (
          (p.broken ≡ true)
          ⊎ ((p.first_read_after_select ≡ true)
              × (read_nonblocking p answers ≡ some (pos 0, text)))))
unfolding read_with_ack
read_with_ack-broken p answers h = ground arith
