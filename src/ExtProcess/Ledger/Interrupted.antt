-- ===== src/ExtProcess/Ledger/Interrupted.antt =====
-- What `open_pipes_` leaves where `socketpair` fails half-way.
use modglue.Common.{
  ℕ, ◌+◌, ◌≡◌, refl, ap, ◌∙◌, inl, inr, true, List, [], ◌∷◌, ◌++◌, Option, none, some, arith, ok,
  >>=-eq-ok, Result-cases, Bool-cases,
}
use modglue.System.{Call}
use modglue.Pipe.{Pipe, open_pipe}
use modglue.Pipe.Ledger.{count, count-append, held}
use modglue.ExtProcess.{ExtProcess}
use modglue.ExtProcess.Fork.{Sockets, open_each, open_left, open_pipes_left, open_pipes}
use modglue.ExtProcess.Ledger.{all_held, holds}

-- An `open` gives a pipe the pair that it was told, or throws.
open_pipe-given :
    (n : ℕ) (s : Option (ℕ × ℕ)) (p : Pipe) {p' : Pipe} {calls : List Call}
    → open_pipe none none s p ≡ ok (p', calls)
    → count n (held p')
      ≡ count n (held p) + count n (elim s [ none ↦ [] | some (ours, theirs) ↦ ours ∷ theirs ∷ [] ])
unfolding open_pipe
open_pipe-given n s p h = ground arith

open_left-Held :
    (n : ℕ) (ps : List Pipe) (sockets : Sockets)
    → let left = open_left ps sockets in
      count n (all_held left.pipes) ≡ count n (all_held ps) + count n left.given
unfolding open_left
open_left-Held n [] sockets = omega arith
open_left-Held n (p ∷ ps) [] = omega arith
open_left-Held n (p ∷ ps) (s ∷ sockets) = elim (Result-cases (open_pipe none none s p)) [
  | inr (e, thrown) ↦ rw (thrown, open_left) (omega arith)
  | inl ((p', calls), opened) ↦
      let rest = open_left ps sockets in
      let pair : List ℕ = elim s [ none ↦ [] | some (ours, theirs) ↦ ours ∷ theirs ∷ [] ] in
      rw (opened, open_left)
        (omega (
          arith,
          open_left-Held n ps sockets,
          open_pipe-given n s p opened,
          count-append n (held p) (all_held ps),
          count-append n (held p') (all_held rest.pipes),
          count-append n pair rest.given,
        ))
]

pub open_pipes_left-Held :
    (n : ℕ) (sockets : Sockets) (p : ExtProcess)
    → let (q, given) = open_pipes_left sockets p in holds n q ≡ holds n p + count n given
unfolding open_pipes_left
open_pipes_left-Held n sockets p =
    let ins = open_left p.input_pipes sockets in
    let outs = open_left p.output_pipes ins.sockets in
    elim (Bool-cases ins.all_open) [
      | inl all ↦ rw all (
          omega (
            arith,
            open_left-Held n p.input_pipes sockets,
            open_left-Held n p.output_pipes ins.sockets,
            count-append n ins.given outs.given,
          ))
      | inr some_closed ↦ rw some_closed (omega (arith, open_left-Held n p.input_pipes sockets))
    ]

-- Where all pipes are opened, this is what `open_pipes` gives.
open_left-open_each :
    (ps : List Pipe) (sockets : Sockets) (calls : List Call) {ps' : List Pipe} {left : Sockets}
    {all : List Call}
    → open_each ps sockets calls ≡ ok (ps', left, all)
    → ((open_left ps sockets).pipes ≡ ps')
      × ((open_left ps sockets).sockets ≡ left)
      × ((open_left ps sockets).all_open ≡ true)
unfolding open_left open_each
open_left-open_each [] sockets calls h = (cc, cc, refl)
open_left-open_each (p ∷ ps) [] calls h = cc
open_left-open_each (p ∷ ps) (s ∷ sockets) calls {ps'} {left} h =
    let ((p', more), first, h') = >>=-eq-ok (open_pipe none none s p) _ h in
    let ((qs, left', all'), others, e) = >>=-eq-ok (open_each ps sockets (calls ++ more)) _ h' in
    let (same, same_left, every) = open_left-open_each ps sockets (calls ++ more) others in
    let whole : p' ∷ qs ≡ ps' = cc in
    let rest : left' ≡ left = cc in
    rw (first, open_left) (ap (◌∷◌ p') same ∙ whole, same_left ∙ rest, every)

pub open_pipes_left-open_pipes :
    (sockets : Sockets) (p : ExtProcess) {q : ExtProcess} {calls : List Call}
    → open_pipes sockets p ≡ ok (q, calls)
    → (open_pipes_left sockets p).0 ≡ q
unfolding open_pipes_left open_pipes
open_pipes_left-open_pipes sockets p {q} h =
    let ((ins, left, calls), first, h') = >>=-eq-ok (open_each p.input_pipes sockets []) _ h in
    let ((outs, rest, all), second, e) = >>=-eq-ok (open_each p.output_pipes left calls) _ h' in
    let (same_ins, same_left, all_ins) = open_left-open_each p.input_pipes sockets [] first in
    let (same_outs, _, _) = open_left-open_each p.output_pipes left calls second in
    let whole : record p { input_pipes = ins; output_pipes = outs } ≡ q = cc in
    let outs_left =
      ap (λ (s : Sockets). (open_left p.output_pipes s).pipes) same_left ∙ same_outs in
    rw all_ins (
      ap
        (λ (ps : List Pipe). record p {
          input_pipes = ps;
          output_pipes = (open_left p.output_pipes (open_left p.input_pipes sockets).sockets).pipes;
        })
        same_ins
      ∙ ap (λ (ps : List Pipe). record p { input_pipes = ins; output_pipes = ps }) outs_left
      ∙ whole)
