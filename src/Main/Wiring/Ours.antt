-- ===== src/Main/Wiring/Ours.antt =====
-- The pipes of an object that `fork` has changed, against those that it opened.
use modglue.Common.{◌≡◌, refl, ap, ◌∙◌, List, [], ◌∷◌, ◌++◌, Bytes, arith}
use mathlib.Core.Path.{subst}
use modglue.Pipe.{Pipe, close_external}
use modglue.ExtProcess.Fork.Descriptors.{AllPipes}
use modglue.ExtProcess.{each_pipe}
use modglue.Main.Wiring.{Lacks, NotNamed}

-- The parent's view of pipes: those of `fork` with the program's ends closed.
abbrev pub ours_of : List Pipe → List Pipe
ours_of ps = (each_pipe close_external ps).0

pub close_external_kept :
    (p : Pipe) → ((close_external p).0.name ≡ p.name) × ((close_external p).0.fd ≡ p.fd)
unfolding close_external
close_external_kept p = ground arith

pub ours_of-append : (ps rs : List Pipe) → ours_of (ps ++ rs) ≡ ours_of ps ++ ours_of rs
unfolding each_pipe
ours_of-append [] rs = refl
ours_of-append (p ∷ ps) rs = ap (◌∷◌ (close_external p).0) (ours_of-append ps rs)

-- A pipe of the parent and those behind it, in the list before the ends were closed.
pub ours_of-split :
    (ps before after : List Pipe) (q : Pipe)
    → ours_of ps ≡ before ++ q ∷ after
    → (before' : List Pipe) × (q' : Pipe) × (after' : List Pipe) × (ps ≡ before' ++ q' ∷ after')
      × ((close_external q').0 ≡ q)
      × (ours_of after' ≡ after)
unfolding each_pipe
ours_of-split [] [] after q h = cc
ours_of-split [] (b ∷ before) after q h = cc
ours_of-split (p ∷ ps) [] after q h = ([], p, ps, refl, cc, cc)
ours_of-split (p ∷ ps) (b ∷ before) after q h =
    let (before', q', after', split, closed, behind) = ours_of-split ps before after q cc in
    (p ∷ before', q', after', ap (◌∷◌ p) split, closed, behind)

pub NotNamed-ours_of :
    (name : Bytes) (ps : List Pipe) → NotNamed name (ours_of ps) → NotNamed name ps
unfolding each_pipe
NotNamed-ours_of name [] h = tt
NotNamed-ours_of name (p ∷ ps) (h, k) =
    (λ e. h ((close_external_kept p).0 ∙ e), NotNamed-ours_of name ps k)

-- A name that can stand in an argument `--pipe=NAME,FD`.
abbrev pub IsPlain : Pipe → Type 0
IsPlain p = Lacks b',' p.name

pub IsPlain-ours_of : (ps : List Pipe) → AllPipes IsPlain (ours_of ps) → AllPipes IsPlain ps
unfolding each_pipe
IsPlain-ours_of [] h = tt
IsPlain-ours_of (p ∷ ps) (h, k) =
    (subst (Lacks b',') (close_external_kept p).0 h, IsPlain-ours_of ps k)

pub AllPipes-append :
    (P : Pipe → Type 0) (ps rs : List Pipe) → AllPipes P ps → AllPipes P rs → AllPipes P (ps ++ rs)
AllPipes-append P [] rs h k = k
AllPipes-append P (p ∷ ps) rs (h, hs) k = (h, AllPipes-append P ps rs hs k)

pub AllPipes-split :
    (P : Pipe → Type 0) (before after : List Pipe) (q : Pipe)
    → AllPipes P (before ++ q ∷ after)
    → AllPipes P before × P q × AllPipes P after
AllPipes-split P [] after q (h, hs) = (tt, h, hs)
AllPipes-split P (b ∷ before) after q (h, hs) =
    let (first, this, rest) = AllPipes-split P before after q hs in ((h, first), this, rest)
