-- ===== src/Pipe/Link/Part.antt =====
-- A text of which some bytes of another one are left, in their order.
use modglue.Common.{
  ◌≡◌, refl, sym, ap, ◌∙◌, ◌⊎◌, inl, inr, Bool, true, ◌||◌, not, [], ◌∷◌, ◌++◌, Bytes, equal,
  equal_iff, append_assoc, Bool-cases, arith,
}

-- The first text is what is left of the second where any of its bytes are taken out.
abbrev pub IsPart : Bytes → Bytes → Type 0
IsPart xs [] = xs ≡ []
IsPart xs (y ∷ ys) = IsPart xs ys ⊎ ((zs : Bytes) × (xs ≡ y ∷ zs) × IsPart zs ys)

IsPart-refl : (xs : Bytes) → IsPart xs xs
IsPart-refl [] = refl
IsPart-refl (x ∷ xs) = inr (xs, refl, IsPart-refl xs)

IsPart-nil : (xs : Bytes) → IsPart [] xs
IsPart-nil [] = refl
IsPart-nil (x ∷ xs) = inl (IsPart-nil xs)

IsPart-trans : (xs ys zs : Bytes) → IsPart xs ys → IsPart ys zs → IsPart xs zs
IsPart-trans xs ys [] h k = rw k at h
IsPart-trans xs ys (z ∷ zs) h (inl k) = inl (IsPart-trans xs ys zs h k)
IsPart-trans xs ys (z ∷ zs) h (inr (ws, e, k)) =
    let h' : IsPart xs (z ∷ ws) = rw e at h in
    elim h' [
      | inl skipped ↦ inl (IsPart-trans xs ws zs skipped k)
      | inr (vs, e', kept) ↦ inr (vs, e', IsPart-trans vs ws zs kept k)
    ]

pub IsPart-append : (xs ys zs : Bytes) → IsPart xs ys → IsPart (xs ++ zs) (ys ++ zs)
IsPart-append xs [] zs h = rw h (IsPart-refl zs)
IsPart-append xs (y ∷ ys) zs (inl h) = inl (IsPart-append xs ys zs h)
IsPart-append xs (y ∷ ys) zs (inr (ws, e, h)) =
    inr (ws ++ zs, ap (λ (t : Bytes). t ++ zs) e, IsPart-append ws ys zs h)

IsPart-first : (xs ys : Bytes) → IsPart xs (xs ++ ys)
IsPart-first [] ys = IsPart-nil ys
IsPart-first (x ∷ xs) ys = inr (xs, refl, IsPart-first xs ys)

-- A text is sent behind others, and the kernel gets the first part of it.
pub sent-IsPart :
    (ahead got text written rest : Bytes)
    → text ≡ got ++ rest
    → IsPart (ahead ++ text) written
    → IsPart (ahead ++ got) written
sent-IsPart ahead got text written rest e h =
    IsPart-trans (ahead ++ got) (ahead ++ text) written
      (rw (e, sym (append_assoc ahead got rest)) (IsPart-first (ahead ++ got) rest)) h

-- If nothing was lost before, and the kernel gets all of it, nothing is lost.
pub sent_whole :
    (ahead got text written : Bytes) (lost : Bool)
    → (lost ≡ true) ⊎ (written ≡ ahead ++ text)
    → ((lost || not (equal got text)) ≡ true) ⊎ (written ≡ ahead ++ got)
sent_whole ahead got text written lost (inl already) = inl (ground arith)
sent_whole ahead got text written lost (inr whole) = elim (Bool-cases (equal got text)) [
  | inl all ↦
      let same : got ≡ text = (equal_iff got text).0 all in inr (whole ∙ ap (◌++◌ ahead) (sym same))
  | inr part ↦ inl (ground arith)
]
