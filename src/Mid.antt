-- ===== src/Mid.antt =====
-- Message identifiers: `mid` of src/mid.cc and include/modglue/mid.hh.
use modglue.Common.{
  ℕ, zero, suc, ◌+◌, ◌≤◌, ◌≡◌, Bool, true, false, ◌&&◌, List, [], ◌∷◌, ◌++◌, Bytes, codes, ◌==◌,
  arith,
}
use modglue.Decimal.{print_dec}

pub record Mid : Type 0 where
  pub process : ℕ
  pub serial : ℕ

-- The constructor, on the process id and `highwater_`: the identifier, and the new `highwater_`.
-- `serial_` is an int, which fewer than 2 ^ 31 identifiers do not exceed.
unfoldable pub new_mid : ℕ → ℕ → Mid × ℕ
new_mid pid highwater = (record { process = pid; serial = highwater + 1 }, highwater + 1)

-- The copy constructor.
unfoldable pub copy_mid : Mid → Mid
copy_mid other = record { process = other.process; serial = other.serial }

-- `operator==`.
unfoldable pub equal_mid : Mid → Mid → Bool
equal_mid a b = (a.process == b.process) && (a.serial == b.serial)

-- `operator<<`.
unfoldable pub print_mid : Mid → Bytes
print_mid m = codes "mid=" ++ (print_dec m.process ++ (codes ", " ++ print_dec m.serial))

-- Identifiers that a process makes one after the other.
unfoldable pub mids : ℕ → ℕ → ℕ → List Mid
unfolding new_mid
mids pid highwater zero = []
mids pid highwater (suc n) =
    let (m, highwater') = new_mid pid highwater in m ∷ mids pid highwater' n

abbrev pub Differs : Mid → List Mid → Type 0
Differs m [] = Unit {0}
Differs m (x ∷ xs) = (equal_mid m x ≡ false) × (equal_mid x m ≡ false) × Differs m xs

abbrev pub AllDiffer : List Mid → Type 0
AllDiffer [] = Unit {0}
AllDiffer (x ∷ xs) = (equal_mid x (copy_mid x) ≡ true) × Differs x xs × AllDiffer xs

later-Differs :
    (m : Mid) (pid highwater n : ℕ) → m.serial ≤ highwater → Differs m (mids pid highwater n)
unfolding mids equal_mid
later-Differs m pid highwater zero h = tt
later-Differs m pid highwater (suc n) h =
    (ground arith, ground arith, later-Differs m pid (highwater + 1) n (omega arith))

-- Each identifier that a process makes is equal to its copy, and to no other one.
pub mids-AllDiffer : (pid highwater n : ℕ) → AllDiffer (mids pid highwater n)
unfolding mids equal_mid copy_mid
mids-AllDiffer pid highwater zero = tt
mids-AllDiffer pid highwater (suc n) = (
  ground arith,
  later-Differs _ pid (highwater + 1) n (omega arith),
  mids-AllDiffer pid (highwater + 1) n,
)
