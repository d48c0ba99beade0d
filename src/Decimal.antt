-- ===== src/Decimal.antt =====
-- Decimal numbers as the stream library prints them and as `atoi` and `sscanf` read them. The
-- numbers are descriptors, process ids and exit codes, which fit an `int`.
use modglue.Common.{
  ℕ, zero, suc, ◌+◌, ◌-◌, ◌*◌, ◌/◌, ◌%◌, ◌<◌, ◌≡◌, refl, ap, Bool, true, false, ◌&&◌, [], ◌∷◌, ◌++◌,
  Bytes, ltb, leb, if◌then◌else◌, arith,
}

abbrev pub is_digit : ℕ → Bool
is_digit c = leb b'0' c && leb c b'9'

-- The digits of `n` in front of a text. Each round divides by ten, so `n + 1` rounds are enough.
digits : ℕ → ℕ → Bytes → Bytes
digits zero n text = text
digits (suc fuel) n text =
    let rest = digits fuel (n / 10) ((b'0' + n % 10) ∷ text) in
    if ltb n 10 then (b'0' + n) ∷ text else rest

unfoldable pub print_dec : ℕ → Bytes
unfolding digits
print_dec n = digits (suc n) n []

-- The value of the digits at the front of a text, behind those of `v`, and what follows them.
unfoldable pub read_dec : ℕ → Bytes → ℕ × Bytes
read_dec v [] = (v, [])
read_dec v (c ∷ text) =
    let rest = read_dec (v * 10 + (c - b'0')) text in if is_digit c then rest else (v, c ∷ text)

-- `atoi`, on a text that begins with a digit.
unfoldable pub atoi : Bytes → ℕ
unfolding read_dec
atoi text = (read_dec 0 text).0

read_dec-digits :
    (fuel n : ℕ) (text : Bytes) → n < fuel → read_dec 0 (digits fuel n text) ≡ read_dec n text
unfolding digits read_dec
read_dec-digits zero n text h = absurd (omega arith)
read_dec-digits (suc fuel) n text h =
    ground (arith, read_dec-digits fuel (n / 10) ((b'0' + n % 10) ∷ text))

digits-append :
    (fuel n : ℕ) (text rest : Bytes) → digits fuel n text ++ rest ≡ digits fuel n (text ++ rest)
unfolding digits
digits-append zero n text rest = refl
digits-append (suc fuel) n text rest =
    ground (arith, digits-append fuel (n / 10) ((b'0' + n % 10) ∷ text) rest)

-- Reading a printed number goes on behind it, with its value.
pub read_dec-print_dec : (n : ℕ) (rest : Bytes) → read_dec 0 (print_dec n ++ rest) ≡ read_dec n rest
unfolding print_dec
read_dec-print_dec n rest =
    rw (digits-append (suc n) n [] rest) (read_dec-digits (suc n) n rest (omega arith))

pub atoi-print_dec : (n : ℕ) → atoi (print_dec n) ≡ n
unfolding atoi print_dec read_dec
atoi-print_dec n = ap (λ (r : ℕ × Bytes). r.0) (read_dec-digits (suc n) n [] (omega arith))

abbrev pub starts_number : Bytes → Bool
starts_number [] = false
starts_number (c ∷ text) = is_digit c

starts-digits : (fuel n : ℕ) (text : Bytes) → n < fuel → starts_number (digits fuel n text) ≡ true
unfolding digits
starts-digits zero n text h = absurd (omega arith)
starts-digits (suc fuel) n text h =
    ground (arith, starts-digits fuel (n / 10) ((b'0' + n % 10) ∷ text))

pub starts-print_dec : (n : ℕ) (rest : Bytes) → starts_number (print_dec n ++ rest) ≡ true
unfolding print_dec
starts-print_dec n rest =
    rw (digits-append (suc n) n [] rest) (starts-digits (suc n) n rest (omega arith))
