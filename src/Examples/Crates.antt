-- ===== src/Examples/Crates.antt =====
-- A hash and a hexadecimal code that meet the laws of the crates: the digest of a text is the text,
-- and a number is written as that many letters `a` with a `b` behind them.
use simulboot.Base.{
  ℕ, zero, suc, ◌+◌, ◌≡◌, refl, ◌∙◌, true, false, [], ◌∷◌, arith, ◌==◌, Bytes, All, Result, ok, err,
}
use simulboot.Session.{Crypto, HexLaws, IsHexDigit}

letters : ℕ → Bytes → Bytes
letters zero rest = b'b' ∷ rest
letters (suc n) rest = b'a' ∷ letters n rest

write_code : Bytes → Bytes
unfolding letters
write_code [] = []
write_code (n ∷ s) = letters n (write_code s)

put_number : ℕ → Result Bytes Bytes → Result Bytes Bytes
put_number n (ok s) = ok (n ∷ s)
put_number n (err e) = err e

read_code : ℕ → Bytes → Result Bytes Bytes
unfolding put_number
read_code n [] = ok []
read_code n (c ∷ s) = elim (c == b'a') [
  | true ↦ read_code (suc n) s
  | false ↦ put_number n (read_code zero s)
]

unfoldable pub crates : Crypto
unfolding write_code read_code
crates = record { digest = λ s. s; encode = write_code; decode = read_code zero }

shift : ℕ → ℕ → ℕ
shift zero m = m
shift (suc n) m = shift n (suc m)

read-letters :
    (n m : ℕ) (rest : Bytes)
    → read_code m (letters n rest) ≡ put_number (shift n m) (read_code zero rest)
unfolding read_code letters shift
read-letters zero m rest = refl
read-letters (suc n) m rest = read-letters n (suc m) rest

shift-add : (n m : ℕ) → shift n m ≡ n + m
unfolding shift
shift-add zero m = omega arith
shift-add (suc n) m = omega (arith, shift-add n (suc m))

read-write : (s : Bytes) → read_code zero (write_code s) ≡ ok s
unfolding write_code put_number
read-write [] = unfold read_code in refl
read-write (n ∷ s) = read-letters n zero (write_code s) ∙ numbered (read-write s)
  where
    same : shift n zero ≡ n
    same = omega (arith, shift-add n zero)

    numbered :
        read_code zero (write_code s) ≡ ok s
        → put_number (shift n zero) (read_code zero (write_code s)) ≡ ok (n ∷ s)
    numbered h = rw (h, same)

letters-IsHexDigit : (n : ℕ) (rest : Bytes) → All IsHexDigit rest → All IsHexDigit (letters n rest)
unfolding letters
letters-IsHexDigit zero rest h = (omega arith, h)
letters-IsHexDigit (suc n) rest h = (omega arith, letters-IsHexDigit n rest h)

write-IsHexDigit : (s : Bytes) → All IsHexDigit (write_code s)
unfolding write_code
write-IsHexDigit [] = tt
write-IsHexDigit (n ∷ s) = letters-IsHexDigit n (write_code s) (write-IsHexDigit s)

pub crates-HexLaws : HexLaws crates
unfolding crates
crates-HexLaws = record { decode-encode = read-write; encode-IsHexDigit = write-IsHexDigit }
