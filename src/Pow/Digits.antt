-- ===== src/Pow/Digits.antt =====
-- Decimal numbers in pow/deepseek_pow.go: the digits that the search writes into `numBuf`, and
-- strconv.FormatInt in base 10.
use native.Mathlib.Nat.{pow-suc}
use deep_seek_web_to_api.Prelude.{
  ℕ, zero, suc, ◌+◌, ◌-◌, ◌*◌, ◌/◌, ◌%◌, ◌^◌, ◌≤◌, ◌<◌, ◌≡◌, ◌∙◌, ap, List, [], ◌∷◌, length, ◌==◌,
  if◌then◌else◌, arith, ==_iff, Bool-cases, inl, inr,
}
use deep_seek_web_to_api.Prelude.Int.{ℤ, pos, negsuc}

-- for v > 0 { pos--; numBuf[pos] = byte('0' + v%10); v /= 10 } with `fuel` bytes of the buffer left;
-- `written` is numBuf[pos:].
unfoldable pub write_digits : ℕ → ℕ → List ℕ → List ℕ
write_digits zero v written = written
write_digits (suc fuel) v written =
    let rest = write_digits fuel (v / 10) ((b'0' + v % 10) ∷ written) in
    if v == 0 then written else rest

-- numBuf[pos:] for the nonce n.
unfoldable pub num_text : ℕ → List ℕ
num_text n = if n == 0 then b'0' ∷ [] else write_digits 20 n []

unfoldable pub format_int : ℤ → List ℕ
unfolding num_text
format_int (pos n) = num_text n
format_int (negsuc n) = b'-' ∷ num_text (n + 1)

-- The number that a text of digits stands for, behind the digits read so far.
unfoldable pub value_from : ℕ → List ℕ → ℕ
value_from acc [] = acc
value_from acc (c ∷ cs) = value_from (acc * 10 + (c - b'0')) cs

length-write_digits :
    (fuel v : ℕ) (written : List ℕ) → length (write_digits fuel v written) ≤ fuel + length written
unfolding write_digits
length-write_digits zero v written = omega arith
length-write_digits (suc fuel) v written =
    ground (arith, length-write_digits fuel (v / 10) ((b'0' + v % 10) ∷ written))

pub length-num_text : (n : ℕ) → length (num_text n) ≤ 20
unfolding num_text
length-num_text n = ground (arith, length-write_digits 20 n [])

write_digits-value :
    (fuel v : ℕ) (written : List ℕ)
    → v < 10 ^ fuel
    → value_from 0 (write_digits fuel v written) ≡ value_from v written
unfolding write_digits value_from
write_digits-value zero v written h = let e : v ≡ 0 = omega arith in rw e
write_digits-value (suc fuel) v written h = elim (Bool-cases (v == 0)) [
  | inl e ↦ let z : v ≡ 0 = (==_iff v 0).0 e in rw (e, z)
  | inr e ↦ rw e (
      write_digits-value fuel (v / 10) ((b'0' + v % 10) ∷ written) smaller
      ∙ ap (λ n. value_from n written) (omega arith))
]
  where
    smaller : v / 10 < 10 ^ fuel
    smaller = let e : 10 ^ suc fuel ≡ 10 ^ fuel * 10 = pow-suc 10 fuel in omega arith

-- The search writes the number that it tries: for a nonce below 2 ^ 63 the text that is hashed
-- stands for the nonce, and fits the buffer of 20 bytes.
pub num_text-value :
    (n : ℕ) → n < 2 ^ 63 → (value_from 0 (num_text n) ≡ n) × (length (num_text n) ≤ 20)
unfolding num_text value_from
num_text-value n h = (read, length-num_text n)
  where
    read : value_from 0 (num_text n) ≡ n
    read = elim (Bool-cases (n == 0)) [
      | inl e ↦ let z : n ≡ 0 = (==_iff n 0).0 e in rw (e, z)
      | inr e ↦ rw e (write_digits-value 20 n [] (omega arith))
    ]
