-- ===== src/HeaderHasher/Digits.antt =====
-- The numbers in a marshalled header, in base 10.
use native.Mathlib.Omega.{pow_step}
use focal_point.Prelude.{
  ℕ, zero, suc, ◌+◌, ◌-◌, ◌*◌, ◌/◌, ◌%◌, ◌^◌, ◌≤◌, ◌<◌, ◌≡◌, refl, [], ◌∷◌, ◌++◌, Bytes, ℤ, pos,
  negsuc, ◌≤ℤ◌, ◌<ℤ◌, length, length-append, arith,
}
use focal_point.HeaderHasher.{digits, append_int}

length-digits : (most fuel n : ℕ) → n < 10 ^ suc most → length (digits fuel n) ≤ suc most
unfolding digits
length-digits most zero n h = omega arith
length-digits zero (suc fuel) n h = ground arith
length-digits (suc most) (suc fuel) n h =
    let shorter = length-digits most fuel (n / 10) (omega (arith, pow_step 10 (suc most))) in
    let end : Bytes = (b'0' + n % 10) ∷ [] in
    ground (arith, length-append (digits fuel (n / 10)) end)

pub length-append_int :
    (most : ℕ) (i : ℤ) → pos 0 ≤ℤ i → i <ℤ pos (10 ^ suc most) → length (append_int i) ≤ suc most
unfolding append_int
length-append_int most (pos n) h k = length-digits most 19 n (omega arith)
length-append_int most (negsuc n) h k = omega arith

abbrev read_digits : ℕ → Bytes → ℕ
read_digits v [] = v
read_digits v (d ∷ ds) = read_digits (v * 10 + (d - b'0')) ds

read_digits-append :
    (v : ℕ) (xs ys : Bytes) → read_digits v (xs ++ ys) ≡ read_digits (read_digits v xs) ys
read_digits-append v [] ys = refl
read_digits-append v (x ∷ xs) ys = read_digits-append (v * 10 + (x - b'0')) xs ys

-- As many digits as the fuel allows are enough for the numbers below that power of 10.
read_digits-digits : (fuel n : ℕ) → n < 10 ^ fuel → read_digits 0 (digits fuel n) ≡ n
unfolding digits
read_digits-digits zero n h = omega arith
read_digits-digits (suc fuel) n h =
    let rest = read_digits-digits fuel (n / 10) (omega (arith, pow_step 10 fuel)) in
    let end : Bytes = (b'0' + n % 10) ∷ [] in
    ground (arith, rest, read_digits-append 0 (digits fuel (n / 10)) end)
