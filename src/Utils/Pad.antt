-- ===== src/Utils/Pad.antt =====
-- The padded and encoded keys of utils.go.
use focal_point.Prelude.{
  ℕ, ◌+◌, ◌-◌, ◌*◌, ◌/◌, ◌%◌, ◌<◌, ◌≤◌, ◌≡◌, refl, ◌≢◌, ◌↔◌, false, [], ◌∷◌, ◌++◌, Bytes, ok, panic,
  arith, length, replicate, length-append, length-replicate, bytes_equal_iff, All, ap, ◌⊎◌,
}
use focal_point.Utils.{pad44, slashed, contains_byte, base64, base64_digit}

-- The slash makes a text of 44 bytes only from one of 43 without a slash.
slashed_panic :
    (input : Bytes)
    → ((length input < 44) × (43 < length (slashed input)))
      ↔ ((length input ≡ 43) × (contains_byte b'/' input ≡ false))
unfolding slashed
slashed_panic input = ground (
  arith,
  length-append input (b'/' ∷ []),
  ap {B = ℕ} length {x = input} {y = b'0' ∷ []},
  bytes_equal_iff input (b'0' ∷ []),
)

length-padded :
    (xs : Bytes) (n : ℕ) → length (xs ++ replicate n b'0' ++ b'=' ∷ []) ≡ length xs + n + 1
length-padded xs n =
    let zeros : Bytes = replicate n b'0' in
    let end : Bytes = b'=' ∷ [] in
    omega (
      arith,
      length-append {A = ℕ} (xs ++ zeros) end,
      length-append {A = ℕ} xs zeros,
      length-replicate {A = ℕ} n b'0',
    )

-- `pad44` ends in a panic exactly on inputs of 43 bytes that hold no slash; whenever it returns, it
-- returns an input of 44 bytes or more as it is and anything shorter as a text of 44 bytes.
pub pad44_total :
    (input : Bytes)
    → ((pad44 input ≡ panic) ↔ ((length input ≡ 43) × (contains_byte b'/' input ≡ false)))
      × ((output : Bytes)
          → pad44 input ≡ ok output
          → ((44 ≤ length input) × (output ≡ input)) ⊎ ((length input < 44) × (length output ≡ 44)))
unfolding pad44
pad44_total input = (
  (ground (arith, slashed_panic input), ground (arith, slashed_panic input)),
  λ output h.
      ground (
        arith,
        slashed_panic input,
        length-padded (slashed input) (44 - length (slashed input) - 1),
      ),
)

digit_injective : (i j : ℕ) → i < 64 → j < 64 → base64_digit i ≡ base64_digit j → i ≡ j
unfolding base64_digit
digit_injective i j hi hj h = ground arith

digit-ne-padding : (i : ℕ) → base64_digit i ≢ b'='
unfolding base64_digit
digit-ne-padding i = ground arith

-- Byte slices with the same base64 text are the same.
pub base64_injective :
    (xs ys : Bytes)
    → All (λ b. b < 256) xs
    → All (λ b. b < 256) ys
    → base64 xs ≡ base64 ys
    → xs ≡ ys
unfolding base64
base64_injective [] [] hx hy e = refl
base64_injective [] (x ∷ []) hx hy e = cc
base64_injective [] (x ∷ y ∷ []) hx hy e = cc
base64_injective [] (x ∷ y ∷ z ∷ zs) hx hy e = cc
base64_injective (a ∷ []) [] hx hy e = cc
base64_injective (a ∷ []) (x ∷ []) hx hy e =
    ground (arith, digit_injective (a / 4) (x / 4), digit_injective (a % 4 * 16) (x % 4 * 16))
base64_injective (a ∷ []) (x ∷ y ∷ []) hx hy e = ground (arith, digit-ne-padding (y % 16 * 4))
base64_injective (a ∷ []) (x ∷ y ∷ z ∷ zs) hx hy e =
    ground (arith, digit-ne-padding (y % 16 * 4 + z / 64))
base64_injective (a ∷ b ∷ []) [] hx hy e = cc
base64_injective (a ∷ b ∷ []) (x ∷ []) hx hy e = ground (arith, digit-ne-padding (b % 16 * 4))
base64_injective (a ∷ b ∷ []) (x ∷ y ∷ []) hx hy e = ground (
  arith,
  digit_injective (a / 4) (x / 4),
  digit_injective (a % 4 * 16 + b / 16) (x % 4 * 16 + y / 16),
  digit_injective (b % 16 * 4) (y % 16 * 4),
)
base64_injective (a ∷ b ∷ []) (x ∷ y ∷ z ∷ zs) hx hy e = ground (arith, digit-ne-padding (z % 64))
base64_injective (a ∷ b ∷ c ∷ cs) [] hx hy e = cc
base64_injective (a ∷ b ∷ c ∷ cs) (x ∷ []) hx hy e =
    ground (arith, digit-ne-padding (b % 16 * 4 + c / 64))
base64_injective (a ∷ b ∷ c ∷ cs) (x ∷ y ∷ []) hx hy e = ground (arith, digit-ne-padding (c % 64))
base64_injective (a ∷ b ∷ c ∷ cs) (x ∷ y ∷ z ∷ zs) hx hy e = ground (
  arith,
  digit_injective (a / 4) (x / 4),
  digit_injective (a % 4 * 16 + b / 16) (x % 4 * 16 + y / 16),
  digit_injective (b % 16 * 4 + c / 64) (y % 16 * 4 + z / 64),
  digit_injective (c % 64) (z % 64),
  base64_injective cs zs,
)
