-- ===== src/Utils.antt =====
-- utils.go: the texts by which keys are compared. A string is the list of its bytes.
pub mod Pad
use focal_point.Prelude.{
  ℕ, ◌+◌, ◌-◌, ◌*◌, ◌/◌, ◌%◌, Bool, true, false, not, ◌&&◌, ◌||◌, Option, none, some, List, [], ◌∷◌,
  ◌++◌, Bytes, Result, ok, panic, ltb, leb, ◌==◌, if◌then◌else◌, bytes_equal, length, replicate,
}
use focal_point.Consideration.{PublicKey}

-- The digits of base64.StdEncoding.
unfoldable pub base64_digit : ℕ → ℕ
base64_digit i =
    if ltb i 26
    then b'A' + i
    else if ltb i 52
    then b'a' + (i - 26)
    else if ltb i 62
    then b'0' + (i - 52)
    else if i == 62
    then b'+'
    else b'/'

-- `base64.StdEncoding.EncodeToString`
unfoldable pub base64 : Bytes → Bytes
unfolding base64_digit
base64 [] = []
base64 (a ∷ []) = base64_digit (a / 4) ∷ base64_digit (a % 4 * 16) ∷ b'=' ∷ b'=' ∷ []
base64 (a ∷ b ∷ []) =
    base64_digit (a / 4)
    ∷ base64_digit (a % 4 * 16 + b / 16)
    ∷ base64_digit (b % 16 * 4)
    ∷ b'='
    ∷ []
base64 (a ∷ b ∷ c ∷ rest) =
    base64_digit (a / 4)
    ∷ base64_digit (a % 4 * 16 + b / 16)
    ∷ base64_digit (b % 16 * 4 + c / 64)
    ∷ base64_digit (c % 64)
    ∷ base64 rest

-- `strings.Contains(input, "/")`
unfoldable pub contains_byte : ℕ → Bytes → Bool
contains_byte c [] = false
contains_byte c (x ∷ xs) = x == c || contains_byte c xs

abbrev pub base64_length : ℕ
base64_length = 44

-- A slash ends what is padded, unless it is "0" or has one.
unfoldable pub slashed : Bytes → Bytes
unfolding contains_byte
slashed input =
    if not (bytes_equal input (b'0' ∷ [])) && not (contains_byte b'/' input)
    then input ++ b'/' ∷ []
    else input

-- `pad44`: `strings.Repeat` panics on a negative count.
unfoldable pub pad44 : Bytes → Result Bytes
unfolding slashed
pad44 input =
    if leb base64_length (length input)
    then ok input
    else if ltb (base64_length - 1) (length (slashed input))
    then panic
    else ok
        (slashed input ++ replicate (base64_length - length (slashed input) - 1) b'0' ++ b'=' ∷ [])

-- `pubKeyToString`
unfoldable pub pub_key_to_string : PublicKey → Result Bytes
unfolding pad44 base64
pub_key_to_string none = pad44 (b'0' ∷ [])
pub_key_to_string (some key) = ok (base64 key)
