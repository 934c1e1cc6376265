-- ===== src/Binary/RoundTrip.antt =====
-- What was written big-endian is read back.
use native.Mathlib.Omega.{pow_step}
use focal_point.Prelude.{
  ℕ, zero, suc, ◌+◌, ◌*◌, ◌/◌, ◌%◌, ◌^◌, ◌≤◌, ◌<◌, ◌≡◌, refl, sym, ap, ◌∙◌, [], ◌∷◌, ◌++◌, Bytes, ℤ,
  pos, negsuc, pos_part, neg_part, signed64, signed32, wrap64, wrap32, take, drop, length, subst,
  take-append_left, length-append, ok, arith,
}
use focal_point.Binary.{
  be_bytes, from_be_after, from_be, pattern64, pattern32, be_int64, be_int32, read_bytes,
  read_int64, read_int32,
}

pub length-be_bytes : (n v : ℕ) → length (be_bytes n v) ≡ n
unfolding be_bytes
length-be_bytes zero v = refl
length-be_bytes (suc n) v =
    omega
      (arith, length-append (be_bytes n (v / 256)) ((v % 256) ∷ []), length-be_bytes n (v / 256))

from_be_after-append :
    (v : ℕ) (xs ys : Bytes) → from_be_after v (xs ++ ys) ≡ from_be_after (from_be_after v xs) ys
unfolding from_be_after
from_be_after-append v [] ys = refl
from_be_after-append v (x ∷ xs) ys = from_be_after-append (v * 256 + x) xs ys

times : (w p : ℕ) → w * (256 * p) ≡ w * p * 256
times w p = grind arith

shift : (w n v : ℕ) → (w * 256 ^ n + v / 256) * 256 + v % 256 ≡ w * 256 ^ suc n + v
shift w n v =
    omega (arith, pow_step 256 n, times (w) (256 ^ n), ap (λ (t : ℕ). w * t) (pow_step 256 n))

below : (n v : ℕ) → v < 256 ^ suc n → v / 256 < 256 ^ n
below n v h = omega (arith, pow_step 256 n)

from_be_after-be_bytes :
    (n v w : ℕ) → v < 256 ^ n → from_be_after w (be_bytes n v) ≡ w * 256 ^ n + v
unfolding be_bytes from_be_after
from_be_after-be_bytes zero v w h = grind arith
from_be_after-be_bytes (suc n) v w h =
    from_be_after-append w (be_bytes n (v / 256)) ((v % 256) ∷ [])
    ∙ ap (λ (t : ℕ). t * 256 + v % 256) (from_be_after-be_bytes n (v / 256) w (below n v h))
    ∙ shift w n v

pub from_be-be_bytes : (n v : ℕ) → v < 256 ^ n → from_be (be_bytes n v) ≡ v
unfolding from_be
from_be-be_bytes n v h = omega (arith, from_be_after-be_bytes n v 0 h)

pub be_bytes_injective :
    (n v w : ℕ) → v < 256 ^ n → w < 256 ^ n → be_bytes n v ≡ be_bytes n w → v ≡ w
be_bytes_injective n v w hv hw e =
    sym (from_be-be_bytes n v hv) ∙ ap from_be e ∙ from_be-be_bytes n w hw

pub pattern64-lt : (i : ℤ) → pattern64 i < 2 ^ 64
unfolding pattern64
pattern64-lt (pos n) = omega arith
pattern64-lt (negsuc n) = omega arith

pub pattern32-lt : (i : ℤ) → pattern32 i < 2 ^ 32
unfolding pattern32
pattern32-lt (pos n) = omega arith
pattern32-lt (negsuc n) = omega arith

pub signed64-pattern64 : (i : ℤ) → signed64 (pattern64 i) ≡ wrap64 i
unfolding pattern64 wrap64
signed64-pattern64 (pos n) = refl
signed64-pattern64 (negsuc n) = refl

pub signed32-pattern32 : (i : ℤ) → signed32 (pattern32 i) ≡ wrap32 i
unfolding pattern32 wrap32
signed32-pattern32 (pos n) = refl
signed32-pattern32 (negsuc n) = refl

pub take-append : (n : ℕ) (xs ys : Bytes) → length xs ≡ n → take n (xs ++ ys) ≡ xs
take-append n xs ys h = subst (λ (k : ℕ). take k (xs ++ ys) ≡ xs) h (take-append_left xs ys)

drop-append_left : (xs ys : Bytes) → drop (length xs) (xs ++ ys) ≡ ys
drop-append_left [] ys = refl
drop-append_left (x ∷ xs) ys = drop-append_left xs ys

drop-append : (n : ℕ) (xs ys : Bytes) → length xs ≡ n → drop n (xs ++ ys) ≡ ys
drop-append n xs ys h = subst (λ (k : ℕ). drop k (xs ++ ys) ≡ ys) h (drop-append_left xs ys)

pub read_bytes-append :
    (n : ℕ) (xs ys : Bytes) → length xs ≡ n → read_bytes n (xs ++ ys) ≡ ok (xs, ys)
unfolding read_bytes
read_bytes-append n xs ys h =
    ground (arith, take-append n xs ys h, drop-append n xs ys h, length-append xs ys)

-- What reading an int64 gives after writing one.
pub read_int64-be_int64 :
    (i : ℤ) (rest : Bytes) → read_int64 (be_int64 i ++ rest) ≡ ok (wrap64 i, rest)
unfolding read_int64 be_int64
read_int64-be_int64 i rest =
    rw (read_bytes-append 8 (be_bytes 8 (pattern64 i)) rest (length-be_bytes 8 (pattern64 i)))
      (rw (from_be-be_bytes 8 (pattern64 i) (pattern64-lt i)) (rw (signed64-pattern64 i) refl))

pub read_int32-be_int32 :
    (i : ℤ) (rest : Bytes) → read_int32 (be_int32 i ++ rest) ≡ ok (wrap32 i, rest)
unfolding read_int32 be_int32
read_int32-be_int32 i rest =
    rw (read_bytes-append 4 (be_bytes 4 (pattern32 i)) rest (length-be_bytes 4 (pattern32 i)))
      (rw (from_be-be_bytes 4 (pattern32 i) (pattern32-lt i)) (rw (signed32-pattern32 i) refl))

-- The int64 and the int32 that are no wrap-around.
abbrev pub Fits64 : ℤ → Type 0
Fits64 i = (pos_part i < 2 ^ 63) × (neg_part i ≤ 2 ^ 63)

abbrev pub Fits32 : ℤ → Type 0
Fits32 i = (pos_part i < 2 ^ 31) × (neg_part i ≤ 2 ^ 31)

pub wrap64-Fits64 : (i : ℤ) → Fits64 i → wrap64 i ≡ i
unfolding wrap64
wrap64-Fits64 i h = ground arith

pub wrap32-Fits32 : (i : ℤ) → Fits32 i → wrap32 i ≡ i
unfolding wrap32
wrap32-Fits32 i h = ground arith

pub be_int64_injective : (i j : ℤ) → Fits64 i → Fits64 j → be_int64 i ≡ be_int64 j → i ≡ j
be_int64_injective i j hi hj e = ground (
  arith,
  ap read_int64 (ap (λ (b : Bytes). b ++ []) e),
  read_int64-be_int64 i [],
  read_int64-be_int64 j [],
  wrap64-Fits64 i hi,
  wrap64-Fits64 j hj,
)
