-- ===== src/Binary.antt =====
-- Go's encoding/binary in big-endian order, on numbers, int64 and int32.
pub mod RoundTrip
use focal_point.Prelude.{
  ℕ, zero, suc, ◌+◌, ◌-◌, ◌*◌, ◌/◌, ◌%◌, ◌^◌, List, [], ◌∷◌, ◌++◌, Bytes, ℤ, pos, negsuc, signed64,
  signed32, take, drop, length, ltb, if◌then◌else◌, Result, ok, err, ◌>>=◌, storage,
}

-- A number in a given count of bytes.
unfoldable pub be_bytes : ℕ → ℕ → Bytes
be_bytes zero v = []
be_bytes (suc n) v = be_bytes n (v / 256) ++ (v % 256) ∷ []

unfoldable pub from_be_after : ℕ → Bytes → ℕ
from_be_after v [] = v
from_be_after v (b ∷ bytes) = from_be_after (v * 256 + b) bytes

unfoldable pub from_be : Bytes → ℕ
unfolding from_be_after
from_be bytes = from_be_after 0 bytes

-- The bit patterns of an int64 and of an int32.
unfoldable pub pattern64 : ℤ → ℕ
pattern64 (pos n) = n % 2 ^ 64
pattern64 (negsuc n) = 2 ^ 64 - 1 - n % 2 ^ 64

unfoldable pub pattern32 : ℤ → ℕ
pattern32 (pos n) = n % 2 ^ 32
pattern32 (negsuc n) = 2 ^ 32 - 1 - n % 2 ^ 32

unfoldable pub be_int64 : ℤ → Bytes
unfolding be_bytes pattern64
be_int64 i = be_bytes 8 (pattern64 i)

unfoldable pub be_int32 : ℤ → Bytes
unfolding be_bytes pattern32
be_int32 i = be_bytes 4 (pattern32 i)

-- `binary.Read`: the bytes that are read and those that are left, or io.EOF and its like.
unfoldable pub read_bytes : ℕ → Bytes → Result (Bytes × Bytes)
read_bytes n bytes = if ltb (length bytes) n then err storage else ok (take n bytes, drop n bytes)

unfoldable pub read_int64 : Bytes → Result (ℤ × Bytes)
unfolding read_bytes from_be
read_int64 bytes = do (read, rest) ← read_bytes 8 bytes; ok (signed64 (from_be read), rest)

unfoldable pub read_int32 : Bytes → Result (ℤ × Bytes)
unfolding read_bytes from_be
read_int32 bytes = do (read, rest) ← read_bytes 4 bytes; ok (signed32 (from_be read), rest)
