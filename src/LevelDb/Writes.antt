-- ===== src/LevelDb/Writes.antt =====
-- The last word of a batch of LevelDB on a key.
use focal_point.Prelude.{
  ℕ, ◌≡◌, refl, Bool, false, Option, none, some, List, [], ◌∷◌, ◌++◌, Bytes, All, ◌==◌, bytes_equal,
  if◌then◌else◌, arith,
}
use focal_point.LevelDb.{Write, put, remove, last_write}

pub last_write-append :
    (key : Bytes) (xs ys : List Write)
    → last_write key (xs ++ ys)
      ≡ elim (last_write key ys) [ none ↦ last_write key xs | some word ↦ some word ]
unfolding last_write
last_write-append key [] ys = ground arith
last_write-append key (put k v ∷ xs) ys = ground (arith, last_write-append key xs ys)
last_write-append key (remove k ∷ xs) ys = ground (arith, last_write-append key xs ys)

abbrev pub write_key : Write → Bytes
write_key (put key v) = key
write_key (remove key) = key

abbrev pub write_word : Write → Option Bytes
write_word (put key v) = some v
write_word (remove key) = none

pub last_write-cons :
    (key : Bytes) (w : Write) (batch : List Write)
    → last_write key (w ∷ batch) ≡ elim (last_write key batch) [
      | none ↦ if bytes_equal (write_key w) key then some (write_word w) else none
      | some word ↦ some word
    ]
unfolding last_write
last_write-cons key (put k v) batch = refl
last_write-cons key (remove k) batch = refl

-- The key begins with this byte.
abbrev pub begins : ℕ → Bytes → Bool
begins p [] = false
begins p (b ∷ key) = b == p

-- No key of the batch begins with the byte.
abbrev pub Avoids : ℕ → List Write → Type 0
Avoids p batch = All (λ w. begins p (write_key w) ≡ false) batch

pub Avoids-append : (p : ℕ) (xs ys : List Write) → Avoids p xs → Avoids p ys → Avoids p (xs ++ ys)
Avoids-append p [] ys hx hy = hy
Avoids-append p (x ∷ xs) ys (h, hx) hy = (h, Avoids-append p xs ys hx hy)

other_key : (p : ℕ) (k key : Bytes) → begins p k ≡ false → bytes_equal k (p ∷ key) ≡ false
other_key p [] key h = refl
other_key p (b ∷ k) key h = ground arith

pub last_write-Avoids :
    (p : ℕ) (key : Bytes) (batch : List Write) → Avoids p batch → last_write (p ∷ key) batch ≡ none
unfolding last_write
last_write-Avoids p key [] h = refl
last_write-Avoids p key (put k v ∷ batch) (h, rest) =
    ground (arith, other_key p k key h, last_write-Avoids p key batch rest)
last_write-Avoids p key (remove k ∷ batch) (h, rest) =
    ground (arith, other_key p k key h, last_write-Avoids p key batch rest)

-- A part that avoids the key's first byte does not count.
pub last_write-before :
    (p : ℕ) (key : Bytes) (xs ys : List Write)
    → Avoids p ys
    → last_write (p ∷ key) (xs ++ ys) ≡ last_write (p ∷ key) xs
last_write-before p key xs ys h =
    ground (arith, last_write-append (p ∷ key) xs ys, last_write-Avoids p key ys h)

pub last_write-after :
    (p : ℕ) (key : Bytes) (xs ys : List Write)
    → Avoids p xs
    → last_write (p ∷ key) (xs ++ ys) ≡ last_write (p ∷ key) ys
last_write-after p key xs ys h =
    ground (arith, last_write-append (p ∷ key) xs ys, last_write-Avoids p key xs h)
