-- ===== src/HeaderHasher/Cells.antt =====
-- What stands in the buffer of a header hasher after a write.
use focal_point.Prelude.{
  ℕ, suc, ◌+◌, ◌≤◌, ◌<◌, ◌≡◌, refl, ◌∙◌, [], ◌∷◌, ◌++◌, Bytes, length, arith, ◌⊎◌, inl, subst, ◌≢◌,
  ◌==◌, if◌then◌else◌,
}
use focal_point.HeaderHasher.{Buffer, put, slice}

-- The buffer has the text at an index.
unfoldable pub Seen : ℕ → Bytes → Buffer → Type 0
Seen at [] b = Unit {0}
Seen at (x ∷ xs) b = (b at ≡ x) × Seen (suc at) xs b

if_other : (i at x y : ℕ) → i ≢ at → (if i == at then x else y) ≡ y
if_other i at x y h = ground arith

if_same : (at x y : ℕ) → (if at == at then x else y) ≡ x
if_same at x y = ground arith

pub put-other :
    (at i : ℕ) (xs : Bytes) (b : Buffer) → (i < at) ⊎ (at + length xs ≤ i) → put at xs b i ≡ b i
unfolding put
put-other at i [] b h = refl
put-other at i (x ∷ xs) b h =
    put-other (suc at) i xs (λ i. if i == at then x else b i) (ground arith)
    ∙ if_other i at x (b i) (ground arith)

pub put-Seen : (at : ℕ) (xs : Bytes) (b : Buffer) → Seen at xs (put at xs b)
unfolding Seen put
put-Seen at [] b = tt
put-Seen at (x ∷ xs) b = (
  put-other (suc at) at xs (λ i. if i == at then x else b i) (inl (omega arith))
      ∙ if_same at x (b at),
  put-Seen (suc at) xs _,
)

-- A write beside a text leaves it.
pub put-keeps :
    (at p : ℕ) (xs ys : Bytes) (b : Buffer)
    → (p + length ys ≤ at) ⊎ (at + length xs ≤ p)
    → Seen p ys b
    → Seen p ys (put at xs b)
unfolding Seen
put-keeps at p xs [] b beside h = tt
put-keeps at p xs (y ∷ ys) b beside h =
    (put-other at p xs b (ground arith) ∙ h.0, put-keeps at (suc p) xs ys b (ground arith) h.1)

pub Seen-append :
    (at next : ℕ) (xs ys : Bytes) (b : Buffer)
    → next ≡ at + length xs
    → Seen at xs b
    → Seen next ys b
    → Seen at (xs ++ ys) b
unfolding Seen
Seen-append at next [] ys b e h k = subst (λ (n : ℕ). Seen n ys b) (omega arith) k
Seen-append at next (x ∷ xs) ys b e h k =
    (h.0, Seen-append (suc at) next xs ys b (omega arith) h.1 k)

pub Seen-parts :
    (at : ℕ) (xs ys : Bytes) (b : Buffer)
    → Seen at (xs ++ ys) b
    → Seen at xs b × Seen (at + length xs) ys b
unfolding Seen
Seen-parts at [] ys b h = (tt, subst (λ (n : ℕ). Seen n ys b) (omega arith) h)
Seen-parts at (x ∷ xs) ys b h =
    let (a, c) = Seen-parts (suc at) xs ys b h.1 in
    ((h.0, a), subst (λ (n : ℕ). Seen n ys b) (omega arith) c)

pub Seen-slice : (at : ℕ) (xs : Bytes) (b : Buffer) → Seen at xs b → slice at (length xs) b ≡ xs
unfolding Seen slice
Seen-slice at [] b h = refl
Seen-slice at (x ∷ xs) b h = cc (h.0, Seen-slice (suc at) xs b h.1)
