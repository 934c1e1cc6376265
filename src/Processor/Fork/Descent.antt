-- ===== src/Processor/Fork/Descent.antt =====
-- A walk from a header down to an ancestor, and the lists that it leaves behind.
use focal_point.Prelude.{
  ℕ, zero, suc, ◌≡◌, refl, sym, ◌∙◌, ◌↔◌, true, some, List, [], ◌∷◌, ◌++◌, ℤ, pos, eqb_ℤ_iff, arith,
  ok,
}
use mathlib.Core.List.{append_assoc, append-nil, reverse_aux}
use focal_point.Count.{CountId, CountHeader}
use focal_point.Processor.Target.{History}
use focal_point.Processor.Fork.{append, prepend, header_equal}

pub header_equal_iff : (a b : CountHeader) → (header_equal a b ≡ true) ↔ (a ≡ b)
unfolding header_equal
header_equal_iff a b = ground (
  arith,
  eqb_ℤ_iff a.time b.time,
  eqb_ℤ_iff a.nonce b.nonce,
  eqb_ℤ_iff a.height b.height,
  eqb_ℤ_iff a.consideration_count b.consideration_count,
)

module _ (history : History) (genesis : CountHeader) where
  -- The header `n` steps above the genesis header, on a point that the storage holds.
  abbrev pub Rooted : ℕ → CountHeader → Type 0
  Rooted zero header = (header ≡ genesis) × (header.height ≡ pos 0)
  Rooted (suc n) header =
      (header.height ≡ pos (suc n))
      × (previous : CountHeader) × (when : ℤ) × (history.get_count_header header.previous
          ≡ ok (some (previous, when)))
      × Rooted n previous

-- The counts from one header down to, and without, an ancestor.
pub data Descent (history : History)
    : CountId → CountHeader → List CountId → CountId → CountHeader → Type 0 where
  there : {id : CountId} {header : CountHeader} → Descent history id header [] id header
  back :
      {id ancestor_id : CountId} {header previous ancestor : CountHeader} {ids : List CountId}
      (when : ℤ)
      → history.get_count_header header.previous ≡ ok (some (previous, when))
      → Descent history header.previous previous ids ancestor_id ancestor
      → Descent history id header (id ∷ ids) ancestor_id ancestor

abbrev pub pushed_all :
    (List CountId → CountId → List CountId) → List CountId → List CountId → List CountId
pushed_all push counts [] = counts
pushed_all push counts (id ∷ ids) = pushed_all push (push counts id) ids

module _ (history : History) where
  pub pushed_all-append : (counts ids : List CountId) → pushed_all append counts ids ≡ counts ++ ids
  pushed_all-append counts [] = sym (append-nil counts)
  pushed_all-append counts (id ∷ ids) =
      pushed_all-append (counts ++ id ∷ []) ids ∙ append_assoc counts (id ∷ []) ids

  pub pushed_all-prepend :
      (counts ids : List CountId) → pushed_all prepend counts ids ≡ reverse_aux ids counts
  pushed_all-prepend counts [] = refl
  pushed_all-prepend counts (id ∷ ids) = pushed_all-prepend (id ∷ counts) ids

  pub pushed_all-pushed_all :
      (push : List CountId → CountId → List CountId) (counts xs ys : List CountId)
      → pushed_all push (pushed_all push counts xs) ys ≡ pushed_all push counts (xs ++ ys)
  pushed_all-pushed_all push counts [] ys = refl
  pushed_all-pushed_all push counts (x ∷ xs) ys = pushed_all-pushed_all push (push counts x) xs ys

  pub Descent-append :
      {id mid last : CountId} {header middle ancestor : CountHeader} {xs ys : List CountId}
      → Descent history id header xs mid middle
      → Descent history mid middle ys last ancestor
      → Descent history id header (xs ++ ys) last ancestor
  Descent-append there e = e
  Descent-append (back when found d) e = back when found (Descent-append d e)
