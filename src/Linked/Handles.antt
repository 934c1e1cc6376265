-- ===== src/Linked/Handles.antt =====
-- Looking up a handle after each operation on the list.
use focal_point.Prelude.{
  ℕ, ◌≡◌, refl, none, some, List, [], ◌∷◌, ◌++◌, if◌then◌else◌, ◌==◌, arith, Bool-cases, inl, inr,
}
use focal_point.Linked.{drop_handle, value_at, set_value, values}

module _ {ℓ} {A : Type ℓ} where
  pub value_at-append :
      (h n : ℕ) (a : A) (items : List (ℕ × A))
      → value_at h (items ++ (n, a) ∷ [])
        ≡ elim (value_at h items) [ none ↦ (if n == h then some a else none) | some b ↦ some b ]
  unfolding value_at
  value_at-append h n a [] = refl
  value_at-append h n a ((j, b) ∷ items) = ground (arith, value_at-append h n a items)

  pub value_at-drop :
      (h j : ℕ) (items : List (ℕ × A))
      → value_at j (drop_handle h items) ≡ (if h == j then none else value_at j items)
  unfolding value_at drop_handle
  value_at-drop h j [] = ground arith
  value_at-drop h j ((i, a) ∷ items) = ground (arith, value_at-drop h j items)

  pub value_at-set :
      (h j : ℕ) (v : A) (items : List (ℕ × A))
      → value_at j (set_value h v items)
        ≡ elim (value_at j items) [ none ↦ none | some b ↦ some (if h == j then v else b) ]
  unfolding value_at set_value
  value_at-set h j v [] = refl
  value_at-set h j v ((i, a) ∷ items) = ground (arith, value_at-set h j v items)

  -- No two elements have one handle.
  abbrev pub Distinct : List (ℕ × A) → Type ℓ
  Distinct [] = Unit
  Distinct ((h, a) ∷ items) = (value_at h items ≡ none) × Distinct items

  pub Distinct-drop :
      (h : ℕ) (items : List (ℕ × A)) → Distinct items → Distinct (drop_handle h items)
  unfolding drop_handle
  Distinct-drop h [] d = tt
  Distinct-drop h ((j, a) ∷ items) d = elim (Bool-cases (j == h)) [
    | inl hit ↦ rw hit (Distinct-drop h items d.1)
    | inr miss ↦ rw miss (ground (arith, value_at-drop h j items), Distinct-drop h items d.1)
  ]

  pub Distinct-append :
      (n : ℕ) (a : A) (items : List (ℕ × A))
      → value_at n items ≡ none
      → Distinct items
      → Distinct (items ++ (n, a) ∷ [])
  unfolding value_at
  Distinct-append n a [] f d = (refl, tt)
  Distinct-append n a ((j, b) ∷ items) f d =
      (ground (arith, value_at-append j n a items), Distinct-append n a items (ground arith) d.1)

  pub values-append :
      (n : ℕ) (a : A) (items : List (ℕ × A))
      → values (items ++ (n, a) ∷ []) ≡ values items ++ a ∷ []
  values-append n a [] = refl
  values-append n a ((j, b) ∷ items) = rw (values-append n a items)

  pub Distinct-set :
      (h : ℕ) (v : A) (items : List (ℕ × A)) → Distinct items → Distinct (set_value h v items)
  unfolding set_value
  Distinct-set h v [] d = tt
  Distinct-set h v ((j, a) ∷ items) d =
      (ground (arith, value_at-set h j v items), Distinct-set h v items d.1)
