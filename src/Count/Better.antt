-- ===== src/Count/Better.antt =====
-- `Compare` picks one of two headers, whichever way round they are compared, and never runs in
-- circles.
use focal_point.Prelude.{
  ◌≡◌, ◌≢◌, ◌<◌, ◌<ℤ◌, ◌↔◌, ◌⊎◌, inl, inr, true, false, ok, arith, ℤ, Result-cases,
}
use focal_point.Count.{CountId, CountHeader, Hashing, compare_headers, compare_ids}

module _ (hashing : Hashing) where
  -- Of two headers whose identifiers can be computed and differ exactly one is better, whatever their
  -- work and the times of their storing are: `Compare` returns both ways round, with opposite answers.
  pub compare_headers_decides :
      (a b : CountHeader) (id_a id_b : CountId) (when_a when_b : ℤ)
      → hashing.header_digest a ≡ ok id_a
      → hashing.header_digest b ≡ ok id_b
      → id_a ≢ id_b
      → ((compare_headers hashing a b when_a when_b ≡ ok true)
          × (compare_headers hashing b a when_b when_a ≡ ok false))
        ⊎ ((compare_headers hashing a b when_a when_b ≡ ok false)
            × (compare_headers hashing b a when_b when_a ≡ ok true))
  unfolding compare_headers compare_ids
  compare_headers_decides a b id_a id_b when_a when_b ea eb ne = ground arith

  -- The three ways to be better.
  abbrev Better : CountHeader → CountHeader → ℤ → ℤ → Type 0
  Better a b when_a when_b =
      (b.point_work < a.point_work)
      ⊎ ((a.point_work ≡ b.point_work) × (when_a <ℤ when_b))
      ⊎ ((a.point_work ≡ b.point_work) × (when_a ≡ when_b) × (compare_ids hashing a b ≡ ok true))

  Better-iff :
      (a b : CountHeader) (when_a when_b : ℤ)
      → (compare_headers hashing a b when_a when_b ≡ ok true) ↔ Better a b when_a when_b
  unfolding compare_headers
  Better-iff a b when_a when_b = ground arith

  compare_ids-true :
      (a b : CountHeader)
      → compare_ids hashing a b ≡ ok true
      → (i : CountId) × (j : CountId) × (hashing.header_digest a ≡ ok i)
        × (hashing.header_digest b ≡ ok j)
        × (i < j)
  unfolding compare_ids
  compare_ids-true a b h = elim (Result-cases (hashing.header_digest a)) [
    | inl (i, e) ↦ elim (Result-cases (hashing.header_digest b)) [
      | inl (j, k) ↦ (i, j, e, k, ground arith)
      | inr k ↦ absurd (ground arith)
    ]
    | inr e ↦ absurd (ground arith)
  ]

  compare_ids_trans :
      (a b c : CountHeader)
      → compare_ids hashing a b ≡ ok true
      → compare_ids hashing b c ≡ ok true
      → compare_ids hashing a c ≡ ok true
  unfolding compare_ids
  compare_ids_trans a b c h k =
      let (i, j, ea, eb, lt) = compare_ids-true a b h in
      let (j', m, eb', ec, lt') = compare_ids-true b c k in
      let same : j ≡ j' = ground arith in rw (ea, ec, compare_ids) (ground arith)

  -- A header that is better than one that is better than a third is better than the third, whatever
  -- the identifiers are.
  pub compare_headers_trans :
      (a b c : CountHeader) (when_a when_b when_c : ℤ)
      → compare_headers hashing a b when_a when_b ≡ ok true
      → compare_headers hashing b c when_b when_c ≡ ok true
      → compare_headers hashing a c when_a when_c ≡ ok true
  compare_headers_trans a b c when_a when_b when_c h k =
      (Better-iff a c when_a when_c).1
        (join ((Better-iff a b when_a when_b).0 h) ((Better-iff b c when_b when_c).0 k))
    where
      join : Better a b when_a when_b → Better b c when_b when_c → Better a c when_a when_c
      join p q = ground (arith, compare_ids_trans a b c)
