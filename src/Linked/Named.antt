-- ===== src/Linked/Named.antt =====
-- A list and the map from names to its elements: what both queues keep in step.
use focal_point.Prelude.{
  ℕ, ◌≡◌, ◌≢◌, ◌↔◌, ap, ◌<◌, none, some, List, [], ◌∷◌, ◌++◌, ◌==◌, arith, Bool-cases, Option-cases,
  inl, inr, ==_iff, Map, lookup, insert, delete, lookup-insert, lookup-delete, nat_eq, subst,
}
use focal_point.Linked.{Linked, push_back, push_front, remove, value_at, set_value, empty}
use focal_point.Linked.Handles.{
  value_at-append, value_at-drop, value_at-set, Distinct, Distinct-drop, Distinct-append,
  Distinct-set,
}

-- `Named a id` says that the value `a` has the name `id`.
pub record Agrees {A : Type 0} (Named : A → ℕ → Type 0) (index : Map ℕ ℕ) (l : Linked A)
    : Type 0 where
  pub fresh : (h : ℕ) (a : A) → value_at h l.items ≡ some a → h < l.next
  pub distinct : Distinct l.items
  pub points :
      (id h : ℕ) → lookup id index ≡ some h → (a : A) × (value_at h l.items ≡ some a) × Named a id
  pub listed :
      (h : ℕ) (a : A)
      → value_at h l.items ≡ some a
      → (id : ℕ) × Named a id × (lookup id index ≡ some h)

module _ {A : Type 0} (Named : A → ℕ → Type 0) where
  pub empty-Agrees : Agrees Named [] empty
  unfolding empty value_at lookup
  empty-Agrees = record {
    fresh = λ h a e. absurd (ground arith);
    distinct = tt;
    points = λ id h e. absurd (ground arith);
    listed = λ h a e. absurd (ground arith);
  }

  pub value_at-next :
      {index : Map ℕ ℕ} {l : Linked A} → Agrees Named index l → value_at l.next l.items ≡ none
  value_at-next {l = l} v = elim (Option-cases (value_at l.next l.items)) [
    | inl e ↦ e
    | inr (a, e) ↦ absurd (omega (arith, v.fresh l.next a e))
  ]

  module _ (index : Map ℕ ℕ) (l : Linked A) (id : ℕ) (a : A) (name : Named a id)
      (v : Agrees Named (delete id index) l) where
    -- Where the new element's handle leads, and what the other names lead to.
    push_points :
        (items : List (ℕ × A))
        → (value_at l.next items ≡ some a)
        → ((h : ℕ) → h ≢ l.next → value_at h items ≡ value_at h l.items)
        → (j h : ℕ) → lookup j (insert id l.next index) ≡ some h
        → (b : A) × (value_at h items ≡ some b) × Named b j
    push_points items new old j h e = elim (Bool-cases (id == j)) [
      | inl same ↦ (
        a,
        ground (arith, lookup-insert id j l.next index),
        subst (Named a) ((==_iff id j).0 same) name,
      )
      | inr other ↦
          let (b, at, nb) =
            v.points j h
              (ground (arith, lookup-insert id j l.next index, lookup-delete id j index)) in
          (b, ground (arith, old h, v.fresh h b at), nb)
    ]

    push_listed :
        (items : List (ℕ × A))
        → (value_at l.next items ≡ some a)
        → ((h : ℕ) → h ≢ l.next → value_at h items ≡ value_at h l.items)
        → (h : ℕ) (b : A) → value_at h items ≡ some b
        → (j : ℕ) × Named b j × (lookup j (insert id l.next index) ≡ some h)
    push_listed items new old h b e = elim (Bool-cases (l.next == h)) [
      | inl same ↦ (
        id,
        subst (λ c. Named c id)
            (ground (arith, ap (λ k. value_at k items) ((==_iff l.next h).0 same))) name,
        ground (arith, lookup-insert id id l.next index),
      )
      | inr other ↦
          let (j, nj, at) = v.listed h b (ground (arith, old h)) in
          (j, nj, ground (arith, lookup-insert id j l.next index, lookup-delete id j index))
    ]

    pub push_back-Agrees : Agrees Named (insert id l.next index) (push_back a l)
    unfolding push_back
    push_back-Agrees =
        let new : value_at l.next (l.items ++ (l.next, a) ∷ []) ≡ some a =
          ground (arith, value_at-append l.next l.next a l.items, value_at-next v) in
        let old : (h : ℕ)
            → h ≢ l.next
            → value_at h (l.items ++ (l.next, a) ∷ []) ≡ value_at h l.items =
          λ h ne. ground (arith, value_at-append h l.next a l.items) in
        record {
          fresh = λ h b e. ground (arith, value_at-append h l.next a l.items, v.fresh h b);
          distinct = Distinct-append l.next a l.items (value_at-next v) v.distinct;
          points = push_points (l.items ++ (l.next, a) ∷ []) new old;
          listed = push_listed (l.items ++ (l.next, a) ∷ []) new old;
        }

    pub push_front-Agrees : Agrees Named (insert id l.next index) (push_front a l)
    unfolding push_front value_at
    push_front-Agrees =
        let new : value_at l.next ((l.next, a) ∷ l.items) ≡ some a = ground arith in
        let old : (h : ℕ) → h ≢ l.next → value_at h ((l.next, a) ∷ l.items) ≡ value_at h l.items =
          λ h ne. ground arith in
        record {
          fresh = λ h b e. ground (arith, v.fresh h b);
          distinct = (value_at-next v, v.distinct);
          points = push_points ((l.next, a) ∷ l.items) new old;
          listed = push_listed ((l.next, a) ∷ l.items) new old;
        }

  pub delete_new-Agrees :
      (index : Map ℕ ℕ) (l : Linked A) (id : ℕ)
      → lookup id index ≡ none
      → Agrees Named index l
      → Agrees Named (delete id index) l
  delete_new-Agrees index l id e v = record {
    fresh = v.fresh;
    distinct = v.distinct;
    points = λ j h p. v.points j h (ground (arith, lookup-delete id j index));
    listed = λ h a p.
        let (j, nj, at) = v.listed h a p in
        (
          j,
          nj,
          ground (arith, lookup-delete id j index, ap (λ k. lookup k index) {x = id} {y = j}),
        );
  }

  -- Names are unique.
  module _ (unique : (a : A) (i j : ℕ) → Named a i → Named a j → i ≡ j) where
    pub remove-Agrees :
        (index : Map ℕ ℕ) (l : Linked A) (id h : ℕ)
        → lookup id index ≡ some h
        → Agrees Named index l
        → Agrees Named (delete id index) (remove h l)
    unfolding remove
    remove-Agrees index l id h e v =
        let (a, at, na) = v.points id h e in
        record {
          fresh = λ j b p. v.fresh j b (ground (arith, value_at-drop h j l.items));
          distinct = Distinct-drop h l.items v.distinct;
          points = λ j k p.
              let (b, bt, nb) = v.points j k (ground (arith, lookup-delete id j index)) in
              elim (Bool-cases (h == k)) [
                | inl same ↦
                    let b_is_a : b ≡ a =
                      ground (arith, ap (λ t. value_at t l.items) ((==_iff h k).0 same)) in
                    let clash = unique a id j na (subst (λ c. Named c j) b_is_a nb) in
                    absurd (ground (arith, lookup-delete id j index))
                | inr other ↦ (b, ground (arith, value_at-drop h k l.items), nb)
              ];
          listed = λ k b p.
              let (j, nj, bt) = v.listed k b (ground (arith, value_at-drop h k l.items)) in
              (
                j,
                nj,
                ground (
                  arith,
                  lookup-delete id j index,
                  value_at-drop h k l.items,
                  ap (λ t. lookup t index) {x = id} {y = j},
                ),
              );
        }

  -- A new value of the same name leaves the map as it was.
  pub set_value-Agrees :
      (index : Map ℕ ℕ) (l : Linked A) (h : ℕ) (a b : A)
      → value_at h l.items ≡ some a
      → ((id : ℕ) → Named a id ↔ Named b id)
      → Agrees Named index l
      → Agrees Named index (record l { items = set_value h b l.items })
  set_value-Agrees index l h a b at same v = record {
    fresh = λ j c e. let (d, _, old, _) = before j c e in v.fresh j d old;
    distinct = Distinct-set h b l.items v.distinct;
    points = λ id j e.
        let (c, ct, nc) = v.points id j e in
        elim (Bool-cases (h == j)) [
          | inl hit ↦ (
            b,
            ground (arith, value_at-set h j b l.items),
            (same id).0 (
                subst (λ d. Named d id)
                  (ground (arith, ap (λ k. value_at k l.items) {x = h} {y = j})) nc),
          )
          | inr miss ↦ (c, ground (arith, value_at-set h j b l.items), nc)
        ];
    listed = λ j c e.
        let (d, name, old, _) = before j c e in
        let (id, nd, p) = v.listed j d old in (id, name id nd, p);
  }
    where
      before :
          (j : ℕ) (c : A)
          → value_at j (set_value h b l.items) ≡ some c
          → (d : A) × ((id : ℕ) → Named d id → Named c id)
            × (value_at j l.items ≡ some d)
            × Unit {0}
      before j c e = elim (Option-cases (value_at j l.items)) [
        | inl missing ↦ absurd (ground (arith, value_at-set h j b l.items))
        | inr (d, old) ↦ elim (Bool-cases (h == j)) [
          | inl hit ↦
              let c_is_b : b ≡ c = ground (arith, value_at-set h j b l.items) in
              let d_is_a : d ≡ a = ground (arith, ap (λ k. value_at k l.items) {x = h} {y = j}) in
              (
                d,
                (λ id nd.
                    subst (λ x. Named x id) c_is_b
                      ((same id).0 (subst (λ x. Named x id) d_is_a nd))),
                old,
                tt,
              )
          | inr miss ↦ (
            d,
            (λ id nd. subst (λ x. Named x id) (ground (arith, value_at-set h j b l.items)) nd),
            old,
            tt,
          )
        ]
      ]
