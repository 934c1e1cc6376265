-- ===== src/ConsiderationQueue/Add.antt =====
-- `Add` on every branch, the cache included.
use focal_point.Prelude.{
  ◌≡◌, refl, sym, ◌∙◌, ap, ◌⊎◌, true, false, some, [], ◌∷◌, ◌++◌, ok, err, panic, Result,
  Result-cases, Error, Bool, no_imbalance, arith, Bool-cases, inl, inr, insert, nat_eq, subst,
  length, descendant, Bytes, lookup-insert,
}
use focal_point.Consideration.{Consideration, ConsiderationId, public_key_size}
use focal_point.ImbalanceCache.{Cache, apply}
use focal_point.ImbalanceCache.Moves.{Shows, lowered, raised}
use focal_point.ImbalanceCache.Undo.{apply-Shows}
use focal_point.Graph.{sender_descends}
use focal_point.Linked.{push_back, values}
use focal_point.Linked.Handles.{values-append}
use focal_point.Linked.Named.{push_back-Agrees, delete_new-Agrees}
use focal_point.ConsiderationQueue.{Setting, Queue, exists, add}
use focal_point.ConsiderationQueue.Agreement.{IsValid, Named}

-- The queue with a consideration at its back.
abbrev pushed : ConsiderationId → Consideration → Queue → Queue
pushed id cn q = record q {
  cn_map = insert id q.cn_queue.next q.cn_map;
  cn_queue = push_back cn q.cn_queue;
}

-- Why `Add` ends without an answer, by what the cache and the graph say: the imbalances do not cover
-- it, the sender is a descendant, or one of the two could not be asked.
pub data Refused (covered descends r : Result Bool) : Type 0 where
  uncovered : covered ≡ ok false → r ≡ err no_imbalance → Refused covered descends r
  descending :
      covered ≡ ok true → descends ≡ ok true → r ≡ err descendant → Refused covered descends r
  unread : (e : Error) → covered ≡ err e → r ≡ err e → Refused covered descends r
  unsearched :
      (e : Error) → covered ≡ ok true → descends ≡ err e → r ≡ err e → Refused covered descends r
  broken :
      (covered ≡ panic) ⊎ ((covered ≡ ok true) × (descends ≡ panic))
      → r ≡ panic
      → Refused covered descends r

module _ (env : Setting) (id : ConsiderationId) (cn : Consideration) (q : Queue) where
  add_old : exists id q ≡ true → add env id cn q ≡ (ok false, q)
  unfolding add
  add_old old = rw old

  values-pushed :
      (p : Queue) → values (pushed id cn p).cn_queue.items ≡ values p.cn_queue.items ++ cn ∷ []
  unfolding push_back
  values-pushed p = values-append p.cn_queue.next cn p.cn_queue.items

  exists-pushed : (p : Queue) → exists id (pushed id cn p) ≡ true
  unfolding exists
  exists-pushed p = ground (arith, lookup-insert id id p.cn_queue.next p.cn_map)

  -- A new consideration is pushed if the cache and the graph allow it, and otherwise refused.
  New : Type 0
  New =
      let (r, q') = add env id cn q in
      ((r ≡ ok true)
        × ((apply env.ledger cn q.cache).0 ≡ ok true)
        × (sender_descends env.graph cn ≡ ok false)
        × (q' ≡ pushed id cn (record q { cache = (apply env.ledger cn q.cache).1 })))
      ⊎ (Refused (apply env.ledger cn q.cache).0 (sender_descends env.graph cn) r
          × (q' ≡ record q { cache = (apply env.ledger cn q.cache).1 }))

  add_covered : exists id q ≡ false → (apply env.ledger cn q.cache).0 ≡ ok true → New
  unfolding add New
  add_covered new covered = elim (Result-cases (sender_descends env.graph cn)) [
    | inl (true, e) ↦ inr (descending covered e (ground arith), ground arith)
    | inl (false, e) ↦ inl (ground arith)
    | inr (inl (x, e)) ↦ inr (unsearched x covered e (ground arith), ground arith)
    | inr (inr e) ↦ inr (broken (inr (covered, e)) (ground arith), ground arith)
  ]

  add_new : exists id q ≡ false → New
  unfolding add New
  add_new new = elim (Result-cases (apply env.ledger cn q.cache).0) [
    | inl (true, e) ↦ add_covered new e
    | inl (false, e) ↦ inr (uncovered e (ground arith), ground arith)
    | inr (inl (x, e)) ↦ inr (unread x e (ground arith), ground arith)
    | inr (inr e) ↦ inr (broken (inl e) (ground arith), ground arith)
  ]

  pushed-IsValid :
      (cache : Cache)
      → exists id q ≡ false
      → Named env.crypto cn id
      → IsValid env q
      → IsValid env (pushed id cn (record q { cache = cache }))
  unfolding exists
  pushed-IsValid cache new name v =
      push_back-Agrees (Named env.crypto) q.cn_map q.cn_queue id cn name
        (delete_new-Agrees (Named env.crypto) q.cn_map q.cn_queue id (ground arith) v)

  -- `Add` keeps the map and the list in step, and does one of three things: a consideration that is
  -- queued already is left alone and the answer is false; a new one whose cached imbalances cover it
  -- and whose sender is no descendant of its recipient goes to the back and the answer is true; any
  -- other new one is refused, with the map and the list as they were and the error of what is against
  -- it: that the imbalances do not cover it, that the sender is a descendant, or the failure of the
  -- cache or of the search.
  pub add_cases :
      IsValid env q
      → Named env.crypto cn id
      → let (r, q') = add env id cn q in
        IsValid env q'
        × ((exists id q ≡ true) × (r ≡ ok false) × (q' ≡ q)
            ⊎ (exists id q ≡ false)
              × (r ≡ ok true)
              × ((apply env.ledger cn q.cache).0 ≡ ok true)
              × (sender_descends env.graph cn ≡ ok false)
              × (values q'.cn_queue.items ≡ values q.cn_queue.items ++ cn ∷ [])
              × (exists id q' ≡ true)
            ⊎ (exists id q ≡ false)
              × Refused (apply env.ledger cn q.cache).0 (sender_descends env.graph cn) r
              × (q'.cn_map ≡ q.cn_map)
              × (q'.cn_queue ≡ q.cn_queue))
  unfolding New
  add_cases v name = elim (Bool-cases (exists id q)) [
    | inl old ↦ rw (add_old old) (v, inl (old, refl, refl))
    | inr new ↦ elim (add_new new) [
      | inl (r, covered, clear, e) ↦ (
        subst (IsValid env) (sym e) (pushed-IsValid (apply env.ledger cn q.cache).1 new name v),
        inr (
            inl (
              new,
              r,
              covered,
              clear,
              ap (λ (p : Queue). values p.cn_queue.items) e
                  ∙ values-pushed (record q { cache = (apply env.ledger cn q.cache).1 }),
              ap (exists id) e
                  ∙ exists-pushed (record q { cache = (apply env.ledger cn q.cache).1 }),
            )),
      )
      | inr (refused, e) ↦ (
        subst (IsValid env) (sym e) v,
        inr (inr (new, refused, ap (λ p. p.cn_map) e, ap (λ p. p.cn_queue) e)),
      )
    ]
  ]

  -- A new consideration that its cached imbalances cover, but whose sender is a descendant of its
  -- recipient, is refused and not queued, yet the cache that is left has the sender's imbalance
  -- lowered and the recipient's raised.
  pub add_descendant_debits :
      (by for : Bytes)
      → cn.by ≡ some by
      → cn.for ≡ some for
      → length by ≡ public_key_size
      → length for ≡ public_key_size
      → exists id q ≡ false
      → (apply env.ledger cn q.cache).0 ≡ ok true
      → sender_descends env.graph cn ≡ ok true
      → let (r, q') = add env id cn q in
        (r ≡ err descendant)
        × (q'.cn_queue ≡ q.cn_queue)
        × Shows env.ledger q.cache q'.cache (λ key x. raised for key (lowered by key x))
  unfolding add
  add_descendant_debits by for eb ef sb sf new covered descends = (
    ground arith,
    ground arith,
    subst (λ c. Shows env.ledger q.cache c (λ key x. raised for key (lowered by key x)))
        (ground arith)
        (apply-Shows env.ledger cn by for eb ef sb sf q.cache (apply env.ledger cn q.cache).1
          (ground arith)).4,
  )
