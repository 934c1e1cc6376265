-- ===== src/ConsiderationQueue/Agreement.antt =====
-- Each operation of the queue keeps its map and its list in step.
use focal_point.Prelude.{
  ℕ, ◌≡◌, refl, some, List, [], ◌∷◌, ok, arith, Option-cases, inl, inr, lookup, delete, nat_eq,
}
use focal_point.Consideration.{Consideration, ConsiderationId, Crypto, consideration_id}
use focal_point.Linked.{remove, value_at}
use focal_point.Linked.Named.{
  Agrees, empty-Agrees, push_front-Agrees, delete_new-Agrees, remove-Agrees,
}
use focal_point.ConsiderationQueue.{
  Setting, Queue, new_queue, add_front, add_batch, remove_ids, evict,
}

module _ (crypto : Crypto) where
  abbrev pub Named : Consideration → ConsiderationId → Type 0
  Named cn id = consideration_id crypto cn ≡ ok id

  pub unique_name : (cn : Consideration) (i j : ConsiderationId) → Named cn i → Named cn j → i ≡ j
  unique_name cn i j p q = ground arith

-- The map has exactly the queued considerations, under their identifiers.
abbrev pub IsValid : Setting → Queue → Type 0
IsValid env q = Agrees (Named env.crypto) q.cn_map q.cn_queue

module _ (env : Setting) where
  pub new_queue-IsValid : IsValid env new_queue
  unfolding new_queue
  new_queue-IsValid = empty-Agrees (Named env.crypto)

  pub add_front-IsValid :
      (id : ConsiderationId) (cn : Consideration) (q : Queue)
      → Named env.crypto cn id
      → IsValid env q
      → IsValid env (add_front env id cn q)
  unfolding add_front
  add_front-IsValid id cn q name v = elim (Option-cases (lookup id q.cn_map)) [
    | inl e ↦
        rw (e, add_front)
          (push_front-Agrees (Named env.crypto) q.cn_map q.cn_queue id cn name
            (delete_new-Agrees (Named env.crypto) q.cn_map q.cn_queue id e v))
    | inr (h, e) ↦
        rw (e, add_front)
          (push_front-Agrees (Named env.crypto) q.cn_map (remove h q.cn_queue) id cn name (
            remove-Agrees (Named env.crypto) (unique_name env.crypto) q.cn_map q.cn_queue id h e v))
  ]

  pub remove_ids-IsValid :
      (ids : List ConsiderationId) (q : Queue) → IsValid env q → IsValid env (remove_ids env ids q)
  unfolding remove_ids
  remove_ids-IsValid [] q v = v
  remove_ids-IsValid (id ∷ ids) q v = elim (Option-cases (lookup id q.cn_map)) [
    | inl e ↦ rw (e, remove_ids) (remove_ids-IsValid ids q v)
    | inr (h, e) ↦
        rw (e, remove_ids)
          (remove_ids-IsValid ids
            (record q { cn_map = delete id q.cn_map; cn_queue = remove h q.cn_queue })
            (remove-Agrees (Named env.crypto) (unique_name env.crypto) q.cn_map q.cn_queue id h e
              v))
  ]

  -- An element of a valid queue is evicted, and nothing else is.
  pub evict_lem :
      (h : ℕ) (cn : Consideration) (q : Queue)
      → IsValid env q
      → value_at h q.cn_queue.items ≡ some cn
      → (q' : Queue) × (evict env cn q ≡ (ok tt, q'))
        × IsValid env q'
        × (q'.cn_queue ≡ remove h q.cn_queue)
  unfolding evict
  evict_lem h cn q v at =
      let (id, name, e) = v.listed h cn at in
      (
        record q { cn_map = delete id q.cn_map; cn_queue = remove h q.cn_queue },
        ground arith,
        remove-Agrees (Named env.crypto) (unique_name env.crypto) q.cn_map q.cn_queue id h e v,
        refl,
      )

  -- What `AddBatch` is given: as many identifiers as considerations, each that of its own.
  abbrev pub Names : List ConsiderationId → List Consideration → Type 0
  Names ids [] = Unit
  Names [] (cn ∷ cns) = ⊥
  Names (id ∷ ids) (cn ∷ cns) = Named env.crypto cn id × Names ids cns

  -- `AddBatch` with as many identifiers as considerations, each that of its own, does not panic, and
  -- leaves the map and the list in step if they were.
  pub add_batch_lem :
      (ids : List ConsiderationId) (cns : List Consideration) (q : Queue)
      → Names ids cns
      → IsValid env q
      → (q' : Queue) × (add_batch env ids cns q ≡ (ok tt, q')) × IsValid env q'
  unfolding add_batch
  add_batch_lem ids [] q n v = (q, ground arith, v)
  add_batch_lem [] (cn ∷ cns) q n v = elim n [ ]
  add_batch_lem (id ∷ ids) (cn ∷ cns) q n v =
      let (q', e, w) = add_batch_lem ids cns q n.1 v in
      (add_front env id cn q', rw e refl, add_front-IsValid id cn q' n.0 w)
