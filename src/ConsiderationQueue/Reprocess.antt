-- ===== src/ConsiderationQueue/Reprocess.antt =====
-- `reprocessQueue` leaves in the queue, in its order, only what the next count could take.
use focal_point.Prelude.{
  ℕ, ◌≡◌, refl, sym, ◌∙◌, ap, ◌⊎◌, false, none, some, List, [], ◌∷◌, ℤ, ok, ◌>>>◌, arith,
  Bool-cases, inl, inr, nat_eq, subst, ◌==◌,
}
use focal_point.Consideration.{Consideration}
use focal_point.ImbalanceCache.{apply, reset}
use focal_point.ImbalanceCache.Total.{Answers, apply_total}
use focal_point.Graph.{sender_descends}
use focal_point.Graph.Total.{sender_descends_total}
use focal_point.Linked.{Linked, remove, values, value_at, drop_handle}
use focal_point.Linked.Handles.{Distinct, value_at-drop}
use focal_point.ConsiderationQueue.{Setting, Queue, is_stale, review, review_all, reprocess_queue}
use focal_point.ConsiderationQueue.Agreement.{IsValid, evict_lem}

-- A list with some of its elements taken out.
pub data DroppedFrom (items : List (ℕ × Consideration)) : List (ℕ × Consideration) → Type 0 where
  whole : DroppedFrom items items
  dropped :
      {rest : List (ℕ × Consideration)} (h : ℕ)
      → DroppedFrom items rest
      → DroppedFrom items (drop_handle h rest)

-- What the next count could take, with maturity and expiration as the code tests them.
abbrev pub IsCurrent : Setting → ℤ → Consideration → Type 0
IsCurrent env height cn =
    (is_stale env height cn ≡ false) × (sender_descends env.graph cn ≡ ok false)

module _ (env : Setting) (answers : Answers env.ledger) (height : ℤ) where
  -- One round keeps the element if it is current, and otherwise evicts it.
  review_lem :
      (h : ℕ) (cn : Consideration) (q : Queue)
      → IsValid env q
      → value_at h q.cn_queue.items ≡ some cn
      → (q' : Queue) × (review env height cn q ≡ (ok tt, q'))
        × IsValid env q'
        × ((IsCurrent env height cn × (q'.cn_queue ≡ q.cn_queue))
            ⊎ (q'.cn_queue ≡ remove h q.cn_queue))
  unfolding review
  review_lem h cn q v at =
      let cached : Queue = record q { cache = (apply env.ledger cn q.cache).1 } in
      let (gone, e1, v1, s1) = evict_lem env h cn q v at in
      let (gone', e2, v2, s2) = evict_lem env h cn cached v at in
      let (covered, c) = apply_total env.ledger cn q.cache answers in
      let (descends, d) = sender_descends_total env.graph cn in
      elim (Bool-cases (is_stale env height cn)) [
        | inl stale ↦ (gone, ground (arith, e1), v1, inr s1)
        | inr current ↦ elim (Bool-cases covered) [
          | inr short ↦ (gone', ground (arith, e2), v2, inr s2)
          | inl enough ↦ elim (Bool-cases descends) [
            | inl below ↦ (gone', ground (arith, e2), v2, inr s2)
            | inr clear ↦ (cached, ground arith, v, inl ((current, ground arith), refl))
          ]
        ]
      ]

DroppedFrom-drop :
    (h : ℕ) (xs : List (ℕ × Consideration)) {ys : List (ℕ × Consideration)}
    → DroppedFrom (drop_handle h xs) ys
    → DroppedFrom xs ys
DroppedFrom-drop h xs whole = dropped h whole
DroppedFrom-drop h xs (dropped j d) = dropped j (DroppedFrom-drop h xs d)

DroppedFrom-none :
    (h : ℕ) (xs : List (ℕ × Consideration)) {ys : List (ℕ × Consideration)}
    → DroppedFrom xs ys
    → value_at h xs ≡ none
    → value_at h ys ≡ none
DroppedFrom-none h xs whole e = e
DroppedFrom-none h xs (dropped {rest = rest} j d) e =
    ground (arith, DroppedFrom-none h xs d e, value_at-drop j h rest)

DroppedFrom-some :
    (h : ℕ) (xs : List (ℕ × Consideration)) {ys : List (ℕ × Consideration)} (cn : Consideration)
    → DroppedFrom xs ys
    → value_at h ys ≡ some cn
    → value_at h xs ≡ some cn
DroppedFrom-some h xs cn whole e = e
DroppedFrom-some h xs cn (dropped {rest = rest} j d) e =
    DroppedFrom-some h xs cn d (ground (arith, value_at-drop j h rest))

module _ (env : Setting) (answers : Answers env.ledger) (height : ℤ) where
  abbrev Pending : List (ℕ × Consideration) → Queue → Type 0
  Pending pending q =
      (h : ℕ) (cn : Consideration)
      → value_at h pending ≡ some cn
      → value_at h q.cn_queue.items ≡ some cn

  abbrev Reviewed : List (ℕ × Consideration) → Queue → Queue → Type 0
  Reviewed pending q q' =
      IsValid env q'
      × DroppedFrom q.cn_queue.items q'.cn_queue.items
      × ((h : ℕ) (cn : Consideration)
          → value_at h q'.cn_queue.items ≡ some cn
          → value_at h pending ≡ some cn
          → IsCurrent env height cn)

  -- What one round has done to the list.
  abbrev Step : ℕ → Consideration → Queue → Queue → Type 0
  Step h cn q q1 =
      (IsCurrent env height cn × (q1.cn_queue ≡ q.cn_queue)) ⊎ (q1.cn_queue ≡ remove h q.cn_queue)

  at_drop :
      (h : ℕ) (q q1 : Queue)
      → q1.cn_queue ≡ remove h q.cn_queue
      → q1.cn_queue.items ≡ drop_handle h q.cn_queue.items
  unfolding remove
  at_drop h q q1 e = ap (λ (l : Linked Consideration). l.items) e

  Pending-Step :
      (h : ℕ) (cn : Consideration) (pending : List (ℕ × Consideration)) (q q1 : Queue)
      → Step h cn q q1
      → value_at h pending ≡ none
      → Pending ((h, cn) ∷ pending) q
      → Pending pending q1
  unfolding value_at
  Pending-Step h cn pending q q1 how new p j a at =
      let other : (h == j) ≡ false = ground (arith, ap (λ k. value_at k pending) {x = h} {y = j}) in
      elim how [
        | inl (_, kept) ↦
            subst (λ (l : Linked Consideration). value_at j l.items ≡ some a) (sym kept)
              (p j a (ground arith))
        | inr gone ↦
            subst (λ items. value_at j items ≡ some a) (sym (at_drop h q q1 gone))
              (ground (arith, value_at-drop h j q.cn_queue.items, p j a))
      ]

  Reviewed-Step :
      (h : ℕ) (cn : Consideration) (pending : List (ℕ × Consideration)) (q q1 q2 : Queue)
      → Step h cn q q1
      → Reviewed pending q1 q2
      → Reviewed ((h, cn) ∷ pending) q q2
  unfolding value_at
  Reviewed-Step h cn pending q q1 q2 (inl (good, kept)) (v, sub, current) = (
    v,
    subst (λ (l : Linked Consideration). DroppedFrom l.items q2.cn_queue.items) kept sub,
    λ j a at listed. elim (Bool-cases (h == j)) [
      | inl same ↦ subst (IsCurrent env height) (ground arith) good
      | inr other ↦ current j a at (ground arith)
    ],
  )
  Reviewed-Step h cn pending q q1 q2 (inr gone) (v, sub, current) = (
    v,
    DroppedFrom-drop h q.cn_queue.items
        (subst (λ items. DroppedFrom items q2.cn_queue.items) (at_drop h q q1 gone) sub),
    λ j a at listed. elim (Bool-cases (h == j)) [
      | inl same ↦ absurd (
          ground (
            arith,
            DroppedFrom-none j (drop_handle h q.cn_queue.items)
                (subst (λ items. DroppedFrom items q2.cn_queue.items) (at_drop h q q1 gone) sub),
            value_at-drop h j q.cn_queue.items,
          ))
      | inr other ↦ current j a at (ground arith)
    ],
  )

  review_all_lem :
      (pending : List (ℕ × Consideration)) (q : Queue)
      → IsValid env q
      → Distinct pending
      → Pending pending q
      → (q' : Queue) × (review_all env height (values pending) q ≡ (ok tt, q'))
        × Reviewed pending q q'
  unfolding review_all value_at
  review_all_lem [] q v d p = (q, refl, (v, whole, λ h cn at wrong. absurd (ground arith)))
  review_all_lem ((h, cn) ∷ pending) q v d p =
      let (q1, e1, v1, how) = review_lem env answers height h cn q v (p h cn (ground arith)) in
      let (q2, e2, done) =
        review_all_lem pending q1 v1 d.1 (Pending-Step h cn pending q q1 how d.0 p) in
      (
        q2,
        ap (λ r. r >>> λ _ q. review_all env height (values pending) q) e1 ∙ e2,
        Reviewed-Step h cn pending q q1 q2 how done,
      )

  -- Where the ledger answers, `reprocessQueue` of a valid queue returns no error and does not panic.
  -- It leaves a valid queue whose list is the old one with some elements taken out, and each
  -- consideration left has a current series, passes the maturity and expiration tests at the next
  -- height, and its sender is no descendant of its recipient.
  pub reprocess_queue-IsCurrent :
      (q : Queue)
      → IsValid env q
      → (q' : Queue) × (reprocess_queue env height q ≡ (ok tt, q'))
        × IsValid env q'
        × DroppedFrom q.cn_queue.items q'.cn_queue.items
        × ((h : ℕ) (cn : Consideration)
            → value_at h q'.cn_queue.items ≡ some cn
            → IsCurrent env height cn)
  unfolding reprocess_queue
  reprocess_queue-IsCurrent q v =
      let start : Queue = record q { cache = reset } in
      let (q', e, (w, sub, current)) =
        review_all_lem q.cn_queue.items start v v.distinct (λ h cn at. at) in
      (q', e, w, sub, λ h cn at. current h cn at (DroppedFrom-some h q.cn_queue.items cn sub at))
