-- ===== src/CountQueue/Order.antt =====
-- The download queue keeps its map and its list in step, and its order.
use focal_point.Prelude.{
  ◌==◌, ℕ, ◌≡◌, refl, sym, ◌∙◌, ap, ◌⊎◌, ◌↔◌, true, false, none, some, List, [], ◌∷◌, ◌++◌, map,
  Bytes, ℤ, pos, ◌-ℤ◌, ltb_ℤ, lookup, nat_eq, arith, Option-cases, Bool-cases, inl, inr,
}
use focal_point.Linked.{push_back, value_at, set_value, values}
use focal_point.Linked.Handles.{Distinct}
use focal_point.Linked.Named.{
  Agrees, empty-Agrees, push_back-Agrees, delete_new-Agrees, set_value-Agrees,
}
use focal_point.CountQueue.{
  CountQueue, Entry, new_count_queue, entry_of, add, exists, max_queue_wait,
}

abbrev pub Named : Entry → ℕ → Type 0
Named entry id = entry.id ≡ id

-- The map has exactly the listed counts, under their identifiers.
abbrev pub IsValid : CountQueue → Type 0
IsValid q = Agrees Named q.count_map q.count_queue

pub new_count_queue-IsValid : IsValid new_count_queue
unfolding new_count_queue
new_count_queue-IsValid = empty-Agrees Named

same_name : (a b : Entry) → a.id ≡ b.id → (id : ℕ) → Named a id ↔ Named b id
same_name a b e id = (λ h. sym e ∙ h, λ h. e ∙ h)

pub unique_name : (a : Entry) (i j : ℕ) → Named a i → Named a j → i ≡ j
unique_name a i j p q = sym p ∙ q

-- What `entry_of` finds in a valid queue.
pub entry_of-IsValid :
    (id : ℕ) (q : CountQueue)
    → IsValid q
    → ((lookup id q.count_map ≡ none) × (entry_of id q ≡ none))
      ⊎ ((h : ℕ) × (entry : Entry) × (lookup id q.count_map ≡ some h)
          × (entry_of id q ≡ some (h, entry))
          × (value_at h q.count_queue.items ≡ some entry)
          × (entry.id ≡ id))
unfolding entry_of
entry_of-IsValid id q v = elim (Option-cases (lookup id q.count_map)) [
  | inl e ↦ inl (e, ground arith)
  | inr (h, e) ↦
      let (entry, at, name) = v.points id h e in inr (h, entry, e, ground arith, at, name)
]

-- The identifiers from the front to the back.
abbrev pub ids : CountQueue → List ℕ
ids q = map (λ (e : Entry). e.id) (values q.count_queue.items)

values-set :
    (h : ℕ) (entry : Entry) (items : List (ℕ × Entry))
    → Distinct items
    → ((old : Entry) → value_at h items ≡ some old → entry.id ≡ old.id)
    → map (λ (e : Entry). e.id) (values (set_value h entry items))
      ≡ map (λ (e : Entry). e.id) (values items)
unfolding set_value value_at
values-set h entry [] d same = refl
values-set h entry ((j, a) ∷ items) d same =
    let rest = values-set h entry items d.1 (λ old e. elim (Bool-cases (j == h)) [
      | inl hit ↦ absurd (ground (arith, d.0, ap (λ k. value_at k items) {x = j} {y = h}))
      | inr miss ↦ same old (ground arith)
    ]) in
    ground (arith, rest, same a)

ids-append :
    (n : ℕ) (entry : Entry) (items : List (ℕ × Entry))
    → map (λ (e : Entry). e.id) (values (items ++ (n, entry) ∷ []))
      ≡ map (λ (e : Entry). e.id) (values items) ++ entry.id ∷ []
ids-append n entry [] = refl
ids-append n entry ((j, a) ∷ items) = rw (ids-append n entry items)

-- `Add` on a queue whose map and list agree leaves one where they agree. A count that is not queued
-- goes to the back and the answer is true; one that is queued keeps its place, as do all the others,
-- and where the answer is false nothing has changed at all.
pub add_order :
    (id : ℕ) (who : Bytes) (now : ℤ) (q : CountQueue)
    → IsValid q
    → let (added, q') = add id who now q in
      IsValid q'
      × ((exists id q ≡ false) × (added ≡ true) × (ids q' ≡ ids q ++ id ∷ [])
          ⊎ (exists id q ≡ true) × (ids q' ≡ ids q) × (added ≡ false → q' ≡ q))
unfolding add exists push_back
add_order id who now q v = elim (entry_of-IsValid id q v) [
  | inl (new, e) ↦
      rw (e, add)
        (
          push_back-Agrees Named q.count_map q.count_queue id
              (record { id = id; who = who; when = now }) refl
              (delete_new-Agrees Named q.count_map q.count_queue id new v),
          inl (
            ground arith,
            refl,
            ids-append q.count_queue.next (record { id = id; who = who; when = now })
                q.count_queue.items,
          ),
        )
  | inr (h, entry, known, e, at, name) ↦
      elim (Bool-cases (ltb_ℤ (now -ℤ entry.when) (pos max_queue_wait))) [
        | inl waiting ↦ rw (e, waiting, add) (v, inr (ground arith, refl, λ _. refl))
        | inr waited ↦
            rw (e, waited, add)
              (
                set_value-Agrees Named q.count_map q.count_queue h entry
                    (record entry { who = who; when = now }) at
                    (same_name entry (record entry { who = who; when = now }) refl) v,
                inr (
                  ground arith,
                  values-set h (record entry { who = who; when = now }) q.count_queue.items
                      v.distinct (λ old o. ground arith),
                  λ wrong. absurd (ground arith),
                ),
              )
      ]
]
