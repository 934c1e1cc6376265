-- ===== src/CountQueue/Charge.antt =====
-- Only the peer in charge of a count's download takes it off the queue.
use focal_point.Prelude.{
  ℕ, ◌≡◌, ◌≢◌, refl, sym, ◌∙◌, ap, ◌⊎◌, true, false, some, Bytes, ℤ, lookup, insert, nat_eq,
  bytes_equal, bytes_equal_iff, arith, Bool-cases, inl, inr, lookup-insert, lookup-delete, subst,
}
use focal_point.Linked.{push_back, value_at, set_value}
use focal_point.Linked.Handles.{value_at-set, value_at-append}
use focal_point.Linked.Named.{remove-Agrees, value_at-next}
use focal_point.CountQueue.{CountQueue, Entry, entry_of, add, remove_count, exists}
use focal_point.CountQueue.Order.{IsValid, Named, entry_of-IsValid, unique_name}

-- `Remove` on a queue whose map and list agree leaves one where they agree. Either the answer is
-- false and nothing has changed, or it is true; then the peer was in charge of the count, the count is
-- no longer queued, and every other is queued exactly if it was.
pub remove_count_charge :
    (id : ℕ) (who : Bytes) (q : CountQueue)
    → IsValid q
    → let (removed, q') = remove_count id who q in
      IsValid q'
      × ((removed ≡ false) × (q' ≡ q)
          ⊎ (removed ≡ true)
            × ((h : ℕ) × (entry : Entry) × (entry_of id q ≡ some (h, entry)) × (entry.who ≡ who))
            × (exists id q' ≡ false)
            × ((j : ℕ) → j ≢ id → exists j q' ≡ exists j q))
unfolding remove_count exists
remove_count_charge id who q v = elim (entry_of-IsValid id q v) [
  | inl (new, e) ↦ rw (e, remove_count) (v, inl (refl, refl))
  | inr (h, entry, known, e, at, name) ↦ elim (Bool-cases (bytes_equal entry.who who)) [
    | inl mine ↦
        rw (e, mine, remove_count)
          (
            remove-Agrees Named unique_name q.count_map q.count_queue entry.id h
                (subst (λ k. lookup k q.count_map ≡ some h) (sym name) known) v,
            inr (
              refl,
              (h, entry, refl, (bytes_equal_iff entry.who who).0 mine),
              ground (arith, lookup-delete entry.id id q.count_map),
              λ j ne. ground (arith, lookup-delete entry.id j q.count_map),
            ),
          )
    | inr other ↦ rw (e, other, remove_count) (v, inl (refl, refl))
  ]
]

pushed_entry :
    (id : ℕ) (who : Bytes) (now : ℤ) (q : CountQueue)
    → IsValid q
    → entry_of id (record {
      count_map = insert id q.count_queue.next q.count_map;
      count_queue = push_back (record { id = id; who = who; when = now }) q.count_queue;
    })
      ≡ some (q.count_queue.next, record { id = id; who = who; when = now })
unfolding entry_of push_back
pushed_entry id who now q v = ground (
  arith,
  lookup-insert id id q.count_queue.next q.count_map,
  value_at-append q.count_queue.next q.count_queue.next (record { id = id; who = who; when = now })
      q.count_queue.items,
  value_at-next Named v,
)

renewed_entry :
    (id h : ℕ) (who : Bytes) (now : ℤ) (entry : Entry) (q : CountQueue)
    → lookup id q.count_map ≡ some h
    → value_at h q.count_queue.items ≡ some entry
    → entry_of id (record q {
      count_queue = record q.count_queue {
        items = set_value h (record entry { who = who; when = now }) q.count_queue.items;
      };
    })
      ≡ some (h, record entry { who = who; when = now })
unfolding entry_of
renewed_entry id h who now entry q known at =
    ground (arith, value_at-set h h (record entry { who = who; when = now }) q.count_queue.items)

in_charge :
    (id h : ℕ) (other : Bytes) (q : CountQueue) (entry : Entry)
    → entry_of id q ≡ some (h, entry)
    → (remove_count id other q).0 ≡ bytes_equal entry.who other
unfolding remove_count
in_charge id h other q entry e = ground arith

-- A successful `Add` puts its peer in charge.
add_in_charge :
    (id : ℕ) (who : Bytes) (now : ℤ) (q q' : CountQueue)
    → IsValid q
    → add id who now q ≡ (true, q')
    → (h : ℕ) × (entry : Entry) × (entry_of id q' ≡ some (h, entry)) × (entry.who ≡ who)
unfolding add
add_in_charge id who now q q' v added = elim (entry_of-IsValid id q v) [
  | inl (new, e) ↦ (
    q.count_queue.next,
    record { id = id; who = who; when = now },
    subst
        (λ r. entry_of id r ≡ some (q.count_queue.next, record { id = id; who = who; when = now }))
        (ground arith) (pushed_entry id who now q v),
    refl,
  )
  | inr (h, entry, known, e, at, name) ↦ (
    h,
    record entry { who = who; when = now },
    subst (λ r. entry_of id r ≡ some (h, record entry { who = who; when = now })) (ground arith)
        (renewed_entry id h who now entry q known at),
    refl,
  )
]

-- After an `Add` of a count that answers true, on a queue whose map and list agree, `Remove` of that
-- count answers true for the peer of that `Add` and false for any other.
pub add_hands_over :
    (id : ℕ) (who other : Bytes) (now : ℤ) (q q' : CountQueue)
    → IsValid q
    → add id who now q ≡ (true, q')
    → (remove_count id other q').0 ≡ bytes_equal who other
add_hands_over id who other now q q' v added =
    let (h, entry, e, same) = add_in_charge id who now q q' v added in
    in_charge id h other q' entry e ∙ ap (λ w. bytes_equal w other) same
