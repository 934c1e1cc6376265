-- ===== src/Tests/Queues.antt =====
-- The theorems on both queues at concrete ones.
use focal_point.Prelude.{
  ℕ, ◌≡◌, ◌≢◌, refl, ◌⊎◌, true, false, some, [], ◌∷◌, ◌++◌, Bytes, pos, ok, err, descendant,
  bytes_equal, lookup, insert, bytes_eq, nat_eq,
}
use focal_point.Linked.{value_at, values}
use focal_point.Utils.{pub_key_to_string, base64}
use focal_point.Consideration.{Consideration, consideration_id, is_counter_point}
use focal_point.ImbalanceCache.{apply, reset, debit_sender, credit, imbalance}
use focal_point.ImbalanceCache.Moves.{Shows, lowered, raised}
use focal_point.Graph.{new_graph, sender_descends, is_parent_descendant}
use focal_point.CountQueue.{CountQueue, Entry, new_count_queue, remove_count, entry_of}
use focal_point.CountQueue.{exists as count_exists, add as add_count}
use focal_point.CountQueue.Order.{ids, add_order, new_count_queue-IsValid}
use focal_point.CountQueue.Order.{IsValid as CountsAgree}
use focal_point.CountQueue.Charge.{add_hands_over, remove_count_charge}
use focal_point.ConsiderationQueue.{Setting, Queue, new_queue, exists, add, reprocess_queue}
use focal_point.ConsiderationQueue.Agreement.{IsValid, Named, new_queue-IsValid}
use focal_point.ConsiderationQueue.Add.{Refused, add_cases, add_descendant_debits}
use focal_point.ConsiderationQueue.Reprocess.{DroppedFrom, IsCurrent, reprocess_queue-IsCurrent}
use focal_point.Tests.Data.{peer_a, key_a, key_b, cn_ab, cn_ab_again, toy_crypto, even_ledger}

abbrev peer_b : Bytes
peer_b = b'b' ∷ []

abbrev one_count : CountQueue
one_count = (add_count 5 peer_a (pos 100) new_count_queue).1

one_count-CountsAgree : CountsAgree one_count
one_count-CountsAgree = (add_order 5 peer_a (pos 100) new_count_queue new_count_queue-IsValid).0

add_order_example :
    let (added, q') = add_count 6 peer_b (pos 200) one_count in
    CountsAgree q'
    × ((count_exists 6 one_count ≡ false) × (added ≡ true) × (ids q' ≡ ids one_count ++ 6 ∷ [])
        ⊎ (count_exists 6 one_count ≡ true)
          × (ids q' ≡ ids one_count)
          × (added ≡ false → q' ≡ one_count))
add_order_example = add_order 6 peer_b (pos 200) one_count one_count-CountsAgree

added_first : add_count 5 peer_a (pos 100) new_count_queue ≡ (true, one_count)
unfolding add_count new_count_queue entry_of lookup
added_first = refl

add_hands_over_example : (remove_count 5 peer_b one_count).0 ≡ bytes_equal peer_a peer_b
add_hands_over_example =
    add_hands_over 5 peer_a peer_b (pos 100) new_count_queue one_count new_count_queue-IsValid
      added_first

remove_count_charge_example :
    let (removed, q') = remove_count 5 peer_a one_count in
    CountsAgree q'
    × ((removed ≡ false) × (q' ≡ one_count)
        ⊎ (removed ≡ true)
          × ((h : ℕ) × (entry : Entry) × (entry_of 5 one_count ≡ some (h, entry))
              × (entry.who ≡ peer_a))
          × (count_exists 5 q' ≡ false)
          × ((j : ℕ) → j ≢ 5 → count_exists j q' ≡ count_exists j one_count))
remove_count_charge_example = remove_count_charge 5 peer_a one_count one_count-CountsAgree

abbrev setting : Setting
setting = record { Weight = ℕ; crypto = toy_crypto; ledger = even_ledger; graph = new_graph }

-- The recipient of `cn_ab` already has a way to its sender.
abbrev cyclic_setting : Setting
cyclic_setting = record setting {
  graph = record {
    index = (base64 key_b, 1) ∷ (base64 key_a, 2) ∷ [];
    nodes = [];
    edges = (1, (2, record { weight = 1; height = pos 1; time = pos 1 }) ∷ []) ∷ [];
  };
}

named : Named toy_crypto cn_ab 7
unfolding consideration_id
named = refl

again-Named : Named toy_crypto cn_ab_again 9
unfolding consideration_id
again-Named = refl

abbrev one_queued : Queue
one_queued = (add setting 7 cn_ab new_queue).1

one_queued-IsValid : IsValid setting one_queued
one_queued-IsValid = (add_cases setting 7 cn_ab new_queue (new_queue-IsValid setting) named).0

add_cases_example :
    let (r, q') = add setting 9 cn_ab_again one_queued in
    IsValid setting q'
    × ((exists 9 one_queued ≡ true) × (r ≡ ok false) × (q' ≡ one_queued)
        ⊎ (exists 9 one_queued ≡ false)
          × (r ≡ ok true)
          × ((apply even_ledger cn_ab_again one_queued.cache).0 ≡ ok true)
          × (sender_descends {W = ℕ} new_graph cn_ab_again ≡ ok false)
          × (values q'.cn_queue.items ≡ values one_queued.cn_queue.items ++ cn_ab_again ∷ [])
          × (exists 9 q' ≡ true)
        ⊎ (exists 9 one_queued ≡ false)
          × Refused
              (apply even_ledger cn_ab_again one_queued.cache).0
              (sender_descends {W = ℕ} new_graph cn_ab_again)
              r
          × (q'.cn_map ≡ one_queued.cn_map)
          × (q'.cn_queue ≡ one_queued.cn_queue))
add_cases_example = add_cases setting 9 cn_ab_again one_queued one_queued-IsValid again-Named

not_queued : exists 7 new_queue ≡ false
unfolding exists new_queue lookup
not_queued = refl

covered : (apply even_ledger cn_ab new_queue.cache).0 ≡ ok true
unfolding apply debit_sender credit imbalance is_counter_point reset lookup new_queue insert
covered = refl

descends : sender_descends cyclic_setting.graph cn_ab ≡ ok true
unfolding sender_descends is_parent_descendant pub_key_to_string base64 lookup
descends = refl

add_descendant_debits_example :
    let (r, q') = add cyclic_setting 7 cn_ab new_queue in
    (r ≡ err descendant)
    × (q'.cn_queue ≡ new_queue.cn_queue)
    × Shows even_ledger new_queue.cache q'.cache (λ key x. raised key_b key (lowered key_a key x))
add_descendant_debits_example =
    add_descendant_debits cyclic_setting 7 cn_ab new_queue key_a key_b refl refl refl refl
      not_queued covered descends

reprocess_queue-IsCurrent_example :
    (q' : Queue) × (reprocess_queue setting (pos 40) one_queued ≡ (ok tt, q'))
    × IsValid setting q'
    × DroppedFrom one_queued.cn_queue.items q'.cn_queue.items
    × ((h : ℕ) (cn : Consideration)
        → value_at h q'.cn_queue.items ≡ some cn
        → IsCurrent setting (pos 40) cn)
reprocess_queue-IsCurrent_example =
    reprocess_queue-IsCurrent setting (λ key. (pos 5, refl)) (pos 40) one_queued one_queued-IsValid
