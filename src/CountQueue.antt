-- ===== src/CountQueue.antt =====
-- stage_queue.go: the counts that are waiting to be downloaded, each with the peer in charge.
-- Times are nanoseconds of the monotonic clock; the lock makes each method one step.
pub mod Order
pub mod Charge
use focal_point.Prelude.{
  ℕ, ◌*◌, ◌^◌, ◌≡◌, Bool, true, false, Option, none, some, List, [], ◌∷◌, Bytes, ℤ, pos, ◌-ℤ◌,
  ltb_ℤ, Map, lookup, insert, delete, if◌then◌else◌, nat_eq, bytes_equal, length,
}
use focal_point.Linked.{Linked, empty, push_back, remove, value_at, set_value}

abbrev pub max_queue_wait : ℕ
max_queue_wait = 2 * 60 * 10 ^ 9

pub record Entry : Type 0 where
  pub id : ℕ
  pub who : Bytes
  pub when : ℤ

pub record CountQueue : Type 0 where
  pub count_map : Map ℕ ℕ
  pub count_queue : Linked Entry

unfoldable pub new_count_queue : CountQueue
new_count_queue = record { count_map = []; count_queue = empty }

-- The element that the map has for the identifier.
unfoldable pub entry_of : ℕ → CountQueue → Option (ℕ × Entry)
entry_of id q = elim (lookup id q.count_map) [
  | none ↦ none
  | some e ↦ elim (value_at e q.count_queue.items) [ none ↦ none | some entry ↦ some (e, entry) ]
]

-- `Add`: a new count goes to the back; one that has waited for long gets a new peer, in its place.
unfoldable pub add : ℕ → Bytes → ℤ → CountQueue → Bool × CountQueue
add id who now q = elim (entry_of id q) [
  | some (e, entry) ↦ if ltb_ℤ (now -ℤ entry.when) (pos max_queue_wait) then (false, q) else (
    true,
    record q {
      count_queue = record q.count_queue {
        items = set_value e (record entry { who = who; when = now }) q.count_queue.items;
      };
    },
  )
  | none ↦ (
    true,
    record {
      count_map = insert id q.count_queue.next q.count_map;
      count_queue = push_back (record { id = id; who = who; when = now }) q.count_queue;
    },
  )
]

-- `Remove`: only the peer in charge can.
unfoldable pub remove_count : ℕ → Bytes → CountQueue → Bool × CountQueue
remove_count id who q = elim (entry_of id q) [
  | some (e, entry) ↦
      if bytes_equal entry.who who
      then (
        true,
        record { count_map = delete entry.id q.count_map; count_queue = remove e q.count_queue },
      )
      else (false, q)
  | none ↦ (false, q)
]

unfoldable pub exists : ℕ → CountQueue → Bool
exists id q = elim (lookup id q.count_map) [ none ↦ false | some e ↦ true ]

-- `Peek`: the identifier in front, if there is one.
unfoldable pub peek : CountQueue → Option ℕ
peek q = elim q.count_queue.items [ [] ↦ none | e ∷ rest ↦ some (e.1).id ]

unfoldable pub len : CountQueue → ℕ
len q = length q.count_queue.items
