-- ===== src/Linked.antt =====
-- container/list as both queues use it: a list of elements that a map points into. A pointer to an
-- element is its handle, which no other element ever has.
pub mod Handles
pub mod Named
use focal_point.Prelude.{
  ℕ, suc, ◌+◌, ◌≡◌, Bool, Option, none, some, List, [], ◌∷◌, ◌++◌, if◌then◌else◌, ◌==◌,
}

pub record Linked {ℓ} (A : Type ℓ) : Type ℓ where
  pub next : ℕ
  pub items : List (ℕ × A)

module _ {ℓ} {A : Type ℓ} where
  -- `list.New`
  unfoldable pub empty : Linked A
  empty = record { next = 0; items = [] }

  -- `PushBack` and `PushFront` return the new element, whose handle is `next` before the call.
  unfoldable pub push_back : A → Linked A → Linked A
  push_back a l = record { next = suc l.next; items = l.items ++ (l.next, a) ∷ [] }

  unfoldable pub push_front : A → Linked A → Linked A
  push_front a l = record { next = suc l.next; items = (l.next, a) ∷ l.items }

  unfoldable pub drop_handle : ℕ → List (ℕ × A) → List (ℕ × A)
  drop_handle h [] = []
  drop_handle h ((j, a) ∷ items) =
      if j == h then drop_handle h items else (j, a) ∷ drop_handle h items

  -- `Remove` of an element that is in the list.
  unfoldable pub remove : ℕ → Linked A → Linked A
  unfolding drop_handle
  remove h l = record l { items = drop_handle h l.items }

  -- `e.Value`, if `e` is in the list.
  unfoldable pub value_at : ℕ → List (ℕ × A) → Option A
  value_at h [] = none
  value_at h ((j, a) ∷ items) = if j == h then some a else value_at h items

  -- An assignment to the value that an element holds.
  unfoldable pub set_value : ℕ → A → List (ℕ × A) → List (ℕ × A)
  set_value h v [] = []
  set_value h v ((j, a) ∷ items) = (j, if j == h then v else a) ∷ set_value h v items

  -- The values from the front to the back.
  abbrev pub values : List (ℕ × A) → List A
  values [] = []
  values ((j, a) ∷ items) = a ∷ values items
