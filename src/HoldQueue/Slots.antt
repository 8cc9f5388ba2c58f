-- ===== src/HoldQueue/Slots.antt =====
-- The places of the hold queue's slice, with the items that its pointers point to.
use cs425_mps.Base.{
  ℕ, ◌<◌, ◌≡◌, refl, ◌∙◌, false, List, [], some, ◌==◌, if◌then◌else◌, length, get_elem?, get_or,
  set, arith, get_elem?-set,
}
use cs425_mps.Base.Int.{pos}
use cs425_mps.Heap.Order.{Order}
use cs425_mps.HoldQueue.{ToHoldQueueItem, ToHoldPriorityQueue, less_item}
use cs425_mps.HoldQueue.Order.{less_item_asymm, less_item-le_trans}

abbrev pub no_item : ToHoldQueueItem
no_item = record {
  body = [];
  proposal_seq_num = 0;
  process_id = [];
  agreed = false;
  msg_id = [];
  index = pos 0;
}

-- The item at a pointer.
abbrev pub item_at : ToHoldPriorityQueue → ℕ → ToHoldQueueItem
item_at q p = get_or q.memory p no_item

-- An item without its index.
abbrev pub strip : ToHoldQueueItem → ToHoldQueueItem
strip x = record x { index = pos 0 }

-- A place of the slice, with what it holds.
pub record Slot : Type 0 where
  pub pointer : ℕ
  pub item : ToHoldQueueItem

abbrev pub slot_at : ToHoldPriorityQueue → ℕ → Slot
slot_at q i = record { pointer = get_or q.queue i 0; item = strip (item_at q (get_or q.queue i 0)) }

-- Every pointer of the slice points into the memory, to an item whose `index` is its place. So no
-- pointer stands in the slice twice.
pub record IsIndexed (q : ToHoldPriorityQueue) : Type 0 where
  pub inside : (i p : ℕ) → get_elem? q.queue i ≡ some p → p < length q.memory
  pub placed : (i p : ℕ) → get_elem? q.queue i ≡ some p → (item_at q p).index ≡ pos i

-- The pointer stands in the slice.
abbrev pub IsHeld : ToHoldPriorityQueue → ℕ → Type 0
IsHeld q p = (i : ℕ) × (get_elem? q.queue i ≡ some p)

-- The same pointers, to the same items but for their indices.
pub record Same (q r : ToHoldPriorityQueue) : Type 0 where
  pub memory : length r.memory ≡ length q.memory
  pub items : (p : ℕ) → strip (item_at r p) ≡ strip (item_at q p)
  pub keeps : (p : ℕ) → IsHeld q p → IsHeld r p
  pub adds_none : (p : ℕ) → IsHeld r p → IsHeld q p

abbrev pub slot_order : Order Slot
slot_order = record {
  lt = λ a b. less_item a.item b.item;
  lt_asymm = λ a b. less_item_asymm a.item b.item;
  le_trans = λ a b c. less_item-le_trans a.item b.item c.item;
}

-- A write to the memory, read back at a pointer.
pub get_or-set :
    (m : List ToHoldQueueItem) (p r : ℕ) (x : ToHoldQueueItem)
    → p < length m
    → get_or (set m p x) r no_item ≡ (if p == r then x else get_or m r no_item)
get_or-set m p r x h = ground (arith, get_elem?-set m p r x)

pub Same-refl : (q : ToHoldPriorityQueue) → Same q q
Same-refl q = record { memory = refl; items = λ p. refl; keeps = λ p h. h; adds_none = λ p h. h }

pub Same-trans : (q r s : ToHoldPriorityQueue) → Same q r → Same r s → Same q s
Same-trans q r s a b = record {
  memory = b.memory ∙ a.memory;
  items = λ p. b.items p ∙ a.items p;
  keeps = λ p h. b.keeps p (a.keeps p h);
  adds_none = λ p h. a.adds_none p (b.adds_none p h);
}
