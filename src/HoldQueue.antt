-- ===== src/HoldQueue.antt =====
-- lib/mp1/multicast/to_hold_queue_item.go: the hold queue of the total-order multicast, a priority
-- queue of pointers to items. The items stand in a memory, since the map of held messages points to
-- the same items and `Swap` writes their `index`. A pointer is a place in the memory.
pub mod Order
pub mod Slots
pub mod Valid
pub mod Push
pub mod Pop
pub mod Update
pub mod Print
mod Tests
use cs425_mps.Base.{
  ℕ, ◌-◌, Bool, true, false, not, ◌&&◌, List, [], ◌∷◌, ◌++◌, ltb, if◌then◌else◌, length, get_elem?,
  set, take,
}
use cs425_mps.Base.Int.{ℤ, pos, negsuc}
use cs425_mps.Base.Text.{Str, str_lt}
use cs425_mps.Base.Run.{Run, ok, ◌>>=◌, or_panic}
use cs425_mps.Heap.{Interface, init, heap_push, heap_pop, fix}

pub record ToHoldQueueItem : Type 0 where
  pub body : List ℕ
  pub proposal_seq_num : ℕ
  pub process_id : Str
  pub agreed : Bool
  pub msg_id : Str
  pub index : ℤ

pub record ToHoldPriorityQueue : Type 0 where
  pub memory : List ToHoldQueueItem
  pub queue : List ℕ

-- The pointer at an index of the slice, and the item that it points to.
unfoldable pub load : ToHoldPriorityQueue → ℕ → Run ToHoldQueueItem
load q i = do p ← or_panic (get_elem? q.queue i); or_panic (get_elem? q.memory p)

unfoldable pub store_index : List ToHoldQueueItem → ℕ → ℤ → Run (List ToHoldQueueItem)
store_index m p i = do x ← or_panic (get_elem? m p); ok (set m p (record x { index = i }))

abbrev pub len : ToHoldPriorityQueue → ℕ
len q = length q.queue

-- The body of `Less`, on the two items.
unfoldable pub less_item : ToHoldQueueItem → ToHoldQueueItem → Bool
less_item a b =
    if ltb a.proposal_seq_num b.proposal_seq_num
    then true
    else if ltb b.proposal_seq_num a.proposal_seq_num
    then false
    else if not a.agreed && b.agreed
    then true
    else if a.agreed && not b.agreed
    then false
    else str_lt a.process_id b.process_id

unfoldable pub less : ToHoldPriorityQueue → ℕ → ℕ → Run Bool
unfolding load
less q i j = do a ← load q i; b ← load q j; ok (less_item a b)

unfoldable pub swap : ToHoldPriorityQueue → ℕ → ℕ → Run ToHoldPriorityQueue
unfolding store_index
swap q i j = do
  y ← or_panic (get_elem? q.queue j)
  x ← or_panic (get_elem? q.queue i)
  m ← store_index q.memory y (pos i)
  m' ← store_index m x (pos j)
  ok (record { memory = m'; queue = set (set q.queue i y) j x })

unfoldable pub push : ℕ → ToHoldPriorityQueue → Run ToHoldPriorityQueue
unfolding store_index
push p q = do
  m ← store_index q.memory p (pos (len q))
  ok (record { memory = m; queue = q.queue ++ p ∷ [] })

unfoldable pub pop : ToHoldPriorityQueue → Run (ℕ × ToHoldPriorityQueue)
unfolding store_index
pop q = do
  let n = len q
  p ← or_panic (get_elem? q.queue (n - 1))
  m ← store_index q.memory p (negsuc 0)
  ok (p, record { memory = m; queue = take (n - 1) q.queue })

unfoldable pub peek : ToHoldPriorityQueue → Run ℕ
peek q = or_panic (get_elem? q.queue 0)

-- The queue as a `heap.Interface`.
abbrev pub hold_queue : Interface ToHoldPriorityQueue ℕ
hold_queue = record { len = len; less = less; swap = swap; push = push; pop = pop }

-- The item with what `Update` writes.
abbrev pub agree : ToHoldQueueItem → Str → ℕ → ToHoldQueueItem
agree x process_id seq_num = record x {
  agreed = true;
  process_id = process_id;
  proposal_seq_num = seq_num;
}

unfoldable pub update : ToHoldPriorityQueue → ℕ → Str → ℕ → Run ToHoldPriorityQueue
update q p process_id seq_num = do
  x ← or_panic (get_elem? q.memory p)
  fix hold_queue (record q { memory = set q.memory p (agree x process_id seq_num) }) x.index
