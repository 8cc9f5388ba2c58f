-- ===== src/HoldQueue/Tests.antt =====
-- A hold queue with one item, and a second item that is not held.
use cs425_mps.Base.{ℕ, ◌≡◌, refl, false, [], ◌∷◌, arith}
use cs425_mps.Base.Int.{pos}
use cs425_mps.Base.Text.{codes}
use cs425_mps.Base.Run.{ok, Returns, Returns-ok}
use cs425_mps.Heap.{heap_push, heap_pop, up}
use cs425_mps.HoldQueue.{
  ToHoldQueueItem, ToHoldPriorityQueue, len, load, less, less_item, swap, push, store_index,
  hold_queue, peek, update,
}
use cs425_mps.HoldQueue.Order.{less_item-le_trans}
use cs425_mps.HoldQueue.Slots.{IsHeld, item_at}
use cs425_mps.HoldQueue.Valid.{IsHoldQueue, hold_queue_laws}
use cs425_mps.HoldQueue.Push.{Adds, heap_push_correct}
use cs425_mps.HoldQueue.Pop.{PopsRoot, heap_pop_correct, peek_least}
use cs425_mps.HoldQueue.Update.{Agrees, update_correct}

abbrev item : ℕ → ToHoldQueueItem
item n = record {
  body = [];
  proposal_seq_num = n;
  process_id = codes "n1";
  agreed = false;
  msg_id = codes "m";
  index = pos 0;
}

abbrev no_one : ToHoldPriorityQueue
no_one = record { memory = item 4 ∷ item 3 ∷ item 2 ∷ []; queue = [] }

no_one-IsHoldQueue : IsHoldQueue no_one
unfolding hold_queue_laws
no_one-IsHoldQueue = record {
  indexed = record { inside = λ i p e. absurd (ground arith); placed = λ i p e. ground arith };
  heap = λ c a b u. absurd (omega arith);
}

no_one_free : (p : ℕ) → ¬ IsHeld no_one p
no_one_free p h = ground (arith, h.1)

abbrev one : ToHoldPriorityQueue
one = record { memory = item 4 ∷ item 3 ∷ item 2 ∷ []; queue = 0 ∷ [] }

one_pushed : heap_push hold_queue no_one 0 ≡ ok one
unfolding heap_push push up store_index
one_pushed = refl

one-IsHoldQueue : IsHoldQueue one
one-IsHoldQueue =
    (Returns-ok one_pushed
      (heap_push_correct no_one 0 (omega arith) no_one-IsHoldQueue (no_one_free 0))).0

heap_push_correct_example :
    Returns (λ r. IsHoldQueue r × Adds one 1 r × (len r ≡ 2)) (heap_push hold_queue one 1)
heap_push_correct_example =
    heap_push_correct one 1 (omega arith) one-IsHoldQueue λ (i, e). ground (arith, e)

abbrev two : ToHoldPriorityQueue
two = record {
  memory = record (item 4) { index = pos 1 } ∷ item 3 ∷ item 2 ∷ [];
  queue = 1 ∷ 0 ∷ [];
}

two_pushed : heap_push hold_queue one 1 ≡ ok two
unfolding heap_push push up store_index less load less_item swap
two_pushed = refl

two-IsHoldQueue : IsHoldQueue two
two-IsHoldQueue =
    (Returns-ok two_pushed
      (heap_push_correct one 1 (omega arith) one-IsHoldQueue λ (i, e). ground (arith, e))).0

heap_pop_correct_example : Returns (PopsRoot two) (heap_pop hold_queue two)
heap_pop_correct_example = heap_pop_correct two two-IsHoldQueue (omega arith)

peek_least_example :
    Returns
      (λ p.
        IsHeld two p × ((s : ℕ) → IsHeld two s → less_item (item_at two s) (item_at two p) ≡ false))
      (peek two)
peek_least_example = peek_least two two-IsHoldQueue (omega arith)

update_correct_example :
    Returns
      (λ r. IsHoldQueue r × Agrees two 1 (codes "n2") 9 r × (len r ≡ 2))
      (update two 1 (codes "n2") 9)
update_correct_example = update_correct two two-IsHoldQueue 0 1 refl (codes "n2") 9

less_item-le_trans_example : less_item (item 7) (item 3) ≡ false
unfolding less_item
less_item-le_trans_example = less_item-le_trans (item 3) (item 5) (item 7) refl refl
