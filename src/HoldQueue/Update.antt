-- ===== src/HoldQueue/Update.antt =====
-- `Update` on the hold queue.
use cs425_mps.Base.{
  ℕ, ◌<◌, ◌≡◌, sym, ap, ◌∙◌, ◌≢◌, some, ◌==◌, if◌then◌else◌, length, get_elem?, get_or, set, arith,
  get_elem?-lt, get_elem?-get_or, length-set,
}
use cs425_mps.Base.Int.{pos}
use cs425_mps.Base.Text.{Str}
use cs425_mps.Base.Run.{Returns, Returns-map}
use cs425_mps.Heap.{fix, parent}
use cs425_mps.Heap.Order.{IsLoose}
use cs425_mps.Heap.Restore.{fix_restores}
use cs425_mps.HoldQueue.{ToHoldPriorityQueue, agree, update, hold_queue, len}
use cs425_mps.HoldQueue.Order.{less_item-le_trans}
use cs425_mps.HoldQueue.Slots.{
  no_item, item_at, strip, slot_at, IsIndexed, IsHeld, Same, get_or-set,
}
use cs425_mps.HoldQueue.Valid.{IsHoldQueue, hold_queue_laws, slots_le, place_unique}

-- `r` holds the pointers of `q`, to the same items but that the one at `p` is agreed.
pub record Agrees (q : ToHoldPriorityQueue) (p : ℕ) (process_id : Str) (seq_num : ℕ)
    (r : ToHoldPriorityQueue) : Type 0 where
  pub memory : length r.memory ≡ length q.memory
  pub items :
      (s : ℕ)
      → strip (item_at r s)
        ≡ (if p == s then agree (strip (item_at q s)) process_id seq_num else strip (item_at q s))
  pub keeps : (s : ℕ) → IsHeld q s → IsHeld r s
  pub adds_none : (s : ℕ) → IsHeld r s → IsHeld q s

module _ (q : ToHoldPriorityQueue) (v : IsHoldQueue q) (i p : ℕ)
    (at_i : get_elem? q.queue i ≡ some p) (process_id : Str) (seq_num : ℕ) where
  abbrev updated : ToHoldPriorityQueue
  updated = record q { memory = set q.memory p (agree (item_at q p) process_id seq_num) }

  updated_items :
      (s : ℕ)
      → item_at updated s ≡ (if p == s then agree (item_at q s) process_id seq_num else item_at q s)
  updated_items s = ground (
    arith,
    get_or-set q.memory p s (agree (item_at q p) process_id seq_num) (v.indexed.inside i p at_i),
  )

  updated-IsIndexed : IsIndexed updated
  updated-IsIndexed = record {
    inside = λ c s e. rw length-set (v.indexed.inside c s e);
    placed = λ c s e. ground (arith, updated_items s, v.indexed.placed c s e);
  }

  updated_slots : (c : ℕ) → c < len q → c ≢ i → slot_at updated c ≡ slot_at q c
  updated_slots c h ne =
      let was = get_elem?-get_or q.queue c 0 h in
      let other : p ≢ get_or q.queue c 0 =
        λ same. ne (place_unique q v.indexed c i p (was ∙ ap some (sym same)) at_i) in
      ground (arith, updated_items (get_or q.queue c 0))

  updated-IsLoose : IsLoose hold_queue_laws 0 updated (len updated) i
  unfolding hold_queue_laws
  updated-IsLoose = record {
    edges = λ c a b _ ne ne'.
        slots_le (slot_at q (parent c)) (slot_at q c) (slot_at updated (parent c))
          (slot_at updated c) (updated_slots (parent c) (omega arith) ne') (updated_slots c b ne)
          (v.heap c a b (omega arith));
    bridged = λ c a b e z _.
        slots_le (slot_at q (parent i)) (slot_at q c) (slot_at updated (parent i))
          (slot_at updated c) (updated_slots (parent i) (omega arith) (omega arith))
          (updated_slots c b (omega arith))
          (less_item-le_trans (slot_at q (parent i)).item (slot_at q i).item (slot_at q c).item
            (v.heap i z (omega arith) (omega arith)) (rw (sym e) (v.heap c a b (omega arith))));
  }

  update-fix : update q p process_id seq_num ≡ fix hold_queue updated (pos i)
  unfolding update
  update-fix =
      let known : update q p process_id seq_num ≡ fix hold_queue updated (item_at q p).index =
        rw (get_elem?-get_or q.memory p no_item (v.indexed.inside i p at_i)) in
      known ∙ ap (fix hold_queue updated) (v.indexed.placed i p at_i)

  -- Update of a held item ends without a panic, writes the agreed key into that item only, keeps
  -- every pointer of the queue, and leaves a heap with the right indices.
  pub update_correct :
      Returns
        (λ r. IsHoldQueue r × Agrees q p process_id seq_num r × (len r ≡ len q))
        (update q p process_id seq_num)
  unfolding hold_queue_laws
  update_correct = rw update-fix (
      Returns-map
        (fix_restores hold_queue_laws updated i (get_elem?-lt q.queue i p at_i) updated-IsIndexed
          updated-IsLoose)
        λ r (keeps, heap).
          (record { indexed = keeps.0; heap = rw keeps.1 heap }, agrees r keeps.2, keeps.1))
    where
      agrees : (r : ToHoldPriorityQueue) → Same updated r → Agrees q p process_id seq_num r
      agrees r same = record {
        memory = same.memory ∙ length-set q.memory p (agree (item_at q p) process_id seq_num);
        items = λ s. ground (arith, same.items s, updated_items s);
        keeps = same.keeps;
        adds_none = same.adds_none;
      }
