-- ===== src/HoldQueue/Pop.antt =====
-- `heap.Pop` and `Peek` on the hold queue.
use cs425_mps.Base.{
  ℕ, suc, ◌-◌, ◌<◌, ◌≡◌, refl, ◌∙◌, ◌≢◌, false, some, ◌==◌, if◌then◌else◌, length, get_elem?,
  get_or, set, take, arith, get_elem?-lt, get_elem?-get_or, get_elem?-take, length-set, length-take,
}
use native.Mathlib.Decide.{ℕ_discrete}
use cs425_mps.Base.Int.{negsuc}
use cs425_mps.Base.Run.{ok, Returns, returns, Returns-map, Returns-bind}
use cs425_mps.Heap.{heap_pop, parent}
use cs425_mps.Heap.Order.{IsLoose, IsHeap, root_least}
use cs425_mps.Heap.Restore.{down_restores}
use cs425_mps.HoldQueue.{ToHoldPriorityQueue, store_index, pop, peek, less_item, hold_queue, len}
use cs425_mps.HoldQueue.Slots.{
  no_item, item_at, strip, slot_at, IsIndexed, IsHeld, Same, get_or-set,
}
use cs425_mps.HoldQueue.Valid.{IsHoldQueue, hold_queue_laws, slots_le, swap-ok, place_unique}

-- `r` holds the pointers of `q` but `p`, to the same items but for their indices.
pub record Removes (q : ToHoldPriorityQueue) (p : ℕ) (r : ToHoldPriorityQueue) : Type 0 where
  pub memory : length r.memory ≡ length q.memory
  pub items : (s : ℕ) → strip (item_at r s) ≡ strip (item_at q s)
  pub was_held : IsHeld q p
  pub gone : ¬ IsHeld r p
  pub keeps : (s : ℕ) → s ≢ p → IsHeld q s → IsHeld r s
  pub adds_none : (s : ℕ) → IsHeld r s → IsHeld q s

Same-Removes : {p : ℕ} (q r s : ToHoldPriorityQueue) → Same q r → Removes r p s → Removes q p s
Same-Removes q r s e a = record {
  memory = a.memory ∙ e.memory;
  items = λ t. a.items t ∙ e.items t;
  was_held = e.adds_none _ a.was_held;
  gone = a.gone;
  keeps = λ t ne h. a.keeps t ne (e.keeps t h);
  adds_none = λ t h. e.adds_none t (a.adds_none t h);
}

-- The method `Pop` takes the last pointer of the slice.
module _ (q : ToHoldPriorityQueue) (n : ℕ) (size : len q ≡ suc n) (v : IsIndexed q) where
  abbrev p : ℕ
  p = get_or q.queue n 0

  abbrev popped : ToHoldPriorityQueue
  popped = record {
    memory = set q.memory p (record (item_at q p) { index = negsuc 0 });
    queue = take n q.queue;
  }

  at_last : get_elem? q.queue n ≡ some p
  at_last = get_elem?-get_or q.queue n 0 (omega arith)

  pop-popped : pop q ≡ ok (p, popped)
  unfolding pop store_index
  pop-popped =
      let back : len q - 1 ≡ n = omega arith in
      rw (back, at_last, get_elem?-get_or q.memory p no_item (v.inside n p at_last))

  popped_len : len popped ≡ n
  popped_len = length-take n q.queue (omega arith)

  popped_items :
      (s : ℕ)
      → item_at popped s
        ≡ (if p == s then record (item_at q p) { index = negsuc 0 } else item_at q s)
  popped_items s =
      get_or-set q.memory p s (record (item_at q p) { index = negsuc 0 }) (v.inside n p at_last)

  -- What is left stood in the slice before, at another place than the last.
  popped_queue :
      (c s : ℕ)
      → get_elem? popped.queue c ≡ some s
      → (c < n) × (get_elem? q.queue c ≡ some s) × (p ≢ s)
  popped_queue c s e =
      let below : c < n = omega (arith, get_elem?-lt popped.queue c s e, popped_len) in
      let was : get_elem? q.queue c ≡ some s = ground (arith, get_elem?-take n q.queue c) in
      (below, was, λ same. absurd (omega (arith, place_unique q v c n s was (rw same at at_last))))

  popped-IsIndexed : IsIndexed popped
  popped-IsIndexed = record {
    inside = λ c s e. rw length-set (v.inside c s (popped_queue c s e).1);
    placed = λ c s e.
        let (b, was, ne) = popped_queue c s e in ground (arith, popped_items s, v.placed c s was);
  }

  popped_slots : (c : ℕ) → c < n → slot_at popped c ≡ slot_at q c
  popped_slots c h =
      let s = get_or q.queue c 0 in
      let was = get_elem?-get_or q.queue c 0 (omega arith) in
      let now : get_elem? popped.queue c ≡ some s = get_elem?-take n q.queue c h ∙ was in
      let (b, _, ne) = popped_queue c s now in ground (arith, now, was, popped_items s)

  popped-Removes : Removes q p popped
  popped-Removes = record {
    memory = length-set q.memory p (record (item_at q p) { index = negsuc 0 });
    items = λ s. ground (arith, popped_items s);
    was_held = (n, at_last);
    gone = λ h. (popped_queue h.0 p h.1).2 refl;
    keeps = λ s ne h. kept s ne h.0 h.1;
    adds_none = λ s h. (h.0, (popped_queue h.0 s h.1).1);
  }
    where
      kept : (s : ℕ) → s ≢ p → (c : ℕ) → get_elem? q.queue c ≡ some s → IsHeld popped s
      kept s ne c e = elim (ℕ_discrete c n) [
        | yes same ↦ absurd (ne (ground (arith, at_last)))
        | no other ↦ (c, get_elem?-take n q.queue c (omega (arith, get_elem?-lt q.queue c s e)) ∙ e)
      ]

-- A call of `heap.Pop` returned the pointer at the root, and left a valid queue of the others.
pub record PopsRoot (q : ToHoldPriorityQueue) (r : ℕ × ToHoldPriorityQueue) : Type 0 where
  pub root : get_elem? q.queue 0 ≡ some r.0
  pub valid : IsHoldQueue r.1
  pub removes : Removes q r.0 r.1
  pub shorter : len q ≡ suc (len r.1)

swapped-IsLoose :
    (q t : ToHoldPriorityQueue) (n : ℕ)
    → len q ≡ suc n
    → IsHoldQueue q
    → ((c : ℕ)
        → slot_at t c
          ≡ (if n == c then slot_at q 0 else if 0 == c then slot_at q n else slot_at q c))
    → IsLoose hold_queue_laws 0 t n 0
unfolding hold_queue_laws
swapped-IsLoose q t n size v at = record {
  edges = λ c a b _ ne ne'.
      slots_le (slot_at q (parent c)) (slot_at q c) (slot_at t (parent c)) (slot_at t c)
        (ground (arith, at (parent c))) (ground (arith, at c))
        (v.heap c a (omega arith) (omega arith));
  bridged = λ c a b e z. absurd (omega arith);
}

pop_rest :
    (q t : ToHoldPriorityQueue) (n : ℕ)
    → len t ≡ suc n
    → IsIndexed t
    → IsHeap hold_queue_laws t n
    → Returns
        (λ r. (r.0 ≡ get_or t.queue n 0) × IsHoldQueue r.1 × Removes t r.0 r.1 × (len r.1 ≡ n))
        (pop t)
unfolding hold_queue_laws
pop_rest q t n size v heap = rw (pop-popped t n size v) (
    returns (
      refl,
      record {
        indexed = popped-IsIndexed t n size v;
        heap = λ c a b e.
            let inside : c < n = omega (arith, popped_len t n size v) in
            slots_le (slot_at t (parent c)) (slot_at t c) (slot_at (popped t n size v) (parent c))
              (slot_at (popped t n size v) c) (popped_slots t n size v (parent c) (omega arith))
              (popped_slots t n size v c inside) (heap c a inside e);
      },
      popped-Removes t n size v,
      popped_len t n size v,
    ))

-- heap.Pop on a valid queue that is not empty ends without a panic, returns the root, removes
-- exactly that pointer, and leaves a heap with the right indices.
pub heap_pop_correct :
    (q : ToHoldPriorityQueue)
    → IsHoldQueue q
    → 0 < len q
    → Returns (PopsRoot q) (heap_pop hold_queue q)
unfolding heap_pop hold_queue_laws
heap_pop_correct q v h =
    let n = len q - 1 in
    let size : len q ≡ suc n = omega arith in
    Returns-bind (swap-ok q v.indexed 0 n h (omega arith)) λ t (ti, tl, same, at).
      Returns-bind
        (down_restores hold_queue_laws 0 t n 0 (omega arith) ti (swapped-IsLoose q t n size v at)
          (λ z. absurd (omega arith)))
        λ r (keeps, heap, beyond).
          Returns-map (pop_rest q r.0 n (omega (arith, keeps.1)) keeps.0 heap)
            λ u (e, valid, removes, l). record {
              root = ground (arith, beyond n, at n, get_elem?-get_or q.queue 0 0 h);
              valid = valid;
              removes = Same-Removes q t u.1 same (Same-Removes t r.0 u.1 keeps.2 removes);
              shorter = omega arith;
            }

-- Peek on a valid queue that is not empty returns a held item before which no held item comes.
pub peek_least :
    (q : ToHoldPriorityQueue)
    → IsHoldQueue q
    → 0 < len q
    → Returns
        (λ p. IsHeld q p × ((s : ℕ) → IsHeld q s → less_item (item_at q s) (item_at q p) ≡ false))
        (peek q)
unfolding peek hold_queue_laws less_item
peek_least q v h =
    let at = get_elem?-get_or q.queue 0 0 h in rw at (returns ((0, at), λ s w. least s w.0 w.1))
  where
    least :
        (s c : ℕ)
        → get_elem? q.queue c ≡ some s
        → less_item (item_at q s) (item_at q (get_or q.queue 0 0)) ≡ false
    least s c e =
        rw e at (root_least hold_queue_laws q (len q) c v.heap (get_elem?-lt q.queue c s e))
