-- ===== src/HoldQueue/Valid.antt =====
-- The laws of `Less` and `Swap` on the hold queue's slice, and its invariant.
use native.Mathlib.Decide.{ℕ_discrete}
use cs425_mps.Base.{
  ℕ, ◌<◌, ◌≡◌, false, List, some, ◌==◌, if◌then◌else◌, get_elem?, get_or, set, arith, get_elem?-set,
  get_elem?-get_or, length-set,
}
use cs425_mps.Base.Int.{pos}
use cs425_mps.Base.Run.{ok, Returns, returns}
use cs425_mps.Heap.Order.{Laws, IsHeap}
use cs425_mps.HoldQueue.{
  ToHoldQueueItem, ToHoldPriorityQueue, load, less_item, less, store_index, swap, hold_queue, len,
}
use cs425_mps.HoldQueue.Slots.{
  IsHeld, IsIndexed, Same, Same-refl, Same-trans, Slot, get_or-set, item_at, no_item, slot_at,
  slot_order,
}

module _ (q : ToHoldPriorityQueue) (v : IsIndexed q) where
  load-ok : (i : ℕ) → i < len q → load q i ≡ ok (item_at q (get_or q.queue i 0))
  unfolding load
  load-ok i hi =
      let e = get_elem?-get_or q.queue i 0 hi in
      rw (e, get_elem?-get_or q.memory (get_or q.queue i 0) no_item (v.inside i _ e))

  pub less-ok :
      (i j : ℕ)
      → i < len q
      → j < len q
      → less q i j ≡ ok (less_item (slot_at q i).item (slot_at q j).item)
  unfolding less less_item
  less-ok i j hi hj = rw (load-ok i hi, load-ok j hj)

  -- Two places whose pointers are the same are the same.
  pub place_unique :
      (i j p : ℕ) → get_elem? q.queue i ≡ some p → get_elem? q.queue j ≡ some p → i ≡ j
  place_unique i j p e f = ground (arith, v.placed i p, v.placed j p)

  module _ (i j : ℕ) (hi : i < len q) (hj : j < len q) where
    abbrev x : ℕ
    x = get_or q.queue i 0

    abbrev y : ℕ
    y = get_or q.queue j 0

    abbrev first : List ToHoldQueueItem
    first = set q.memory y (record (item_at q y) { index = pos i })

    abbrev swapped : ToHoldPriorityQueue
    swapped = record {
      memory = set first x (record (get_or first x no_item) { index = pos j });
      queue = set (set q.queue i y) j x;
    }

    at_i : get_elem? q.queue i ≡ some x
    at_i = get_elem?-get_or q.queue i 0 hi

    at_j : get_elem? q.queue j ≡ some y
    at_j = get_elem?-get_or q.queue j 0 hj

    swap-swapped : swap q i j ≡ ok swapped
    unfolding swap store_index
    swap-swapped =
        let hx = v.inside i x at_i in
        let hy = v.inside j y at_j in
        rw (
          at_j,
          at_i,
          get_elem?-get_or q.memory y no_item hy,
          get_elem?-get_or first x no_item (rw length-set hx),
        )

    swapped_queue :
        (c : ℕ)
        → get_elem? swapped.queue c
          ≡ (if j == c then some x else if i == c then some y else get_elem? q.queue c)
    swapped_queue c =
        rw
          (get_elem?-set (set q.queue i y) j c x (rw length-set hj), get_elem?-set q.queue i c y hi)

    swapped_items :
        (p : ℕ)
        → item_at swapped p ≡ (
            if x == p
            then record (item_at q p) { index = pos j }
            else if y == p
            then record (item_at q p) { index = pos i }
            else item_at q p)
    swapped_items p =
        let hx = v.inside i x at_i in
        let hy = v.inside j y at_j in
        ground (
          arith,
          get_or-set first x p (record (get_or first x no_item) { index = pos j }),
          get_or-set q.memory y p (record (item_at q y) { index = pos i }),
          get_or-set q.memory y x (record (item_at q y) { index = pos i }),
          length-set q.memory y (record (item_at q y) { index = pos i }),
        )

    swapped-IsIndexed : IsIndexed swapped
    swapped-IsIndexed = record {
      inside = λ c p e. ground (
        arith,
        swapped_queue c,
        v.inside c p,
        v.inside i x at_i,
        v.inside j y at_j,
        length-set first x (record (get_or first x no_item) { index = pos j }),
        length-set q.memory y (record (item_at q y) { index = pos i }),
      );
      placed = λ c p e. ground (
        arith,
        swapped_queue c,
        swapped_items p,
        v.placed c p,
        v.placed i x at_i,
        v.placed j y at_j,
      );
    }

    swapped_slots :
        (c : ℕ)
        → slot_at swapped c
          ≡ (if j == c then slot_at q i else if i == c then slot_at q j else slot_at q c)
    swapped_slots c =
        ground (arith, swapped_queue c, swapped_items (get_or swapped.queue c 0), at_i, at_j)

    swapped-Same : Same q swapped
    swapped-Same = record {
      memory = rw (length-set, length-set);
      items = λ p. ground (arith, swapped_items p);
      keeps = λ p h. kept p h.0 h.1;
      adds_none = λ p h. back p h.0 h.1;
    }
      where
        kept : (p c : ℕ) → get_elem? q.queue c ≡ some p → IsHeld swapped p
        kept p c e = elim (ℕ_discrete i c) [
          | yes a ↦ (j, ground (arith, swapped_queue j, at_i))
          | no a ↦ elim (ℕ_discrete j c) [
            | yes b ↦ (i, ground (arith, swapped_queue i, at_j, at_i))
            | no b ↦ (c, ground (arith, swapped_queue c))
          ]
        ]

        back : (p c : ℕ) → get_elem? swapped.queue c ≡ some p → IsHeld q p
        back p c e = elim (ℕ_discrete j c) [
          | yes b ↦ (i, ground (arith, swapped_queue c, at_i))
          | no b ↦ elim (ℕ_discrete i c) [
            | yes a ↦ (j, ground (arith, swapped_queue c, at_j))
            | no a ↦ (c, ground (arith, swapped_queue c))
          ]
        ]

    pub swap-ok :
        Returns
          (λ r.
            IsIndexed r
            × (len r ≡ len q)
            × Same q r
            × ((c : ℕ)
                → slot_at r c
                  ≡ (if j == c then slot_at q i else if i == c then slot_at q j else slot_at q c)))
          (swap q i j)
    swap-ok =
        rw swap-swapped
          (returns (swapped-IsIndexed, rw (length-set, length-set), swapped-Same, swapped_slots))

-- The hold queue meets the laws of a heap.
unfoldable pub hold_queue_laws : Laws hold_queue
hold_queue_laws = record {
  Entry = Slot;
  order = slot_order;
  at = slot_at;
  IsValid = IsIndexed;
  Same = Same;
  Same-refl = Same-refl;
  Same-trans = Same-trans;
  less-ok = λ q i j v. less-ok q v i j;
  swap-ok = λ q i j v. swap-ok q v i j;
}

-- The order of two places that hold the same as two others.
pub slots_le :
    (a b c d : Slot)
    → c ≡ a
    → d ≡ b
    → less_item b.item a.item ≡ false
    → less_item d.item c.item ≡ false
slots_le a b c d e f h = ground (arith, e, f, h)

-- A hold queue between two calls: its slice is indexed, and a heap.
pub record IsHoldQueue (q : ToHoldPriorityQueue) : Type 0 where
  pub indexed : IsIndexed q
  pub heap : IsHeap hold_queue_laws q (len q)
