-- ===== src/HoldQueue/Push.antt =====
-- `heap.Push` on the hold queue.
use cs425_mps.Base.{
  ℕ, ◌+◌, ◌-◌, ◌<◌, ◌≡◌, ◌∙◌, ◌≢◌, ◌⊎◌, inl, inr, [], ◌∷◌, ◌++◌, some, ◌==◌, if◌then◌else◌, length,
  get_elem?, get_or, set, arith, get_elem?-lt, get_elem?-get_or, get_elem?-append_left,
  get_elem?-append_last, length-set, length-append,
}
use native.Mathlib.Decide.{dec_lt}
use cs425_mps.Base.Int.{pos}
use cs425_mps.Base.Run.{ok, Returns, Returns-map}
use cs425_mps.Heap.{heap_push, parent}
use cs425_mps.Heap.Order.{UpInv}
use cs425_mps.Heap.Up.{up_restores}
use cs425_mps.HoldQueue.{ToHoldPriorityQueue, store_index, push, hold_queue, len}
use cs425_mps.HoldQueue.Slots.{
  no_item, item_at, strip, slot_at, IsIndexed, IsHeld, Same, get_or-set,
}
use cs425_mps.HoldQueue.Valid.{IsHoldQueue, hold_queue_laws, slots_le}

-- `r` holds the pointers of `q` and `p`, to the same items but for their indices.
pub record Adds (q : ToHoldPriorityQueue) (p : ℕ) (r : ToHoldPriorityQueue) : Type 0 where
  pub memory : length r.memory ≡ length q.memory
  pub items : (s : ℕ) → strip (item_at r s) ≡ strip (item_at q s)
  pub held : IsHeld r p
  pub keeps : (s : ℕ) → IsHeld q s → IsHeld r s
  pub adds_one : (s : ℕ) → IsHeld r s → (s ≡ p) ⊎ IsHeld q s

Adds-Same :
    {q : ToHoldPriorityQueue} {p : ℕ} (r s : ToHoldPriorityQueue)
    → Adds q p r
    → Same r s
    → Adds q p s
Adds-Same r s a e = record {
  memory = e.memory ∙ a.memory;
  items = λ t. e.items t ∙ a.items t;
  held = e.keeps _ a.held;
  keeps = λ t h. e.keeps t (a.keeps t h);
  adds_one = λ t h. a.adds_one t (e.adds_none t h);
}

module _ (q : ToHoldPriorityQueue) (p : ℕ) (hp : p < length q.memory) where
  abbrev pushed : ToHoldPriorityQueue
  pushed = record {
    memory = set q.memory p (record (item_at q p) { index = pos (len q) });
    queue = q.queue ++ p ∷ [];
  }

  push-pushed : push p q ≡ ok pushed
  unfolding push store_index
  push-pushed = rw (get_elem?-get_or q.memory p no_item hp)

  pushed_queue :
      (c : ℕ) (s : ℕ)
      → get_elem? pushed.queue c ≡ some s
      → ((c ≡ len q) × (s ≡ p)) ⊎ (get_elem? q.queue c ≡ some s)
  pushed_queue c s e = elim (dec_lt c (len q)) [
    | yes below ↦ inr (ground (arith, get_elem?-append_left q.queue (p ∷ []) c))
    | no above ↦
        let last : c ≡ len q =
          omega (arith, get_elem?-lt pushed.queue c s e, length-append q.queue (p ∷ [])) in
        inl (last, ground (arith, get_elem?-append_last q.queue p))
  ]

  pushed_items :
      (s : ℕ)
      → item_at pushed s
        ≡ (if p == s then record (item_at q p) { index = pos (len q) } else item_at q s)
  pushed_items s = get_or-set q.memory p s (record (item_at q p) { index = pos (len q) }) hp

  module _ (v : IsHoldQueue q) (fresh : ¬ IsHeld q p) where
    pushed-IsIndexed : IsIndexed pushed
    pushed-IsIndexed = record {
      inside = λ c s e. inside c s (pushed_queue c s e);
      placed = λ c s e. placed c s (pushed_queue c s e);
    }
      where
        inside :
            (c s : ℕ)
            → ((c ≡ len q) × (s ≡ p)) ⊎ (get_elem? q.queue c ≡ some s)
            → s < length pushed.memory
        inside c s (inl e) =
            omega (arith, length-set q.memory p (record (item_at q p) { index = pos (len q) }))
        inside c s (inr e) = omega (
          arith,
          v.indexed.inside c s e,
          length-set q.memory p (record (item_at q p) { index = pos (len q) }),
        )

        placed :
            (c s : ℕ)
            → ((c ≡ len q) × (s ≡ p)) ⊎ (get_elem? q.queue c ≡ some s)
            → (item_at pushed s).index ≡ pos c
        placed c s (inl e) = ground (arith, pushed_items s)
        placed c s (inr e) =
            let ne : p ≢ s = λ same. fresh (c, rw same e) in
            ground (arith, pushed_items s, v.indexed.placed c s e)

    pushed_slots : (c : ℕ) → c < len q → slot_at pushed c ≡ slot_at q c
    pushed_slots c h =
        let at = get_elem?-get_or q.queue c 0 h in
        let ne : p ≢ get_or q.queue c 0 = λ same. fresh (c, rw same at) in
        ground (arith, get_elem?-append_left q.queue (p ∷ []) c, pushed_items (get_or q.queue c 0))

    size : len pushed ≡ len q + 1
    size = length-append q.queue (p ∷ [])

    pushed-UpInv : UpInv hold_queue_laws pushed (len pushed) (len pushed - 1)
    unfolding hold_queue_laws
    pushed-UpInv = record {
      edges = λ c a b ne.
          slots_le (slot_at q (parent c)) (slot_at q c) (slot_at pushed (parent c))
            (slot_at pushed c) (pushed_slots (parent c) (omega (arith, size)))
            (pushed_slots c (omega (arith, size)))
            (v.heap c a (omega (arith, size)) (omega (arith, size)));
      bridged = λ c a b e. absurd (omega (arith, size));
    }

    pushed-Adds : Adds q p pushed
    pushed-Adds = record {
      memory = length-set q.memory p (record (item_at q p) { index = pos (len q) });
      items = λ s. ground (arith, pushed_items s);
      held = (len q, get_elem?-append_last q.queue p);
      keeps = λ s h. (
        h.0,
        ground (
          arith,
          get_elem?-append_left q.queue (p ∷ []) h.0,
          get_elem?-lt q.queue h.0 s h.1,
          h.1,
        ),
      );
      adds_one = λ s h. elim (pushed_queue h.0 s h.1) [ inl e ↦ inl e.1 | inr e ↦ inr (h.0, e) ];
    }

    -- heap.Push of a pointer that is in the memory and not held ends without a panic, adds exactly
    -- that pointer, and leaves a heap with the right indices.
    pub heap_push_correct :
        Returns (λ r. IsHoldQueue r × Adds q p r × (len r ≡ len q + 1)) (heap_push hold_queue q p)
    unfolding heap_push hold_queue_laws
    heap_push_correct = rw push-pushed (
        Returns-map
          (up_restores hold_queue_laws pushed (len pushed) (len pushed - 1) (omega (arith, size))
            (omega arith) pushed-IsIndexed pushed-UpInv)
          λ r (keeps, heap). (
            record { indexed = keeps.0; heap = rw keeps.1 heap },
            Adds-Same pushed r pushed-Adds keeps.2,
            keeps.1 ∙ size,
          ))
