-- ===== src/TotalOrder/Valid.antt =====
-- The invariant of the hold queue and its map, and the steps that take one item in or out.
use cs425_mps.Base.{
  ℕ, ◌-◌, ◌/◌, ◌<◌, ◌≡◌, refl, ap, ◌∙◌, ◌⊎◌, inl, inr, some, List, [], ◌∷◌, ◌++◌, length, get_or,
  or_else, arith, get_elem?-get_or, get_elem?-append_left, get_elem?-append_last, length-append,
}
use cs425_mps.Base.Text.{Str, str_eq_iff}
use cs425_mps.Base.Dict.{lookup, insert, lookup-insert}
use cs425_mps.Base.Run.{Returns, returns, Returns-bind, Returns-map}
use cs425_mps.Base.Int.{suc_uint64}
use cs425_mps.HoldQueue.{ToHoldQueueItem, ToHoldPriorityQueue, len}
use cs425_mps.HoldQueue.Slots.{no_item, item_at, strip, slot_at, IsHeld}
use cs425_mps.HoldQueue.Valid.{IsHoldQueue, hold_queue_laws, slots_le}
use cs425_mps.HoldQueue.Push.{heap_push_correct}
use cs425_mps.Message.{ToAskProposalSeqMsg, ToReplyProposalSeqMsg, new_to_reply_proposal_seq_msg}
use cs425_mps.TotalOrder.{TotalOrding, next_proposal_seq, hold_request, ask_proposal_seq}
use cs425_mps.Util.{max_uint64}

-- The hold queue is valid, and the map names held items by their message.
pub record IsValid (t : TotalOrding) : Type 0 where
  pub queue : IsHoldQueue t.hold_queue
  pub held : (k : Str) (p : ℕ) → lookup k t.hold_queue_map ≡ some p → IsHeld t.hold_queue p
  pub named :
      (k : Str) (p : ℕ) → lookup k t.hold_queue_map ≡ some p → (item_at t.hold_queue p).msg_id ≡ k

-- The item at a pointer that stands in the memory does not change when an item is allocated.
get_or-append :
    (m : List ToHoldQueueItem) (x : ToHoldQueueItem) (p : ℕ)
    → p < length m
    → get_or (m ++ x ∷ []) p no_item ≡ get_or m p no_item
get_or-append m x p h = ground (arith, get_elem?-append_left m (x ∷ []) p)

module _ (q : ToHoldPriorityQueue) (x : ToHoldQueueItem) (v : IsHoldQueue q) where
  abbrev allocated : ToHoldPriorityQueue
  allocated = record q { memory = q.memory ++ x ∷ [] }

  allocated_slots : (c : ℕ) → c < len q → slot_at allocated c ≡ slot_at q c
  allocated_slots c h =
      let p = get_or q.queue c 0 in
      let inside = v.indexed.inside c p (get_elem?-get_or q.queue c 0 h) in
      ap (λ y. record { pointer = p; item = strip y }) (get_or-append q.memory x p inside)

  allocated-IsHoldQueue : IsHoldQueue allocated
  unfolding hold_queue_laws
  allocated-IsHoldQueue = record {
    indexed = record {
      inside = λ c p e. omega (arith, v.indexed.inside c p e, length-append q.memory (x ∷ []));
      placed = λ c p e.
          ap (λ (y : ToHoldQueueItem). y.index)
            (get_or-append q.memory x p (v.indexed.inside c p e))
          ∙ v.indexed.placed c p e;
    };
    heap = λ c a b u.
        slots_le (slot_at q ((c - 1) / 2)) (slot_at q c) (slot_at allocated ((c - 1) / 2))
          (slot_at allocated c) (allocated_slots ((c - 1) / 2) (omega arith)) (allocated_slots c b)
          (v.heap c a b u);
  }

  -- The new pointer is not held: it lies beyond the old memory.
  allocated_fresh : ¬ IsHeld allocated (length q.memory)
  allocated_fresh h = absurd (omega (arith, v.indexed.inside h.0 (length q.memory) h.1))

-- The item that a request allocates.
abbrev pub asked_item : ToAskProposalSeqMsg → ℕ → ToHoldQueueItem
asked_item ask seq_num = record no_item {
  body = ask.body;
  proposal_seq_num = seq_num;
  process_id = ask.src_id;
  msg_id = ask.msg_id;
}

abbrev pub next_proposal : TotalOrding → ℕ
next_proposal t =
    suc_uint64 (max_uint64 t.max_agreement_seq_num_of_group t.max_proposal_seq_num_of_self)

-- A request adds one item, and changes nothing else of the queue.
pub record AskStep (t : TotalOrding) (self : Str) (ask : ToAskProposalSeqMsg)
    (r : TotalOrding × ToReplyProposalSeqMsg) : Type 0 where
  pub state : r.0 ≡ record t {
    max_proposal_seq_num_of_self = next_proposal t;
    hold_queue_map = insert ask.msg_id (length t.hold_queue.memory) t.hold_queue_map;
    hold_queue = r.0.hold_queue;
  }
  pub reply :
      r.1 ≡ record { process_id = self; msg_id = ask.msg_id; proposal_seq = next_proposal t }
  pub queue : IsHoldQueue r.0.hold_queue
  pub added : IsHeld r.0.hold_queue (length t.hold_queue.memory)
  pub item :
      strip (item_at r.0.hold_queue (length t.hold_queue.memory)) ≡ asked_item ask (next_proposal t)
  pub keeps : (s : ℕ) → IsHeld t.hold_queue s → IsHeld r.0.hold_queue s
  pub same :
      (s : ℕ)
      → IsHeld t.hold_queue s
      → strip (item_at r.0.hold_queue s) ≡ strip (item_at t.hold_queue s)
  pub adds_one :
      (s : ℕ) → IsHeld r.0.hold_queue s → (s ≡ length t.hold_queue.memory) ⊎ IsHeld t.hold_queue s

-- The second part adds one item with the number `n`, and changes nothing else of the queue.
pub record HoldStep (t : TotalOrding) (self : Str) (ask : ToAskProposalSeqMsg) (n : ℕ)
    (r : TotalOrding × ToReplyProposalSeqMsg) : Type 0 where
  pub state : r.0 ≡ record t {
    hold_queue_map = insert ask.msg_id (length t.hold_queue.memory) t.hold_queue_map;
    hold_queue = r.0.hold_queue;
  }
  pub reply : r.1 ≡ record { process_id = self; msg_id = ask.msg_id; proposal_seq = n }
  pub queue : IsHoldQueue r.0.hold_queue
  pub added : IsHeld r.0.hold_queue (length t.hold_queue.memory)
  pub item : strip (item_at r.0.hold_queue (length t.hold_queue.memory)) ≡ asked_item ask n
  pub keeps : (s : ℕ) → IsHeld t.hold_queue s → IsHeld r.0.hold_queue s
  pub same :
      (s : ℕ)
      → IsHeld t.hold_queue s
      → strip (item_at r.0.hold_queue s) ≡ strip (item_at t.hold_queue s)
  pub adds_one :
      (s : ℕ) → IsHeld r.0.hold_queue s → (s ≡ length t.hold_queue.memory) ⊎ IsHeld t.hold_queue s

hold_step :
    (t : TotalOrding) (self : Str) (ask : ToAskProposalSeqMsg) (n : ℕ)
    → IsHoldQueue t.hold_queue
    → Returns (HoldStep t self ask n) (hold_request t self ask n)
unfolding new_to_reply_proposal_seq_msg
hold_step t self ask n v =
    let q = t.hold_queue in
    let p = length q.memory in
    let x = asked_item ask n in
    Returns-bind
      (heap_push_correct (allocated q x v) p (omega (arith, length-append q.memory (x ∷ [])))
        (allocated-IsHoldQueue q x v) (allocated_fresh q x v))
      λ r (valid, adds, size). returns (record {
        state = refl;
        reply = refl;
        queue = valid;
        added = adds.held;
        item =
            adds.items p ∙ ap (λ y. strip (or_else y no_item)) (get_elem?-append_last q.memory x);
        keeps = λ s h. adds.keeps s h;
        same = λ s h.
            adds.items s ∙ ap strip (get_or-append q.memory x s (v.indexed.inside h.0 s h.1));
        adds_one = λ s h. adds.adds_one s h;
      })

HoldStep-IsValid :
    (t : TotalOrding) (self : Str) (ask : ToAskProposalSeqMsg) (n : ℕ)
    (r : TotalOrding × ToReplyProposalSeqMsg)
    → IsValid t
    → HoldStep t self ask n r
    → IsValid r.0
HoldStep-IsValid t self ask n r v st = record {
  queue = st.queue;
  held = λ k p e. elim (found k p e) [
    | inl (_, new) ↦ rw new st.added
    | inr old ↦ st.keeps p (v.held k p old)
  ];
  named = λ k p e. elim (found k p e) [
    | inl (same, new) ↦ rw new (ap (λ (x : ToHoldQueueItem). x.msg_id) st.item ∙ same)
    | inr old ↦
        ap (λ (x : ToHoldQueueItem). x.msg_id) (st.same p (v.held k p old)) ∙ v.named k p old
  ];
}
  where
    found :
        (k : Str) (p : ℕ)
        → lookup k r.0.hold_queue_map ≡ some p
        → ((ask.msg_id ≡ k) × (p ≡ length t.hold_queue.memory))
          ⊎ (lookup k t.hold_queue_map ≡ some p)
    found k p e =
        let at = ap (λ (u : TotalOrding). lookup k u.hold_queue_map) st.state in
        ground (
          arith,
          at,
          lookup-insert ask.msg_id k (length t.hold_queue.memory) t.hold_queue_map,
          str_eq_iff ask.msg_id k,
        )

-- On a valid state, the second part of the handler returns, adds its item and keeps the state valid.
pub hold_request_correct :
    (t : TotalOrding) (self : Str) (ask : ToAskProposalSeqMsg) (n : ℕ)
    → IsValid t
    → Returns (λ r. IsValid r.0 × HoldStep t self ask n r) (hold_request t self ask n)
hold_request_correct t self ask n v =
    Returns-map (hold_step t self ask n v.queue) λ r st. (HoldStep-IsValid t self ask n r v st, st)

-- On a valid state, the handler of a request, where nothing runs between its two parts, never
-- panics, adds exactly one item, not agreed, with the number after both maxima, replies with that
-- number, and keeps the state valid and every other item as it was.
pub ask_proposal_seq_correct :
    (t : TotalOrding) (self_node_id : Str) (ask : ToAskProposalSeqMsg)
    → IsValid t
    → Returns
        (λ r. IsValid r.0 × AskStep t self_node_id ask r)
        (ask_proposal_seq t self_node_id ask)
unfolding ask_proposal_seq
ask_proposal_seq_correct t self ask v =
    let (numbered, n) = next_proposal_seq t in
    let v' : IsValid numbered = record { queue = v.queue; held = v.held; named = v.named } in
    Returns-map (hold_request_correct numbered self ask n v') λ r (w, st). (
      w,
      record {
        state = st.state;
        reply = st.reply;
        queue = st.queue;
        added = st.added;
        item = st.item;
        keeps = st.keeps;
        same = st.same;
        adds_one = st.adds_one;
      },
    )
