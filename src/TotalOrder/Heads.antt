-- ===== src/TotalOrder/Heads.antt =====
-- What the delivery loop does to the head of the hold queue, and over all its rounds.
use mathlib.Core.List.{append-nil}
use cs425_mps.Base.{
  ℕ, suc, ◌≤◌, ltb→lt, ltb→ge, Option, none, ◌-◌, ◌<◌, ◌≡◌, refl, sym, ap, ◌∙◌, ◌≢◌, inl, inr, Bool,
  true, false, some, List, [], ◌∷◌, ◌++◌, ltb, get_elem?, get_or, arith, get_elem?-get_or,
  Bool-cases, Option-cases,
}
use cs425_mps.Base.Text.{Str, str_eq_iff}
use cs425_mps.Base.Dict.{Dict, lookup, insert, delete, lookup-delete}
use cs425_mps.Base.Result.{Error}
use cs425_mps.Codec.{Bytes}
use cs425_mps.Message.{ToMsg}
use cs425_mps.Base.Run.{Run, ok, Returns, returns, Returns-bind, Returns-if, Returns-inv}
use cs425_mps.HoldQueue.{ToHoldQueueItem, len, less_item, peek}
use cs425_mps.HoldQueue.Slots.{no_item, item_at, IsHeld}
use cs425_mps.HoldQueue.Valid.{IsHoldQueue}
use cs425_mps.HoldQueue.Pop.{Removes, heap_pop_correct, peek_least}
use cs425_mps.TotalOrder.{
  TotalOrding, Delivery, head_item, take_head, skip_crashed, node_crash_timeout,
}
use cs425_mps.TotalOrder.Valid.{IsValid}

-- What the log records of an item.
abbrev pub delivery : ToHoldQueueItem → Delivery
delivery x = record { seq_num = x.proposal_seq_num; process_id = x.process_id; msg_id = x.msg_id }

-- The head `p` of the queue, before which no held item comes.
pub record IsHead (t : TotalOrding) (p : ℕ) : Type 0 where
  pub root : get_elem? t.hold_queue.queue 0 ≡ some p
  pub least :
      (s : ℕ)
      → IsHeld t.hold_queue s
      → less_item (item_at t.hold_queue s) (item_at t.hold_queue p) ≡ false

-- The item at `p` has left the queue and the map; `log` is what it adds to the log.
pub record Takes (t : TotalOrding) (p : ℕ) (log : List Delivery) (u : TotalOrding) : Type 0 where
  pub head : IsHead t p
  pub queue : IsHoldQueue u.hold_queue
  pub removes : Removes t.hold_queue p u.hold_queue
  pub shorter : len t.hold_queue ≡ suc (len u.hold_queue)
  pub map : u.hold_queue_map ≡ delete (item_at t.hold_queue p).msg_id t.hold_queue_map
  pub agreement : u.max_agreement_seq_num_of_group ≡ t.max_agreement_seq_num_of_group
  pub proposal : u.max_proposal_seq_num_of_self ≡ t.max_proposal_seq_num_of_self
  pub timers : u.crash_node_timeout ≡ t.crash_node_timeout
  pub delivered : u.delivered ≡ t.delivered ++ log

-- The head is not agreed, and its process has left the group.
pub record IsLeft (is_node_alived : Str → Bool) (t : TotalOrding) (p : ℕ) : Type 0 where
  pub head : IsHead t p
  pub open_yet : (item_at t.hold_queue p).agreed ≡ false
  pub gone : is_node_alived (item_at t.hold_queue p).process_id ≡ false

module _ {A : Type 0} (decode : Bytes → ToMsg × Option Error)
    (run : Str → ToMsg → A → Run (A × Option Error)) (is_node_alived : Str → Bool) (now : ℕ) where
  -- The rounds of the loop, from a state of the layer and one of the application.
  pub data Delivers : TotalOrding → A → TotalOrding × A × Option Error → Type 0 where
    empty : (t : TotalOrding) (a : A) → len t.hold_queue ≡ 0 → Delivers t a (t, a, none)
    -- The head is not agreed, and its process is alive.
    waits :
        (t : TotalOrding) (a : A) (p : ℕ)
        → IsHead t p
        → (item_at t.hold_queue p).agreed ≡ false
        → is_node_alived (item_at t.hold_queue p).process_id ≡ true
        → Delivers t a (t, a, none)
    -- The timer of a process that has left starts.
    start_timer :
        (t : TotalOrding) (a : A) (p : ℕ)
        → IsLeft is_node_alived t p
        → lookup (item_at t.hold_queue p).process_id t.crash_node_timeout ≡ none
        → Delivers t a (
          record t {
            crash_node_timeout =
                insert (item_at t.hold_queue p).process_id now t.crash_node_timeout;
          },
          a,
          none,
        )
    -- The timer has run for at most the timeout.
    timer_runs :
        (t : TotalOrding) (a : A) (p crash_time : ℕ)
        → IsLeft is_node_alived t p
        → lookup (item_at t.hold_queue p).process_id t.crash_node_timeout ≡ some crash_time
        → now - crash_time ≤ node_crash_timeout
        → Delivers t a (t, a, none)
    -- The timer has run for longer: the head is dropped.
    drop :
        {t u : TotalOrding} (a : A) (p crash_time : ℕ)
        → IsLeft is_node_alived t p
        → lookup (item_at t.hold_queue p).process_id t.crash_node_timeout ≡ some crash_time
        → node_crash_timeout < now - crash_time
        → Takes t p [] u
        → Delivers t a (u, a, none)
    -- The head is agreed, but its body cannot be decoded: it is gone, and the loop ends.
    garble :
        {t u : TotalOrding} (a : A) (p : ℕ) (e : Error)
        → (item_at t.hold_queue p).agreed ≡ true
        → Takes t p (delivery (item_at t.hold_queue p) ∷ []) u
        → (decode (item_at t.hold_queue p).body).1 ≡ some e
        → Delivers t a (u, a, some e)
    -- The head is agreed, and the application runs with its message.
    deliver :
        {t u : TotalOrding} {r : TotalOrding × A × Option Error} (a a' : A) (p : ℕ) (tomsg : ToMsg)
        (reported : Option Error)
        → (item_at t.hold_queue p).agreed ≡ true
        → Takes t p (delivery (item_at t.hold_queue p) ∷ []) u
        → decode (item_at t.hold_queue p).body ≡ (tomsg, none)
        → run tomsg.path tomsg a ≡ ok (a', reported)
        → Delivers u a' r
        → Delivers t a r

pub Takes-IsValid :
    {t u : TotalOrding} {log : List Delivery} (p : ℕ) → IsValid t → Takes t p log u → IsValid u
Takes-IsValid {t} {u} p v k = record {
  queue = k.queue;
  held = λ j s e. let (old, other) = found j s e in k.removes.keeps s other (v.held j s old);
  named = λ j s e.
      let (old, other) = found j s e in
      ap (λ (x : ToHoldQueueItem). x.msg_id) (k.removes.items s) ∙ v.named j s old;
}
  where
    found :
        (j : Str) (s : ℕ)
        → lookup j u.hold_queue_map ≡ some s
        → (lookup j t.hold_queue_map ≡ some s) × (s ≢ p)
    found j s e =
        let id = (item_at t.hold_queue p).msg_id in
        let at = ap (λ (m : Dict ℕ). lookup j m) k.map in
        let deleted = lookup-delete id j t.hold_queue_map in
        let old : lookup j t.hold_queue_map ≡ some s = ground (arith, at, deleted) in
        (
          old,
          λ same.
              let name : id ≡ j =
                ap (λ (n : ℕ). (item_at t.hold_queue n).msg_id) (sym same) ∙ v.named j s old in
              ground (arith, at, deleted, str_eq_iff id j, name),
        )

module _ {A : Type 0} {decode : Bytes → ToMsg × Option Error}
    {run : Str → ToMsg → A → Run (A × Option Error)} {is_node_alived : Str → Bool} {now : ℕ} where
  pub Delivers-IsValid :
      {t : TotalOrding} {a : A} {r : TotalOrding × A × Option Error}
      → Delivers decode run is_node_alived now t a r
      → IsValid t
      → IsValid r.0
  Delivers-IsValid (empty t a h) v = v
  Delivers-IsValid (waits t a p h e up) v = v
  Delivers-IsValid (start_timer t a p h e) v = record {
    queue = v.queue;
    held = v.held;
    named = v.named;
  }
  Delivers-IsValid (timer_runs t a p c h e w) v = v
  Delivers-IsValid (drop a p c h e over k) v = Takes-IsValid p v k
  Delivers-IsValid (garble a p x e k bad) v = Takes-IsValid p v k
  Delivers-IsValid (deliver a a' p m x e k good ran d) v = Delivers-IsValid d (Takes-IsValid p v k)

module _ (t : TotalOrding) (v : IsHoldQueue t.hold_queue) (h : 0 < len t.hold_queue) where
  abbrev pub root_pointer : ℕ
  root_pointer = get_or t.hold_queue.queue 0 0

  pub peek-IsHead : IsHead t root_pointer
  unfolding peek
  peek-IsHead =
      let at = get_elem?-get_or t.hold_queue.queue 0 0 h in record { root = at; least = least at }
    where
      least :
          get_elem? t.hold_queue.queue 0 ≡ some root_pointer
          → (s : ℕ) → IsHeld t.hold_queue s
          → less_item (item_at t.hold_queue s) (item_at t.hold_queue root_pointer) ≡ false
      least at s w =
          let (r, e, (i, l)) = Returns-inv (peek_least t.hold_queue v h) in
          let same : r ≡ root_pointer = ground (arith, e, at) in rw same at (l s w)

  pub head_item-root_pointer : head_item t ≡ ok (item_at t.hold_queue root_pointer)
  unfolding head_item peek
  head_item-root_pointer =
      let at = get_elem?-get_or t.hold_queue.queue 0 0 h in
      rw (
        at,
        get_elem?-get_or t.hold_queue.memory root_pointer no_item
            (v.indexed.inside 0 root_pointer at),
      )

  pub take_head-Takes :
      Returns
        (Takes t root_pointer (delivery (item_at t.hold_queue root_pointer) ∷ []))
        (take_head t (item_at t.hold_queue root_pointer))
  unfolding take_head
  take_head-Takes = Returns-bind (heap_pop_correct t.hold_queue v h) λ r pops.
      let same : r.0 ≡ root_pointer =
        ground (arith, pops.root, get_elem?-get_or t.hold_queue.queue 0 0 h) in
      returns (record {
        head = peek-IsHead;
        queue = pops.valid;
        removes = rw same at pops.removes;
        shorter = pops.shorter;
        map = refl;
        agreement = refl;
        proposal = refl;
        timers = refl;
        delivered = refl;
      })

  pub skip_crashed_delivers :
      {A : Type 0} (decode : Bytes → ToMsg × Option Error)
      (run : Str → ToMsg → A → Run (A × Option Error)) (is_node_alived : Str → Bool) (now : ℕ)
      (a : A)
      → (item_at t.hold_queue root_pointer).agreed ≡ false
      → Returns
          (λ u. Delivers decode run is_node_alived now t a (u, a, none))
          (skip_crashed is_node_alived now t (item_at t.hold_queue root_pointer))
  unfolding skip_crashed
  skip_crashed_delivers decode run alive now a e =
      let x = item_at t.hold_queue root_pointer in
      elim (Bool-cases (alive x.process_id)) [
        | inl up ↦ rw up (returns (waits t a root_pointer peek-IsHead e up))
        | inr gone ↦
            let left : IsLeft alive t root_pointer = record {
              head = peek-IsHead;
              open_yet = e;
              gone = gone;
            } in
            elim (Option-cases (lookup x.process_id t.crash_node_timeout)) [
              | inl first ↦
                  rw (gone, first, skip_crashed) (returns (start_timer t a root_pointer left first))
              | inr (crash_time, since) ↦
                  rw (gone, since, skip_crashed)
                    (Returns-if (ltb node_crash_timeout (now - crash_time))
                      (λ over. Returns-bind (heap_pop_correct t.hold_queue v h) λ r pops.
                        let same : r.0 ≡ root_pointer =
                          ground (arith, pops.root, get_elem?-get_or t.hold_queue.queue 0 0 h) in
                        returns (
                          drop a root_pointer crash_time left since
                            (ltb→lt node_crash_timeout (now - crash_time) over)
                            (record {
                              head = peek-IsHead;
                              queue = pops.valid;
                              removes = rw same at pops.removes;
                              shorter = pops.shorter;
                              map = refl;
                              agreement = refl;
                              proposal = refl;
                              timers = refl;
                              delivered = sym (append-nil t.delivered);
                            })))
                      (λ within. returns (
                        timer_runs t a root_pointer crash_time left since
                          (ltb→ge node_crash_timeout (now - crash_time) within))))
            ]
      ]
