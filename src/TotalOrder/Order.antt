-- ===== src/TotalOrder/Order.antt =====
-- Messages are delivered in the order of their agreed keys.
use mathlib.Core.List.{append-nil}
use cs425_mps.Base.{
  ℕ, ◌≤◌, ◌<◌, ◌≡◌, ap, ◌∙◌, inl, inr, true, false, Option, some, List, [], ◌∷◌, ◌++◌, refl, Bool,
  if◌then◌else◌, ◌==◌, length, arith, All, Bool-cases,
}
use cs425_mps.Base.Text.{Str}
use cs425_mps.Base.Dict.{lookup}
use cs425_mps.Base.Result.{Error}
use cs425_mps.Base.Run.{Run}
use cs425_mps.Codec.{Bytes}
use cs425_mps.HoldQueue.{ToHoldPriorityQueue, less_item, agree}
use cs425_mps.HoldQueue.Order.{less_item-le_trans}
use cs425_mps.HoldQueue.Slots.{item_at, strip, IsHeld}
use cs425_mps.HoldQueue.Update.{Agrees}
use cs425_mps.Message.{ToAskProposalSeqMsg, ToReplyProposalSeqMsg, ToAnnounceAgreementSeqMsg, ToMsg}
use cs425_mps.TotalOrder.{TotalOrding, Delivery, next_proposal_seq, see_agreement}
use cs425_mps.TotalOrder.Valid.{HoldStep, asked_item}
use cs425_mps.TotalOrder.Deliver.{Announces, unknown, known, announced}
use cs425_mps.TotalOrder.Heads.{
  delivery, Takes, Delivers, empty, waits, start_timer, timer_runs, drop, garble, deliver,
}
use cs425_mps.Util.{max_uint64}
use cs425_mps.TotalOrder.Keys.{
  key_item, NotBefore, IsSorted, All-map, All-append, IsSorted-append, NotBefore-strip,
  less_item-delivery, delivery-less_item, NotBefore-above,
}

-- What keeps the log sorted: no held item comes before a delivered one, and neither a delivered nor
-- an agreed item has a sequence number above the greatest agreement seen.
pub record IsOrdered (t : TotalOrding) : Type 0 where
  pub sorted : IsSorted t.delivered
  pub ahead : (s : ℕ) → IsHeld t.hold_queue s → All (NotBefore (item_at t.hold_queue s)) t.delivered
  pub seen : All (λ d. d.seq_num ≤ t.max_agreement_seq_num_of_group) t.delivered
  pub agreed_seen :
      (s : ℕ)
      → IsHeld t.hold_queue s
      → (item_at t.hold_queue s).agreed ≡ true
      → (item_at t.hold_queue s).proposal_seq_num ≤ t.max_agreement_seq_num_of_group

-- A number may be given out at any time.
pub next_proposal_seq-IsOrdered :
    (t : TotalOrding) → IsOrdered t → IsOrdered (next_proposal_seq t).0
next_proposal_seq-IsOrdered t o = record {
  sorted = o.sorted;
  ahead = o.ahead;
  seen = o.seen;
  agreed_seen = o.agreed_seen;
}

-- An item whose number is above the greatest agreement comes after all that was delivered.
pub HoldStep-IsOrdered :
    (t : TotalOrding) (self : Str) (ask : ToAskProposalSeqMsg) (n : ℕ)
    (r : TotalOrding × ToReplyProposalSeqMsg)
    → t.max_agreement_seq_num_of_group < n
    → IsOrdered t
    → HoldStep t self ask n r
    → IsOrdered r.0
HoldStep-IsOrdered t self ask n r above o st =
    let log : r.0.delivered ≡ t.delivered = ap (λ (u : TotalOrding). u.delivered) st.state in
    let agreement : r.0.max_agreement_seq_num_of_group ≡ t.max_agreement_seq_num_of_group =
      ap (λ (u : TotalOrding). u.max_agreement_seq_num_of_group) st.state in
    let p = length t.hold_queue.memory in
    record {
      sorted = rw log o.sorted;
      ahead = λ s h. rw log (elim (st.adds_one s h) [
        | inl new ↦
            All-map (λ d. d.seq_num ≤ t.max_agreement_seq_num_of_group)
              (NotBefore (item_at r.0.hold_queue s)) t.delivered
              (λ d le.
                NotBefore-strip (item_at r.0.hold_queue s) (asked_item ask n) d
                  (ap (λ n. strip (item_at r.0.hold_queue n)) new ∙ st.item)
                  (NotBefore-above (asked_item ask n) d (omega arith)))
              o.seen
        | inr old ↦
            All-map (NotBefore (item_at t.hold_queue s)) (NotBefore (item_at r.0.hold_queue s))
              t.delivered
              (λ d.
                NotBefore-strip (item_at r.0.hold_queue s) (item_at t.hold_queue s) d
                  (st.same s old))
              (o.ahead s old)
      ]);
      seen = rw (log, agreement) o.seen;
      agreed_seen = λ s h e. elim (st.adds_one s h) [
        | inl new ↦
            let item = ap (λ n. strip (item_at r.0.hold_queue n)) new ∙ st.item in
            absurd (ground (arith, item, e))
        | inr old ↦
            let item = st.same s old in
            let bound = o.agreed_seen s old in ground (arith, item, bound, e, agreement)
      ];
    }

Takes-IsOrdered :
    {t u : TotalOrding} (p : ℕ) (log : List Delivery)
    → IsOrdered t
    → Takes t p log u
    → IsSorted (t.delivered ++ log)
    → All (λ d. d.seq_num ≤ t.max_agreement_seq_num_of_group) (t.delivered ++ log)
    → ((s : ℕ)
        → IsHeld t.hold_queue s
        → All (NotBefore (item_at t.hold_queue s)) (t.delivered ++ log))
    → IsOrdered u
Takes-IsOrdered {t} {u} p log o k sorted seen ahead = record {
  sorted = rw k.delivered sorted;
  ahead = λ s h. rw k.delivered (
      All-map (NotBefore (item_at t.hold_queue s)) (NotBefore (item_at u.hold_queue s))
        (t.delivered ++ log)
        (λ d.
          NotBefore-strip (item_at u.hold_queue s) (item_at t.hold_queue s) d (k.removes.items s))
        (ahead s (k.removes.adds_none s h)));
  seen = rw (k.delivered, k.agreement) seen;
  agreed_seen = λ s h e.
      let item = k.removes.items s in
      let bound = o.agreed_seen s (k.removes.adds_none s h) in
      ground (arith, item, bound, e, k.agreement);
}

drop-IsOrdered : {t u : TotalOrding} (p : ℕ) → IsOrdered t → Takes t p [] u → IsOrdered u
drop-IsOrdered {t} {u} p o k =
    let same = append-nil t.delivered in
    Takes-IsOrdered p [] o k (rw same o.sorted) (rw same o.seen) (λ s h. rw same (o.ahead s h))

deliver-IsOrdered :
    {t u : TotalOrding} (p : ℕ)
    → (item_at t.hold_queue p).agreed ≡ true
    → IsOrdered t
    → Takes t p (delivery (item_at t.hold_queue p) ∷ []) u
    → IsOrdered u
deliver-IsOrdered {t} {u} p e o k =
    let x = item_at t.hold_queue p in
    let d = delivery x in
    let held = k.removes.was_held in
    Takes-IsOrdered p (d ∷ []) o k
      (IsSorted-append t.delivered d o.sorted (
        All-map (NotBefore x) (NotBefore (key_item d)) t.delivered (λ c. delivery-less_item x c e)
          (o.ahead p held)))
      (All-append (λ c. c.seq_num ≤ t.max_agreement_seq_num_of_group) t.delivered d o.seen
        (o.agreed_seen p held e))
      (λ s h.
        All-append (NotBefore (item_at t.hold_queue s)) t.delivered d (o.ahead s h)
          (less_item-delivery (item_at t.hold_queue s) x e ∙ k.head.least s h))

module _ {A : Type 0} {decode : Bytes → ToMsg × Option Error}
    {run : Str → ToMsg → A → Run (A × Option Error)} {is_node_alived : Str → Bool} {now : ℕ} where
  pub Delivers-IsOrdered :
      {t : TotalOrding} {a : A} {r : TotalOrding × A × Option Error}
      → Delivers decode run is_node_alived now t a r
      → IsOrdered t
      → IsOrdered r.0
  Delivers-IsOrdered (empty t a h) o = o
  Delivers-IsOrdered (waits t a p h e up) o = o
  Delivers-IsOrdered (start_timer t a p h e) o = record {
    sorted = o.sorted;
    ahead = o.ahead;
    seen = o.seen;
    agreed_seen = o.agreed_seen;
  }
  Delivers-IsOrdered (timer_runs t a p c h e w) o = o
  Delivers-IsOrdered (drop a p c h e over k) o = drop-IsOrdered p o k
  Delivers-IsOrdered (garble a p x e k bad) o = deliver-IsOrdered p e o k
  Delivers-IsOrdered (deliver a a' p m x e k good ran d) o =
      Delivers-IsOrdered d (deliver-IsOrdered p e o k)

  pub Delivers-agreement :
      {t : TotalOrding} {a : A} {r : TotalOrding × A × Option Error}
      → Delivers decode run is_node_alived now t a r
      → r.0.max_agreement_seq_num_of_group ≡ t.max_agreement_seq_num_of_group
  Delivers-agreement (empty t a h) = refl
  Delivers-agreement (waits t a p h e up) = refl
  Delivers-agreement (start_timer t a p h e) = refl
  Delivers-agreement (timer_runs t a p c h e w) = refl
  Delivers-agreement (drop a p c h e over k) = k.agreement
  Delivers-agreement (garble a p x e k bad) = k.agreement
  Delivers-agreement (deliver a a' p m x e k good ran d) = Delivers-agreement d ∙ k.agreement

-- The announced key does not come before the key that the item has: the agreement is the greatest of
-- all votes, one of which is this node's proposal.
abbrev pub IsFaithful : TotalOrding → ToAnnounceAgreementSeqMsg → Type 0
IsFaithful t msg =
    (s : ℕ)
    → lookup msg.msg_id t.hold_queue_map ≡ some s
    → less_item (agree (item_at t.hold_queue s) msg.process_id msg.agreement_seq)
        (item_at t.hold_queue s)
      ≡ false

-- The greatest of two numbers.
pub max_uint64-le : (a b : ℕ) → (a ≤ max_uint64 a b) × (b ≤ max_uint64 a b)
unfolding max_uint64
max_uint64-le a b = ground arith

-- The first part of the handler of an announcement.
pub see_agreement-IsOrdered :
    (t : TotalOrding) (msg : ToAnnounceAgreementSeqMsg)
    → IsOrdered t
    → IsOrdered (see_agreement t msg)
see_agreement-IsOrdered t msg o =
    let (grown, top) = max_uint64-le t.max_agreement_seq_num_of_group msg.agreement_seq in
    record {
      sorted = o.sorted;
      ahead = o.ahead;
      seen =
          All-map (λ d. d.seq_num ≤ t.max_agreement_seq_num_of_group)
            (λ d. d.seq_num ≤ max_uint64 t.max_agreement_seq_num_of_group msg.agreement_seq)
            t.delivered (λ d le. omega arith) o.seen;
      agreed_seen = λ r h e. let bound = o.agreed_seen r h e in omega arith;
    }

announced-IsOrdered :
    (t : TotalOrding) (msg : ToAnnounceAgreementSeqMsg) (s : ℕ) (q : ToHoldPriorityQueue)
    → IsOrdered t
    → msg.agreement_seq ≤ t.max_agreement_seq_num_of_group
    → less_item
        (agree (item_at t.hold_queue s) msg.process_id msg.agreement_seq)
        (item_at t.hold_queue s)
      ≡ false
    → Agrees t.hold_queue s msg.process_id msg.agreement_seq q
    → IsOrdered (announced t q)
announced-IsOrdered t msg s q o top faithful k = record {
  sorted = o.sorted;
  ahead = λ r h.
      let old = o.ahead r (k.adds_none r h) in
      All-map (NotBefore (item_at t.hold_queue r)) (NotBefore (item_at q r)) t.delivered
        (λ d before. ahead_one r d (k.items r) before) old;
  seen = o.seen;
  agreed_seen = λ r h e.
      let item = k.items r in
      let bound = o.agreed_seen r (k.adds_none r h) in ground (arith, item, bound, e);
}
  where
    ahead_one :
        (r : ℕ) (d : Delivery)
        → strip (item_at q r) ≡ (
            if s == r
            then agree (strip (item_at t.hold_queue r)) msg.process_id msg.agreement_seq
            else strip (item_at t.hold_queue r))
        → NotBefore (item_at t.hold_queue r) d
        → NotBefore (item_at q r) d
    ahead_one r d item before = elim (Bool-cases (s == r)) [
      | inl e ↦
          let same : s ≡ r = ground arith in
          let x = item_at t.hold_queue r in
          let new = agree x msg.process_id msg.agreement_seq in
          NotBefore-strip (item_at q r) new d (rw e at item)
            (less_item-le_trans (key_item d) x new before (rw same at faithful))
      | inr e ↦ NotBefore-strip (item_at q r) (item_at t.hold_queue r) d (rw e at item) before
    ]

module _ {A : Type 0} {decode : Bytes → ToMsg × Option Error}
    {run : Str → ToMsg → A → Run (A × Option Error)} {is_node_alived : Str → Bool} {now : ℕ} where
  pub Announces-IsOrdered :
      {t : TotalOrding} {a : A} {msg : ToAnnounceAgreementSeqMsg}
      {r : TotalOrding × A × Option Error}
      → IsOrdered t
      → msg.agreement_seq ≤ t.max_agreement_seq_num_of_group
      → IsFaithful t msg
      → Announces decode run is_node_alived now t a msg r
      → IsOrdered r.0
  Announces-IsOrdered o top f (unknown missing) = o
  Announces-IsOrdered {t} {a} {msg} o top f (known s q found w k d) =
      Delivers-IsOrdered d (announced-IsOrdered t msg s q o top (f s found) k)

  pub Announces-agreement :
      {t : TotalOrding} {a : A} {msg : ToAnnounceAgreementSeqMsg}
      {r : TotalOrding × A × Option Error}
      → Announces decode run is_node_alived now t a msg r
      → r.0.max_agreement_seq_num_of_group ≡ t.max_agreement_seq_num_of_group
  Announces-agreement (unknown missing) = refl
  Announces-agreement (known s q found w k d) = Delivers-agreement d
