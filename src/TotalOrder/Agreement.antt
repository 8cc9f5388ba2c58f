-- ===== src/TotalOrder/Agreement.antt =====
-- All histories of the handlers, and the order on which two nodes agree.
use mathlib.Core.Path.{subst}
use cs425_mps.Base.{
  sym, ap, ◌≤◌, ◌++◌, All, ℕ, ◌<◌, ◌≡◌, Bool, Option, List, [], ◌∷◌, arith, All-In, In,
}
use cs425_mps.Base.Text.{Str, str_lt_total}
use cs425_mps.Base.Dict.{lookup}
use cs425_mps.Base.Run.{Run, ok, Returns, returns, Returns-ok}
use cs425_mps.Base.Result.{Error}
use cs425_mps.Codec.{Bytes}
use cs425_mps.Heap.{init, init_loop}
use cs425_mps.HoldQueue.{ToHoldPriorityQueue, less_item}
use cs425_mps.HoldQueue.Valid.{hold_queue_laws}
use cs425_mps.Message.{ToAskProposalSeqMsg, ToReplyProposalSeqMsg, ToAnnounceAgreementSeqMsg, ToMsg}
use cs425_mps.TotalOrder.{
  TotalOrding, Delivery, new_total_order, next_proposal_seq, hold_request, see_agreement,
  agree_and_deliver,
}
use cs425_mps.TotalOrder.Valid.{IsValid, hold_request_correct}
use cs425_mps.TotalOrder.Deliver.{agree_and_deliver_correct}
use cs425_mps.TotalOrder.Order.{
  IsOrdered, IsFaithful, HoldStep-IsOrdered, Announces-IsOrdered, Announces-agreement,
  next_proposal_seq-IsOrdered, see_agreement-IsOrdered, max_uint64-le,
}
use cs425_mps.TotalOrder.Keys.{NotBefore, key_item, IsSorted}

abbrev empty_queue : ToHoldPriorityQueue
empty_queue = record { memory = []; queue = [] }

-- A new node is valid, and has delivered nothing.
pub new_total_order_correct : Returns (λ t. IsValid t × IsOrdered t) new_total_order
unfolding new_total_order init init_loop lookup hold_queue_laws
new_total_order_correct = returns (
  record {
    queue = record {
      indexed = record { inside = λ i p e. absurd (ground arith); placed = λ i p e. ground arith };
      heap = λ c a b u. absurd (omega arith);
    };
    held = λ k p e. absurd (ground arith);
    named = λ k p e. ground arith;
  },
  record {
    sorted = tt;
    ahead = λ s h. tt;
    seen = tt;
    agreed_seen = λ s h e. absurd (ground (arith, h.1));
  },
)

-- A node with the calls that are under way: requests that have their number and are not yet held, and
-- announcements whose number is seen and that are not yet agreed. Each of them is a goroutine between
-- the two parts of its handler.
pub record Running (A : Type 0) : Type 0 where
  pub total : TotalOrding
  pub app : A
  pub numbered : List (ToAskProposalSeqMsg × ℕ)
  pub seen : List ToAnnounceAgreementSeqMsg

-- What the application must keep to: a handler that is run returns.
module _ {A : Type 0} (decode : Bytes → ToMsg × Option Error)
    (run : Str → ToMsg → A → Run (A × Option Error))
    (run_returns : (path : Str) (m : ToMsg) (a : A) → Returns (λ r. Unit {0}) (run path m a)) where
  -- One part of a call. A request must be held before an agreement with its number or a greater one is
  -- seen, and an announcement must be faithful to the votes. Who is alive and the time are arbitrary.
  pub data Step : Running A → Running A → Type 0 where
    asks :
        (s : Running A) (ask : ToAskProposalSeqMsg)
        → Step s (record s {
          total = (next_proposal_seq s.total).0;
          numbered = (ask, (next_proposal_seq s.total).1) ∷ s.numbered;
        })
    holds :
        (s : Running A) (self : Str) (ask : ToAskProposalSeqMsg) (n : ℕ)
        (front rest : List (ToAskProposalSeqMsg × ℕ)) (r : TotalOrding × ToReplyProposalSeqMsg)
        → s.numbered ≡ front ++ (ask, n) ∷ rest
        → s.total.max_agreement_seq_num_of_group < n
        → hold_request s.total self ask n ≡ ok r
        → Step s (record s { total = r.0; numbered = front ++ rest })
    sees :
        (s : Running A) (msg : ToAnnounceAgreementSeqMsg)
        → Step s (record s { total = see_agreement s.total msg; seen = msg ∷ s.seen })
    agrees :
        (s : Running A) (is_node_alived : Str → Bool) (now : ℕ) (msg : ToAnnounceAgreementSeqMsg)
        (front rest : List ToAnnounceAgreementSeqMsg) (r : TotalOrding × A × Option Error)
        → s.seen ≡ front ++ msg ∷ rest
        → IsFaithful s.total msg
        → agree_and_deliver decode run is_node_alived now s.total s.app msg ≡ ok r
        → Step s (record s { total = r.0; app = r.1; seen = front ++ rest })

  pub data Reach (a : A) : Running A → Type 0 where
    start :
        {t : TotalOrding}
        → new_total_order ≡ ok t
        → Reach a (record { total = t; app = a; numbered = []; seen = [] })
    next : {s u : Running A} → Reach a s → Step s u → Reach a u

  -- The announcements under way have been counted in the maximum.
  abbrev SeenLe : ℕ → List ToAnnounceAgreementSeqMsg → Type 0
  SeenLe n = All (λ (m : ToAnnounceAgreementSeqMsg). m.agreement_seq ≤ n)

  SeenLe-split :
      (n : ℕ) (msg : ToAnnounceAgreementSeqMsg) (front rest : List ToAnnounceAgreementSeqMsg)
      → SeenLe n (front ++ msg ∷ rest)
      → (msg.agreement_seq ≤ n) × SeenLe n (front ++ rest)
  SeenLe-split n msg [] rest h = h
  SeenLe-split n msg (m ∷ front) rest (le, h) =
      let (top, others) = SeenLe-split n msg front rest h in (top, (le, others))

  SeenLe-grows :
      (n k : ℕ) (msgs : List ToAnnounceAgreementSeqMsg) → n ≤ k → SeenLe n msgs → SeenLe k msgs
  SeenLe-grows n k [] le h = tt
  SeenLe-grows n k (m ∷ msgs) le (one, h) = (omega arith, SeenLe-grows n k msgs le h)

  record IsKept (s : Running A) : Type 0 where
    valid : IsValid s.total
    ordered : IsOrdered s.total
    seen_le : SeenLe s.total.max_agreement_seq_num_of_group s.seen

  Step-IsKept : {s u : Running A} → Step s u → IsKept s → IsKept u
  Step-IsKept (asks s ask) k = record {
    valid = record { queue = k.valid.queue; held = k.valid.held; named = k.valid.named };
    ordered = next_proposal_seq-IsOrdered s.total k.ordered;
    seen_le = k.seen_le;
  }
  Step-IsKept (holds s self ask n front rest r waits above e) k =
      let (w, st) = Returns-ok e (hold_request_correct s.total self ask n k.valid) in
      let same : r.0.max_agreement_seq_num_of_group ≡ s.total.max_agreement_seq_num_of_group =
        ap (λ (u : TotalOrding). u.max_agreement_seq_num_of_group) st.state in
      record {
        valid = w;
        ordered = HoldStep-IsOrdered s.total self ask n r above k.ordered st;
        seen_le = subst (λ m. SeenLe m s.seen) (sym same) k.seen_le;
      }
  Step-IsKept (sees s msg) k =
      let (grown, top) = max_uint64-le s.total.max_agreement_seq_num_of_group msg.agreement_seq in
      record {
        valid = record { queue = k.valid.queue; held = k.valid.held; named = k.valid.named };
        ordered = see_agreement-IsOrdered s.total msg k.ordered;
        seen_le = (top, SeenLe-grows _ _ s.seen grown k.seen_le);
      }
  Step-IsKept (agrees s alive now msg front rest r waits f e) k =
      let (w, st) =
        Returns-ok e
          (agree_and_deliver_correct decode run alive now run_returns s.total s.app msg k.valid) in
      let (top, others) = SeenLe-split _ msg front rest (subst (SeenLe _) waits k.seen_le) in
      record {
        valid = w;
        ordered = Announces-IsOrdered k.ordered top f st;
        seen_le = subst (λ m. SeenLe m (front ++ rest)) (sym (Announces-agreement st)) others;
      }

  Reach-IsKept : {a : A} {s : Running A} → Reach a s → IsKept s
  Reach-IsKept (start e) =
      let (v, o) = Returns-ok e new_total_order_correct in
      record { valid = v; ordered = o; seen_le = tt }
  Reach-IsKept (next r st) = Step-IsKept st (Reach-IsKept r)

  -- In every state that a node reaches by the handlers, the hold queue and its map are valid, the
  -- log of deliveries is sorted by agreed key, no held item comes before a delivered message, and
  -- no delivered or agreed number exceeds the maximum that the node has seen. A history
  -- interleaves the parts of any number of calls, each part one step under its locks, with an
  -- application whose handlers return. It keeps to announcements that do not lower a held key, and
  -- to requests that are held before an agreement with their number or a greater one is seen.
  pub Reach-IsOrdered : {a : A} {s : Running A} → Reach a s → IsValid s.total × IsOrdered s.total
  Reach-IsOrdered r = let k = Reach-IsKept r in (k.valid, k.ordered)

-- `d` was delivered, and `e` after it.
pub data Before (d e : Delivery) : List Delivery → Type 0 where
  first : {log : List Delivery} → In e log → Before d e (d ∷ log)
  later : {c : Delivery} {log : List Delivery} → Before d e log → Before d e (c ∷ log)

Before-NotBefore :
    (d e : Delivery) (log : List Delivery)
    → IsSorted log
    → Before d e log
    → NotBefore (key_item e) d
Before-NotBefore d e [] s b = elim b [ ]
Before-NotBefore d e (c ∷ log) s (first i) = All-In (λ x. NotBefore (key_item x) d) s.0 i
Before-NotBefore d e (c ∷ log) s (later b) = Before-NotBefore d e log s.1 b

-- Two sorted logs that hold two messages in opposite orders give them one key.
pub opposite_orders :
    (d e : Delivery) (log log' : List Delivery)
    → IsSorted log
    → IsSorted log'
    → Before d e log
    → Before e d log'
    → (d.seq_num ≡ e.seq_num) × (d.process_id ≡ e.process_id)
unfolding less_item
opposite_orders d e log log' s s' b b' =
    let one = Before-NotBefore d e log s b in
    let two = Before-NotBefore e d log' s' b' in
    ground (arith, one, two, str_lt_total d.process_id e.process_id)
