-- ===== src/TotalOrder.antt =====
-- lib/mp1/multicast/total_ording.go: the state of the total-order layer, and the parts of its handlers
-- that work on it. Each of the two handlers takes the locks of the numbers first and that of the hold
-- queue after them, so it has two parts, each of them one step, between which the handlers of other
-- connections may run. The clock and the liveness of a node are read at most once in a call, since the
-- loop ends there. Sending and receiving are in Node.
pub mod Valid
pub mod Heads
pub mod Deliver
pub mod Keys
pub mod Order
pub mod Agreement
pub mod Faithful
mod Tests
use cs425_mps.Base.{
  ℕ, zero, suc, ◌+◌, ◌-◌, ◌*◌, Bool, true, false, not, Option, none, some, List, [], ◌∷◌, ◌++◌, ltb,
  leb, ◌==◌, if◌then◌else◌, length, get_elem?, or_else,
}
use cs425_mps.Base.Int.{pos, suc_uint64}
use cs425_mps.Base.Text.{Str}
use cs425_mps.Base.Dict.{Dict, lookup, insert, delete}
use cs425_mps.Base.Run.{Run, ok, panic, out_of_fuel, ◌>>=◌, or_panic}
use cs425_mps.Base.Result.{Error, Result, unknown_msg}
use cs425_mps.Codec.{Bytes}
use cs425_mps.Heap.{heap_push, heap_pop, init}
use cs425_mps.HoldQueue.{ToHoldQueueItem, ToHoldPriorityQueue, hold_queue, len, peek, update}
use cs425_mps.Message.{
  ToAskProposalSeqMsg, ToReplyProposalSeqMsg, ToAnnounceAgreementSeqMsg, ToMsg,
  new_to_reply_proposal_seq_msg,
}
use cs425_mps.Util.{max_uint64}

-- A message that was handed to the application: what the log line `TO deliver` records.
pub record Delivery : Type 0 where
  pub seq_num : ℕ
  pub process_id : Str
  pub msg_id : Str

-- The fields of `TotalOrding` that its deliver handlers use. `delivered` is the log.
pub record TotalOrding : Type 0 where
  pub hold_queue_map : Dict ℕ
  pub hold_queue : ToHoldPriorityQueue
  pub max_agreement_seq_num_of_group : ℕ
  pub max_proposal_seq_num_of_self : ℕ
  pub crash_node_timeout : Dict ℕ
  pub delivered : List Delivery

-- Nanoseconds.
abbrev pub node_crash_timeout : ℕ
node_crash_timeout = 6 * 1000000000

unfoldable pub new_total_order : Run TotalOrding
new_total_order = do
  q ← init hold_queue (record { memory = []; queue = [] })
  ok (record {
    hold_queue_map = [];
    hold_queue = q;
    max_agreement_seq_num_of_group = 0;
    max_proposal_seq_num_of_self = 0;
    crash_node_timeout = [];
    delivered = [];
  })

-- The first part of the handler of a request for a proposal: the next number.
abbrev pub next_proposal_seq : TotalOrding → TotalOrding × ℕ
next_proposal_seq t =
    let proposal_seq_num =
      suc_uint64 (max_uint64 t.max_agreement_seq_num_of_group t.max_proposal_seq_num_of_self) in
    (record t { max_proposal_seq_num_of_self = proposal_seq_num }, proposal_seq_num)

-- The second part, up to the reply that it sends: the new item is allocated at the end of the memory.
abbrev pub hold_request :
    TotalOrding → Str → ToAskProposalSeqMsg → ℕ → Run (TotalOrding × ToReplyProposalSeqMsg)
hold_request t self_node_id ask proposal_seq_num = do
  let p = length t.hold_queue.memory
  let item : ToHoldQueueItem = record {
    body = ask.body;
    proposal_seq_num = proposal_seq_num;
    process_id = ask.src_id;
    agreed = false;
    msg_id = ask.msg_id;
    index = pos 0;
  }
  q ← heap_push hold_queue (record t.hold_queue { memory = t.hold_queue.memory ++ item ∷ [] }) p
  ok (
    record t { hold_queue_map = insert ask.msg_id p t.hold_queue_map; hold_queue = q },
    new_to_reply_proposal_seq_msg self_node_id ask.msg_id proposal_seq_num,
  )

-- The handler, where nothing runs between its two parts.
unfoldable pub ask_proposal_seq :
    TotalOrding → Str → ToAskProposalSeqMsg → Run (TotalOrding × ToReplyProposalSeqMsg)
ask_proposal_seq t self_node_id ask =
    let (numbered, proposal_seq_num) = next_proposal_seq t in
    hold_request numbered self_node_id ask proposal_seq_num

-- The head of the queue is not agreed: if its process has left the group for long enough, the item is
-- dropped. In each case the loop of the handler ends.
unfoldable pub skip_crashed : (Str → Bool) → ℕ → TotalOrding → ToHoldQueueItem → Run TotalOrding
skip_crashed is_node_alived now t item =
    if is_node_alived item.process_id
    then ok t
    else elim (lookup item.process_id t.crash_node_timeout) [
      | none ↦
          ok (record t { crash_node_timeout = insert item.process_id now t.crash_node_timeout })
      | some crash_time ↦
          let drop : Run TotalOrding = do
            (_, q) ← heap_pop hold_queue t.hold_queue
            ok (record t { hold_queue_map = delete item.msg_id t.hold_queue_map; hold_queue = q })
          in if ltb node_crash_timeout (now - crash_time) then drop else ok t
    ]

-- The head of the queue is agreed: it leaves the queue and the map.
unfoldable pub take_head : TotalOrding → ToHoldQueueItem → Run TotalOrding
take_head t item = do
  (_, q) ← heap_pop hold_queue t.hold_queue
  ok (record t {
    hold_queue_map = delete item.msg_id t.hold_queue_map;
    hold_queue = q;
    delivered =
        t.delivered
        ++ record {
          seq_num = item.proposal_seq_num;
          process_id = item.process_id;
          msg_id = item.msg_id;
        }
          ∷ [];
  })

-- The first part of the handler of an announcement: the greatest agreement.
abbrev pub see_agreement : TotalOrding → ToAnnounceAgreementSeqMsg → TotalOrding
see_agreement t msg = record t {
  max_agreement_seq_num_of_group = max_uint64 t.max_agreement_seq_num_of_group msg.agreement_seq;
}

-- The item that `Peek` returns.
unfoldable pub head_item : TotalOrding → Run ToHoldQueueItem
head_item t = do p ← peek t.hold_queue; or_panic (get_elem? t.hold_queue.memory p)

module _ {A : Type 0} (decode : Bytes → ToMsg × Option Error)
    (run : Str → ToMsg → A → Run (A × Option Error)) (is_node_alived : Str → Bool) (now : ℕ) where
  -- The loop at the end of the handler of an announcement. `a` is the state of the application, which
  -- `run` hands a message to; an error of the application is only logged.
  unfoldable pub deliver_loop : ℕ → TotalOrding → A → Run (TotalOrding × A × Option Error)
  deliver_loop zero t a = out_of_fuel
  deliver_loop (suc fuel) t a =
      let step : Run (TotalOrding × A × Option Error) = do
        item ← head_item t
        let skip : Run (TotalOrding × A × Option Error) = do
          t' ← skip_crashed is_node_alived now t item
          ok (t', a, none)
        let deliver : Run (TotalOrding × A × Option Error) = do
          t' ← take_head t item
          let (tomsg, failed) = decode item.body
          let go_on : Run (TotalOrding × A × Option Error) = do
            (a', _) ← run tomsg.path tomsg a
            deliver_loop fuel t' a'
          elim failed [ none ↦ go_on | some e ↦ ok (t', a, some e) ]
        if item.agreed then deliver else skip
      in if len t.hold_queue == 0 then ok (t, a, none) else step

  -- The second part of the handler of an announcement.
  abbrev pub agree_and_deliver :
      TotalOrding → A → ToAnnounceAgreementSeqMsg → Run (TotalOrding × A × Option Error)
  agree_and_deliver t a msg = elim (lookup msg.msg_id t.hold_queue_map) [
    | none ↦ ok (t, a, some unknown_msg)
    | some p ↦ do
      q ← update t.hold_queue p msg.process_id msg.agreement_seq
      deliver_loop (len q + 1) (record t { hold_queue = q }) a
  ]

  -- The handler, where nothing runs between its two parts.
  unfoldable pub announce_agreement_seq :
      TotalOrding → A → ToAnnounceAgreementSeqMsg → Run (TotalOrding × A × Option Error)
  announce_agreement_seq t a msg = agree_and_deliver (see_agreement t msg) a msg
