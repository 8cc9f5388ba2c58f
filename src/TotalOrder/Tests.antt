-- ===== src/TotalOrder/Tests.antt =====
-- Two nodes that hold the same two messages and get the two announcements in different orders.
use cs425_mps.Base.{
  ℕ, ◌+◌, ◌<◌, ◌≡◌, refl, Bool, true, false, Option, none, some, List, [], ◌∷◌, arith, here,
}
use cs425_mps.Base.Text.{Str, codes, str_eq, str_lt}
use cs425_mps.Base.Dict.{lookup, insert, delete}
use cs425_mps.Base.Int.{suc_uint64}
use cs425_mps.Heap.{init, init_loop, up, down, down_loop, heap_push, heap_pop, fix}
use cs425_mps.HoldQueue.{less, less_item, load, store_index, swap, push, pop, peek, update, agree}
use cs425_mps.HoldQueue.Slots.{item_at}
use cs425_mps.Util.{ProposalItem, max_uint64, max_of_array_proposal_item, max_vote, max_vote_loop}
use cs425_mps.Votes.Count.{agreement}
use cs425_mps.TotalOrder.Faithful.{agreement-IsFaithful}
use cs425_mps.Base.Run.{Run, ok, Returns, returns}
use cs425_mps.Base.Result.{Error}
use cs425_mps.Codec.{Bytes}
use cs425_mps.Message.{
  ToAskProposalSeqMsg, ToReplyProposalSeqMsg, ToAnnounceAgreementSeqMsg, ToMsg,
  new_to_reply_proposal_seq_msg,
}
use cs425_mps.TotalOrder.{
  TotalOrding, Delivery, new_total_order, ask_proposal_seq, announce_agreement_seq, deliver_loop,
  head_item, skip_crashed, take_head, next_proposal_seq, hold_request, see_agreement,
}
use cs425_mps.TotalOrder.Valid.{IsValid, AskStep, ask_proposal_seq_correct}
use cs425_mps.TotalOrder.Deliver.{Announces, announce_agreement_seq_correct}
use cs425_mps.TotalOrder.Order.{IsOrdered, IsFaithful}
use cs425_mps.TotalOrder.Agreement.{
  Running, Reach, asks, holds, sees, agrees, start, next, Reach-IsOrdered,
}

abbrev value {ℓ} : {A : Type ℓ} → A → Run A → A
value a (ok b) = b
value a _ = a

abbrev start_state : TotalOrding
start_state =
    value
      (record {
        hold_queue_map = [];
        hold_queue = record { memory = []; queue = [] };
        max_agreement_seq_num_of_group = 0;
        max_proposal_seq_num_of_self = 0;
        crash_node_timeout = [];
        delivered = [];
      })
      new_total_order

t0 : new_total_order ≡ ok start_state
unfolding new_total_order init init_loop
t0 = refl

abbrev ask_one : ToAskProposalSeqMsg
ask_one = record { src_id = codes "n1"; msg_id = codes "m1"; body = 1 ∷ [] }

abbrev ask_two : ToAskProposalSeqMsg
ask_two = record { src_id = codes "n2"; msg_id = codes "m2"; body = 2 ∷ [] }

abbrev agree_one : ToAnnounceAgreementSeqMsg
agree_one = record { process_id = codes "n3"; agreement_seq = 5; msg_id = codes "m1" }

abbrev agree_two : ToAnnounceAgreementSeqMsg
agree_two = record { process_id = codes "n3"; agreement_seq = 5; msg_id = codes "m2" }

-- The application counts the messages that it is handed.
abbrev count_one : Str → ToMsg → ℕ → Run (ℕ × Option Error)
count_one path m a = ok (a + 1, none)

abbrev plain : Bytes → ToMsg × Option Error
plain bytes = (record { path = []; body = bytes }, none)

abbrev all_alive : Str → Bool
all_alive id = true

count_one-Returns : (path : Str) (m : ToMsg) (a : ℕ) → Returns (λ r. Unit {0}) (count_one path m a)
count_one-Returns path m a = returns tt

abbrev asked : TotalOrding → ToAskProposalSeqMsg → TotalOrding × ToReplyProposalSeqMsg
asked t ask =
    value (t, record { process_id = []; msg_id = []; proposal_seq = 0 })
      (ask_proposal_seq t (codes "n1") ask)

abbrev announce : TotalOrding → ℕ → ToAnnounceAgreementSeqMsg → TotalOrding × ℕ × Option Error
announce t a msg = value (t, a, none) (announce_agreement_seq plain count_one all_alive 7 t a msg)

abbrev one_held : TotalOrding × ToReplyProposalSeqMsg
one_held = asked start_state ask_one

abbrev two_held : TotalOrding × ToReplyProposalSeqMsg
two_held = asked one_held.0 ask_two

abbrev one_agreed : TotalOrding × ℕ × Option Error
one_agreed = announce two_held.0 0 agree_one

abbrev two_agreed : TotalOrding × ℕ × Option Error
two_agreed = announce two_held.0 0 agree_two

abbrev two_last : TotalOrding × ℕ × Option Error
two_last = announce one_agreed.0 one_agreed.1 agree_two

abbrev one_last : TotalOrding × ℕ × Option Error
one_last = announce two_agreed.0 two_agreed.1 agree_one

t1 : ask_proposal_seq start_state (codes "n1") ask_one ≡ ok one_held
unfolding new_total_order init init_loop ask_proposal_seq suc_uint64 max_uint64 heap_push push up
    less less_item load str_lt
t1 = refl

t2 : ask_proposal_seq one_held.0 (codes "n1") ask_two ≡ ok two_held
unfolding new_total_order init init_loop ask_proposal_seq suc_uint64 max_uint64 heap_push push up
    less less_item load str_lt
t2 = refl

t3 : announce_agreement_seq plain count_one all_alive 7 two_held.0 0 agree_one ≡ ok one_agreed
unfolding new_total_order init init_loop ask_proposal_seq suc_uint64 max_uint64 heap_push push up
    less less_item load str_lt insert lookup str_eq announce_agreement_seq update fix down down_loop
    delete heap_pop peek pop store_index swap deliver_loop head_item skip_crashed take_head
    new_to_reply_proposal_seq_msg
t3 = refl

t5 :
    announce_agreement_seq plain count_one all_alive 7 one_agreed.0 one_agreed.1 agree_two
    ≡ ok two_last
unfolding new_total_order init init_loop ask_proposal_seq suc_uint64 max_uint64 heap_push push up
    less less_item load str_lt insert lookup str_eq announce_agreement_seq update fix down down_loop
    delete heap_pop peek pop store_index swap deliver_loop head_item skip_crashed take_head
    new_to_reply_proposal_seq_msg
t5 = refl

-- `IsFaithful`, where the message is known to be at `p`.
IsFaithful-at :
    (t : TotalOrding) (msg : ToAnnounceAgreementSeqMsg) (p : ℕ)
    → lookup msg.msg_id t.hold_queue_map ≡ some p
    → less_item
        (agree (item_at t.hold_queue p) msg.process_id msg.agreement_seq)
        (item_at t.hold_queue p)
      ≡ false
    → IsFaithful t msg
IsFaithful-at t msg p e h s f = let same : p ≡ s = ground (arith, e, f) in rw same at h

faithful3 : IsFaithful two_held.0 agree_one
unfolding new_total_order init init_loop ask_proposal_seq suc_uint64 max_uint64 heap_push push up
    less less_item load str_lt insert lookup str_eq announce_agreement_seq update fix down down_loop
    delete heap_pop peek pop store_index swap deliver_loop head_item skip_crashed take_head
    new_to_reply_proposal_seq_msg
faithful3 = IsFaithful-at two_held.0 agree_one 0 refl refl

faithful5 : IsFaithful one_agreed.0 agree_two
unfolding new_total_order init init_loop ask_proposal_seq suc_uint64 max_uint64 heap_push push up
    less less_item load str_lt insert lookup str_eq announce_agreement_seq update fix down down_loop
    delete heap_pop peek pop store_index swap deliver_loop head_item skip_crashed take_head
    new_to_reply_proposal_seq_msg
faithful5 = IsFaithful-at one_agreed.0 agree_two 1 refl refl

abbrev Reachable : Running ℕ → Type 0
Reachable = Reach plain count_one count_one-Returns 0

-- The two parts of a handler, one after the other.
abbrev at : TotalOrding → ℕ → Running ℕ
at t a = record { total = t; app = a; numbered = []; seen = [] }

reach_asked :
    (t : TotalOrding) (a : ℕ) (self : Str) (ask : ToAskProposalSeqMsg)
    (r : TotalOrding × ToReplyProposalSeqMsg)
    → t.max_agreement_seq_num_of_group < (next_proposal_seq t).1
    → ask_proposal_seq t self ask ≡ ok r
    → Reachable (at t a)
    → Reachable (at r.0 a)
unfolding ask_proposal_seq
reach_asked t a self ask r above e h =
    next (next h (asks (at t a) ask))
      (holds _ self ask (next_proposal_seq t).1 [] [] r refl above e)

reach_announced :
    (t : TotalOrding) (a : ℕ) (msg : ToAnnounceAgreementSeqMsg) (r : TotalOrding × ℕ × Option Error)
    → IsFaithful t msg
    → announce_agreement_seq plain count_one all_alive 7 t a msg ≡ ok r
    → Reachable (at t a)
    → Reachable (at r.0 r.1)
unfolding announce_agreement_seq
reach_announced t a msg r faithful e h =
    next (next h (sees (at t a) msg)) (agrees _ all_alive 7 msg [] [] r refl faithful e)

fits1 : start_state.max_agreement_seq_num_of_group < (next_proposal_seq start_state).1
unfolding new_total_order init init_loop suc_uint64 max_uint64
fits1 = omega arith

fits2 : one_held.0.max_agreement_seq_num_of_group < (next_proposal_seq one_held.0).1
unfolding new_total_order init init_loop ask_proposal_seq suc_uint64 max_uint64 heap_push push up
    less less_item load str_lt insert lookup str_eq new_to_reply_proposal_seq_msg
fits2 = omega arith

reach_held : Reachable (at two_held.0 0)
reach_held =
    reach_asked one_held.0 0 (codes "n1") ask_two two_held fits2 t2
      (reach_asked start_state 0 (codes "n1") ask_one one_held fits1 t1 (start t0))

reach_two_last : Reachable (at two_last.0 two_last.1)
reach_two_last =
    reach_announced one_agreed.0 one_agreed.1 agree_two two_last faithful5 t5
      (reach_announced two_held.0 0 agree_one one_agreed faithful3 t3 reach_held)

abbrev delivery_one : Delivery
delivery_one = record { seq_num = 5; process_id = codes "n3"; msg_id = codes "m1" }

abbrev delivery_two : Delivery
delivery_two = record { seq_num = 5; process_id = codes "n3"; msg_id = codes "m2" }

Reach-IsOrdered_example : IsValid two_last.0 × IsOrdered two_last.0
Reach-IsOrdered_example = Reach-IsOrdered plain count_one count_one-Returns reach_two_last

held : IsValid two_held.0 × IsOrdered two_held.0
held = Reach-IsOrdered plain count_one count_one-Returns reach_held

announce_agreement_seq_correct_example :
    Returns
      (λ r.
        IsValid r.0
        × Announces plain count_one all_alive 7 (see_agreement two_held.0 agree_one) 0 agree_one r)
      (announce_agreement_seq plain count_one all_alive 7 two_held.0 0 agree_one)
announce_agreement_seq_correct_example =
    announce_agreement_seq_correct plain count_one all_alive 7 count_one-Returns two_held.0 0
      agree_one held.0

ask_proposal_seq_correct_example :
    Returns
      (λ r. IsValid r.0 × AskStep two_held.0 (codes "n1") ask_one r)
      (ask_proposal_seq two_held.0 (codes "n1") ask_one)
ask_proposal_seq_correct_example = ask_proposal_seq_correct two_held.0 (codes "n1") ask_one held.0

abbrev votes : List ProposalItem
votes =
    record { proposal_seq_num = 1; process_id = codes "n1"; msg_id = codes "m1"; body = [] }
    ∷ record { proposal_seq_num = 5; process_id = codes "n3"; msg_id = codes "m1"; body = [] }
    ∷ []

abbrev own_vote : ProposalItem
own_vote = record { proposal_seq_num = 1; process_id = codes "n1"; msg_id = codes "m1"; body = [] }

abbrev top_vote : ProposalItem
top_vote = record { proposal_seq_num = 5; process_id = codes "n3"; msg_id = codes "m1"; body = [] }

agreement-IsFaithful_example : IsFaithful two_held.0 (agreement top_vote)
unfolding new_total_order init init_loop ask_proposal_seq suc_uint64 max_uint64 heap_push push up
    less less_item load str_lt insert lookup str_eq max_of_array_proposal_item max_vote_loop
    max_vote
agreement-IsFaithful_example =
    agreement-IsFaithful two_held.0 0 votes own_vote top_vote refl refl here refl refl

-- A request for m1 is numbered, then m2 with a greater number is held, agreed and delivered, and then m1
-- is held with its number and agreed: the log is not sorted.
abbrev late_one : ToAnnounceAgreementSeqMsg
late_one = record { process_id = codes "n3"; agreement_seq = 3; msg_id = codes "m1" }

abbrev numbered : TotalOrding
numbered = (next_proposal_seq start_state).0

abbrev two_delivered : TotalOrding × ℕ × Option Error
two_delivered = announce (asked numbered ask_two).0 0 agree_two

abbrev held_late : TotalOrding × ToReplyProposalSeqMsg
held_late =
    value (two_delivered.0, record { process_id = []; msg_id = []; proposal_seq = 0 })
      (hold_request two_delivered.0 (codes "n1") ask_one (next_proposal_seq start_state).1)

abbrev late_log : List Delivery
late_log = (announce held_late.0 two_delivered.1 late_one).0.delivered

late_request :
    late_log
    ≡ record { seq_num = 5; process_id = codes "n3"; msg_id = codes "m2" }
      ∷ record { seq_num = 3; process_id = codes "n3"; msg_id = codes "m1" }
      ∷ []
unfolding new_total_order init init_loop ask_proposal_seq suc_uint64 max_uint64 heap_push push up
    less less_item load str_lt insert lookup str_eq announce_agreement_seq update fix down down_loop
    delete heap_pop peek pop store_index swap deliver_loop head_item skip_crashed take_head
    new_to_reply_proposal_seq_msg
late_request = refl
