-- ===== src/TotalOrder/Faithful.antt =====
-- Why an announcement that was made of the votes does not lower the key of a held item.
use cs425_mps.Base.{
  ℕ, ◌≤◌, ◌≡◌, sym, ◌≢◌, inl, inr, false, some, List, [], here, there, arith, All-In, In,
}
use cs425_mps.Base.Text.{Str}
use cs425_mps.Base.Dict.{lookup}
use cs425_mps.Base.Result.{ok}
use cs425_mps.HoldQueue.{ToHoldQueueItem, less_item, agree}
use cs425_mps.HoldQueue.Slots.{item_at}
use cs425_mps.TotalOrder.{TotalOrding}
use cs425_mps.TotalOrder.Order.{IsFaithful}
use cs425_mps.Util.{ProposalItem, max_of_array_proposal_item}
use cs425_mps.Util.Max.{VoteLe, max_of_array_proposal_item-IsMaximum}
use cs425_mps.Votes.Count.{agreement}

agree-le :
    (x : ToHoldQueueItem) (process_id : Str) (seq_num : ℕ)
    → x.agreed ≡ false
    → x.proposal_seq_num ≤ seq_num
    → less_item (agree x process_id seq_num) x ≡ false
unfolding less_item
agree-le x process_id seq_num e le = ground (arith, e, le)

maximum-known :
    (votes : List ProposalItem) (own top : ProposalItem)
    → In own votes
    → max_of_array_proposal_item votes ≡ ok top
    → VoteLe own top
maximum-known votes own top voted e =
    let (m, f, maximum) = max_of_array_proposal_item-IsMaximum votes (not_empty voted) in
    let same : m ≡ top = cc in rw (sym same) (All-In (λ v. VoteLe v m) maximum.top voted)
  where
    not_empty : {xs : List ProposalItem} → In own xs → xs ≢ []
    not_empty here h = ground (arith, h)
    not_empty (there i) h = ground (arith, h)

-- If the greatest of the votes for a message is announced, and the proposal that this node made
-- for it is among the votes, then the announcement does not lower the key of the item that this
-- node holds for the message, as long as that item is not agreed.
pub agreement-IsFaithful :
    (t : TotalOrding) (p : ℕ) (votes : List ProposalItem) (own top : ProposalItem)
    → lookup top.msg_id t.hold_queue_map ≡ some p
    → (item_at t.hold_queue p).agreed ≡ false
    → In own votes
    → own.proposal_seq_num ≡ (item_at t.hold_queue p).proposal_seq_num
    → max_of_array_proposal_item votes ≡ ok top
    → IsFaithful t (agreement top)
agreement-IsFaithful t p votes own top at open_yet voted same e s found =
    let bound : own.proposal_seq_num ≤ top.proposal_seq_num =
      elim (maximum-known votes own top voted e) [
        | inl less ↦ omega arith
        | inr tie ↦ omega (arith, tie.0)
      ] in
    let same_place : p ≡ s = ground (arith, at, found) in
    rw same_place at (
      agree-le (item_at t.hold_queue p) top.process_id top.proposal_seq_num open_yet
        (omega (arith, same, bound)))
