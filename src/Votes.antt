-- ===== src/Votes.antt =====
-- lib/mp1/multicast/total_ording.go: the goroutine that collects the proposals for a message and
-- announces the agreement. Each round takes a vote or a new count of the members; an announcement is
-- handed to `multicast`, which may fail, and the round goes on all the same.
pub mod Count
pub mod Recheck
pub mod Batches
pub mod Steps
pub mod History
mod Tests
use cs425_mps.Base.{
  ℕ, zero, suc, Bool, true, false, Option, none, some, List, [], ◌∷◌, ◌++◌, ltb, if◌then◌else◌,
  length, or_else,
}
use cs425_mps.Base.Int.{ℤ, pos, negsuc}
use cs425_mps.Base.Text.{Str}
use cs425_mps.Base.Dict.{Dict, lookup, insert, delete}
use cs425_mps.Base.Result.{Error, Result, ok, err}
use cs425_mps.Message.{ToAnnounceAgreementSeqMsg, new_to_announce_agreement_seq_msg}
use cs425_mps.Util.{ProposalItem, max_of_array_proposal_item}

-- The votes for each message, and the messages that were handed to the reliable multicast.
pub record Ballot : Type 0 where
  pub wait_proposal_counter : Dict (List ProposalItem)
  pub announced : List ToAnnounceAgreementSeqMsg

-- The announcement of the greatest vote. `fails` is the result of the multicast.
unfoldable pub aggregate_votes_and_multicast :
    (ToAnnounceAgreementSeqMsg → Option Error) → Ballot → List ProposalItem → Ballot × Option Error
unfolding new_to_announce_agreement_seq_msg
aggregate_votes_and_multicast fails b votes = elim (max_of_array_proposal_item votes) [
  | err e ↦ (b, some e)
  | ok top ↦
      let msg = new_to_announce_agreement_seq_msg top.process_id top.proposal_seq_num top.msg_id in
      (record b { announced = b.announced ++ msg ∷ [] }, fails msg)
]

-- A vote arrives. `members_count` is what `MemberCount` returns.
unfoldable pub collect_vote :
    (ToAnnounceAgreementSeqMsg → Option Error) → ℕ → Ballot → ProposalItem → Ballot
collect_vote fails members_count b vote =
    let votes = or_else (lookup vote.msg_id b.wait_proposal_counter) [] ++ vote ∷ [] in
    let counted = record b {
      wait_proposal_counter = insert vote.msg_id votes b.wait_proposal_counter;
    } in
    let (b', _) = aggregate_votes_and_multicast fails counted votes in
    if ltb (length votes) members_count
    then counted
    else record b' { wait_proposal_counter = delete vote.msg_id b'.wait_proposal_counter }

-- `votes < membersCount`, on an `int`.
abbrev pub is_below : ℕ → ℤ → Bool
is_below votes (pos n) = ltb votes n
is_below votes (negsuc n) = false

-- The loop over the waiting messages, after a new count of the members.
unfoldable pub recheck_loop :
    (ToAnnounceAgreementSeqMsg → Option Error) → ℤ → Dict (List ProposalItem) → Ballot → Ballot
recheck_loop fails members_count [] b = b
recheck_loop fails members_count ((msg_id, votes) ∷ rest) b =
    let (b', _) = aggregate_votes_and_multicast fails b votes in
    let done = record b' { wait_proposal_counter = delete msg_id b'.wait_proposal_counter } in
    recheck_loop fails members_count rest
      (if is_below (length votes) members_count then b else done)

-- The count that a value of the broker is: the value, if that is an `int`, and else -1. The counts that
-- are published are numbers of members; the nil of a closed channel is none.
abbrev pub count_of : Option ℕ → ℤ
count_of (some members_count) = pos members_count
count_of none = negsuc 0

unfoldable pub members_update :
    (ToAnnounceAgreementSeqMsg → Option Error) → Option ℕ → Ballot → Ballot
members_update fails value b = recheck_loop fails (count_of value) b.wait_proposal_counter b

-- What the goroutine takes from one of its two channels, with how the multicasts end that follow: a
-- vote with what `MemberCount` returns then, or a value of the broker.
pub data Input : Type 0 where
  voted : (ToAnnounceAgreementSeqMsg → Option Error) → ℕ → ProposalItem → Input
  updated : (ToAnnounceAgreementSeqMsg → Option Error) → Option ℕ → Input

unfoldable pub collect_round : Input → Ballot → Ballot
collect_round (voted fails members_count vote) b = collect_vote fails members_count b vote
collect_round (updated fails value) b = members_update fails value b

-- The loop, over what it takes.
unfoldable pub collect_votes : List Input → Ballot → Ballot
collect_votes [] b = b
collect_votes (i ∷ is) b = collect_votes is (collect_round i b)
