-- ===== src/Votes/Count.antt =====
-- An agreement is announced when the last vote is in, and it is the greatest of the votes.
use cs425_mps.Base.{
  ℕ, ◌≤◌, ◌<◌, ◌≡◌, refl, ap, ◌≢◌, inl, inr, Option, none, some, List, [], ◌∷◌, ◌++◌, ltb, length,
  or_else, arith, Bool-cases,
}
use cs425_mps.Base.Text.{Str, str_eq_iff, str_eq_refl}
use cs425_mps.Base.Dict.{lookup, insert, lookup-insert, lookup-delete}
use cs425_mps.Base.Result.{Error}
use cs425_mps.Message.{ToAnnounceAgreementSeqMsg}
use cs425_mps.Util.{ProposalItem}
use cs425_mps.Util.Max.{IsMaximum, max_of_array_proposal_item-IsMaximum}
use cs425_mps.Votes.{Ballot, aggregate_votes_and_multicast, collect_vote}

-- The announcement that a vote wins with.
abbrev pub agreement : ProposalItem → ToAnnounceAgreementSeqMsg
agreement top = record {
  process_id = top.process_id;
  agreement_seq = top.proposal_seq_num;
  msg_id = top.msg_id;
}

-- The announcement of the greatest vote was added.
abbrev pub Announced : List ProposalItem → Ballot → Ballot → Type 0
Announced votes b r =
    (top : ProposalItem) × IsMaximum votes top
    × (r.announced ≡ b.announced ++ agreement top ∷ [])
    × (r.wait_proposal_counter ≡ b.wait_proposal_counter)

pub aggregate_announces :
    (fails : ToAnnounceAgreementSeqMsg → Option Error) (b : Ballot) (votes : List ProposalItem)
    → votes ≢ []
    → Announced votes b (aggregate_votes_and_multicast fails b votes).0
unfolding aggregate_votes_and_multicast
aggregate_announces fails b votes ne =
    let (top, e, m) = max_of_array_proposal_item-IsMaximum votes ne in
    (top, m, rw (e, aggregate_votes_and_multicast), rw (e, aggregate_votes_and_multicast))

-- The votes for a message that wait, none if the message is not known.
abbrev pub waiting : Ballot → Str → List ProposalItem
waiting b id = or_else (lookup id b.wait_proposal_counter) []

append-ne_nil : (xs : List ProposalItem) (x : ProposalItem) → xs ++ x ∷ [] ≢ []
append-ne_nil [] x e = ground (arith, e)
append-ne_nil (y ∷ xs) x e = ground (arith, e)

-- A vote: with fewer votes than members it waits; with enough, the greatest of all votes for the
-- message is announced and the message is forgotten. The votes for other messages stay.
pub record Counts (members_count : ℕ) (b : Ballot) (vote : ProposalItem) (r : Ballot) : Type 0 where
  pub waits :
      length (waiting b vote.msg_id ++ vote ∷ []) < members_count
      → (r.announced ≡ b.announced)
        × (lookup vote.msg_id r.wait_proposal_counter ≡ some (waiting b vote.msg_id ++ vote ∷ []))
  pub decides :
      members_count ≤ length (waiting b vote.msg_id ++ vote ∷ [])
      → (top : ProposalItem) × IsMaximum (waiting b vote.msg_id ++ vote ∷ []) top
        × (r.announced ≡ b.announced ++ agreement top ∷ [])
        × (lookup vote.msg_id r.wait_proposal_counter ≡ none)
  pub others :
      (id : Str)
      → vote.msg_id ≢ id
      → lookup id r.wait_proposal_counter ≡ lookup id b.wait_proposal_counter

-- A vote waits while its message has fewer votes than members; with enough votes, the greatest of
-- all votes for the message is announced once and the message forgotten; the votes for other
-- messages stay as they are. This holds whether or not the multicast fails.
pub collect_vote_correct :
    (fails : ToAnnounceAgreementSeqMsg → Option Error) (members_count : ℕ) (b : Ballot)
    (vote : ProposalItem)
    → Counts members_count b vote (collect_vote fails members_count b vote)
unfolding collect_vote
collect_vote_correct fails n b vote =
    let id = vote.msg_id in
    let votes = waiting b id ++ vote ∷ [] in
    let counted = record b { wait_proposal_counter = insert id votes b.wait_proposal_counter } in
    let (top, m, announced, same) =
      aggregate_announces fails counted votes (append-ne_nil (waiting b id) vote) in
    let self = str_eq_refl id in
    let inserted = lookup-insert id id votes b.wait_proposal_counter in
    elim (Bool-cases (ltb (length votes) n)) [
      | inl few ↦ rw (few) (record {
        waits = λ h. (refl, ground (arith, self, inserted));
        decides = λ h. absurd (ground (arith, few));
        others = λ j ne.
            ground (arith, lookup-insert id j votes b.wait_proposal_counter, str_eq_iff id j);
      })
      | inr enough ↦ rw (enough) (record {
        waits = λ h. absurd (ground (arith, enough));
        decides = λ h. (
          top,
          m,
          announced,
          ground (
            arith,
            self,
            lookup-delete id id
                (aggregate_votes_and_multicast fails counted votes).0.wait_proposal_counter,
          ),
        );
        others = λ j ne. ground (
          arith,
          ap (lookup j) same,
          lookup-insert id j votes b.wait_proposal_counter,
          lookup-delete id j
              (aggregate_votes_and_multicast fails counted votes).0.wait_proposal_counter,
          str_eq_iff id j,
        );
      })
    ]
