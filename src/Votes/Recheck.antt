-- ===== src/Votes/Recheck.antt =====
-- The check of all waiting messages after a new count of the members.
use mathlib.Core.List.{append_assoc, append-nil}
use cs425_mps.Base.{
  ℕ, ◌≤◌, ◌<◌, ◌≡◌, refl, sym, ap, ◌∙◌, ◌≢◌, inl, inr, Option, some, List, [], ◌∷◌, ◌++◌, map, ltb,
  if◌then◌else◌, length, All, Bool-cases, ltb→lt, ltb→ge,
}
use cs425_mps.Base.Int.{pos}
use cs425_mps.Base.Text.{Str}
use cs425_mps.Base.Dict.{Dict, delete, IsMap, delete-middle, Apart, Apart-snoc, none-Apart}
use cs425_mps.Base.Result.{Error}
use cs425_mps.Message.{ToAnnounceAgreementSeqMsg}
use cs425_mps.Util.{ProposalItem}
use cs425_mps.Util.Max.{IsMaximum}
use cs425_mps.Votes.{Ballot, aggregate_votes_and_multicast, recheck_loop, members_update}
use cs425_mps.Votes.Count.{agreement, aggregate_announces}

-- The messages that go on waiting.
abbrev pub undecided : ℕ → Dict (List ProposalItem) → Dict (List ProposalItem)
undecided n [] = []
undecided n ((id, votes) ∷ m) =
    let rest = undecided n m in if ltb (length votes) n then (id, votes) ∷ rest else rest

-- `tops` are the greatest votes of the messages with enough votes, in the order of the map.
pub data Decides (n : ℕ) : Dict (List ProposalItem) → List ProposalItem → Type 0 where
  no_more : Decides n [] []
  waits :
      {id : Str} {votes : List ProposalItem} {m : Dict (List ProposalItem)}
      {tops : List ProposalItem}
      → length votes < n
      → Decides n m tops
      → Decides n ((id, votes) ∷ m) tops
  decides :
      {id : Str} {votes : List ProposalItem} {m : Dict (List ProposalItem)} {top : ProposalItem}
      {tops : List ProposalItem}
      → n ≤ length votes
      → IsMaximum votes top
      → Decides n m tops
      → Decides n ((id, votes) ∷ m) (top ∷ tops)

-- The outcome of the loop over `todo`, after the messages in `front`.
abbrev pub Rechecked :
    ℕ → Dict (List ProposalItem) → Dict (List ProposalItem) → Ballot → Ballot → Type 0
Rechecked n front todo b r =
    (r.wait_proposal_counter ≡ front ++ undecided n todo)
    × ((tops : List ProposalItem) × Decides n todo tops
        × (r.announced ≡ b.announced ++ map agreement tops))

-- In Go a message waits with at least one vote.
abbrev pub HasVotes : Dict (List ProposalItem) → Type 0
HasVotes = All (λ e. e.1 ≢ [])

recheck_loop_correct :
    (fails : ToAnnounceAgreementSeqMsg → Option Error) (n : ℕ)
    (front todo : Dict (List ProposalItem)) (b : Ballot)
    → b.wait_proposal_counter ≡ front ++ todo
    → IsMap todo
    → Apart front todo
    → HasVotes todo
    → Rechecked n front todo b (recheck_loop fails (pos n) todo b)
unfolding recheck_loop
recheck_loop_correct fails n front [] b e m a h = (e, ([], no_more, sym (append-nil b.announced)))
recheck_loop_correct fails n front ((id, votes) ∷ todo) b e (absent, m) (new, a) (ne, h) =
    elim (Bool-cases (ltb (length votes) n)) [
      | inl few ↦
          let moved = e ∙ sym (append_assoc front ((id, votes) ∷ []) todo) in
          let (left, (tops, d, said)) =
            recheck_loop_correct fails n (front ++ (id, votes) ∷ []) todo b moved m
              (Apart-snoc front todo id votes absent a) h in
          rw (few, recheck_loop)
            (
              left ∙ append_assoc front ((id, votes) ∷ []) (undecided n todo),
              (tops, waits (ltb→lt (length votes) n few) d, said),
            )
      | inr enough ↦
          let (top, top_max, announced, same) = aggregate_announces fails b votes ne in
          let b' = (aggregate_votes_and_multicast fails b votes).0 in
          let gone : delete id b'.wait_proposal_counter ≡ front ++ todo =
            ap (delete id) (same ∙ e) ∙ delete-middle id votes front todo new absent in
          let done = record b' { wait_proposal_counter = delete id b'.wait_proposal_counter } in
          let (left, (tops, d, said)) = recheck_loop_correct fails n front todo done gone m a h in
          rw (enough, recheck_loop)
            (
              left,
              (
                top ∷ tops,
                decides (ltb→ge (length votes) n enough) top_max d,
                said
                    ∙ ap (λ l. l ++ map agreement tops) announced
                    ∙ append_assoc b.announced (agreement top ∷ []) (map agreement tops),
              ),
            )
    ]

-- After a count of the members from the broker, exactly the waiting messages with at least that
-- many votes are announced, in the order of the map, each with its greatest vote, and exactly
-- those are forgotten. The map has each key once, and no message without a vote.
pub members_update_correct :
    (fails : ToAnnounceAgreementSeqMsg → Option Error) (members_count : ℕ) (b : Ballot)
    → IsMap b.wait_proposal_counter
    → HasVotes b.wait_proposal_counter
    → Rechecked members_count [] b.wait_proposal_counter b
        (members_update fails (some members_count) b)
unfolding members_update
members_update_correct fails n b m h =
    recheck_loop_correct fails n [] b.wait_proposal_counter b refl m
      (none-Apart b.wait_proposal_counter) h
