-- ===== src/Votes/Tests.antt =====
-- The second of two votes, and votes before and after a new count.
use cs425_mps.Base.{ℕ, refl, none, some, List, [], ◌∷◌, arith}
use cs425_mps.Base.Text.{codes, str_eq}
use cs425_mps.Util.{ProposalItem}
use cs425_mps.Base.Result.{marshal_failed}
use cs425_mps.Votes.{Ballot, Input, voted, updated, collect_vote, members_update, collect_votes}
use cs425_mps.Votes.Batches.{IsAccounted}
use cs425_mps.Votes.History.{no_votes, collect_votes_correct}
use cs425_mps.Votes.Recheck.{Rechecked, HasVotes, members_update_correct}
use cs425_mps.Base.Dict.{lookup, IsMap}
use cs425_mps.Votes.Count.{Counts, collect_vote_correct}

abbrev vote : ℕ → List ℕ → ProposalItem
vote n id = record { proposal_seq_num = n; process_id = id; msg_id = codes "m"; body = [] }

abbrev ballot : Ballot
ballot = record {
  wait_proposal_counter = (codes "m", vote 4 (codes "n1") ∷ []) ∷ [];
  announced = [];
}

collect_vote_correct_example :
    Counts 2 ballot (vote 3 (codes "n2")) (collect_vote (λ m. none) 2 ballot (vote 3 (codes "n2")))
collect_vote_correct_example = collect_vote_correct (λ m. none) 2 ballot (vote 3 (codes "n2"))

abbrev waiting_two : Ballot
waiting_two = record {
  wait_proposal_counter =
      (codes "m", vote 4 (codes "n1") ∷ vote 6 (codes "n2") ∷ [])
      ∷ (codes "k", vote 1 (codes "n2") ∷ [])
      ∷ [];
  announced = [];
}

waiting_two-IsMap : IsMap waiting_two.wait_proposal_counter
unfolding lookup str_eq
waiting_two-IsMap = (refl, (refl, tt))

waiting_two-HasVotes : HasVotes waiting_two.wait_proposal_counter
waiting_two-HasVotes = (λ e. ground (arith, e), (λ e. ground (arith, e), tt))

members_update_correct_example :
    Rechecked 2 [] waiting_two.wait_proposal_counter waiting_two
      (members_update (λ m. none) (some 2) waiting_two)
members_update_correct_example =
    members_update_correct (λ m. none) 2 waiting_two waiting_two-IsMap waiting_two-HasVotes

-- The second multicast fails, and a vote comes late.
abbrev inputs : List Input
inputs =
    voted (λ m. none) 3 (vote 4 (codes "n1"))
    ∷ voted (λ m. none) 3 (vote 6 (codes "n2"))
    ∷ updated (λ m. some marshal_failed) (some 2)
    ∷ voted (λ m. none) 2 (vote 5 (codes "n3"))
    ∷ []

collect_votes_correct_example :
    IsAccounted
      (3 ∷ 3 ∷ 2 ∷ 2 ∷ [])
      (vote 4 (codes "n1") ∷ vote 6 (codes "n2") ∷ vote 5 (codes "n3") ∷ [])
      (collect_votes inputs no_votes)
collect_votes_correct_example = collect_votes_correct inputs
