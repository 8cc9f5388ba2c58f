-- ===== src/Util/Tests.antt =====
-- Three votes for one message, two of them with the same number.
use cs425_mps.Base.{ℕ, ◌≤◌, ◌≡◌, List, [], ◌∷◌, All, In, arith}
use cs425_mps.Base.Text.{codes}
use cs425_mps.Base.Result.{ok}
use cs425_mps.Util.{ProposalItem, max_of_array_uint64, max_of_array_proposal_item}
use cs425_mps.Util.Max.{IsMaximum, max_of_array_proposal_item-IsMaximum, max_of_array_uint64_lem}

abbrev vote : ℕ → List ℕ → ProposalItem
vote n id = record { proposal_seq_num = n; process_id = id; msg_id = codes "m"; body = [] }

abbrev votes : List ProposalItem
votes = vote 2 (codes "n1") ∷ vote 5 (codes "n2") ∷ vote 5 (codes "n3") ∷ []

max_of_array_proposal_item-IsMaximum_example :
    (m : ProposalItem) × (max_of_array_proposal_item votes ≡ ok m) × IsMaximum votes m
max_of_array_proposal_item-IsMaximum_example =
    max_of_array_proposal_item-IsMaximum votes λ e. ground (arith, e)

max_of_array_uint64_lem_example :
    (m : ℕ) × (max_of_array_uint64 (3 ∷ 8 ∷ 5 ∷ []) ≡ ok m)
    × In m (3 ∷ 8 ∷ 5 ∷ [])
    × All (λ v. v ≤ m) (3 ∷ 8 ∷ 5 ∷ [])
max_of_array_uint64_lem_example = max_of_array_uint64_lem (3 ∷ 8 ∷ 5 ∷ []) λ e. ground (arith, e)
