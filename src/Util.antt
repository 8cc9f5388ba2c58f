-- ===== src/Util.antt =====
-- lib/mp1/multicast/util.go, and the votes of total_ording.go that it compares.
pub mod Max
mod Tests
use cs425_mps.Base.{ℕ, List, [], ◌∷◌, ltb, ◌==◌, if◌then◌else◌}
use cs425_mps.Base.Text.{Str, str_lt}
use cs425_mps.Base.Result.{Result, ok, err, empty_sequence}

pub record ProposalItem : Type 0 where
  pub proposal_seq_num : ℕ
  pub process_id : Str
  pub msg_id : Str
  pub body : List ℕ

unfoldable pub max_uint64 : ℕ → ℕ → ℕ
max_uint64 x y = if ltb y x then x else y

unfoldable pub max_loop : ℕ → List ℕ → ℕ
max_loop max [] = max
max_loop max (value ∷ arr) = max_loop (if ltb max value then value else max) arr

-- The loop also visits the first entry, which starts as the maximum.
unfoldable pub max_of_array_uint64 : List ℕ → Result ℕ
max_of_array_uint64 [] = err empty_sequence
max_of_array_uint64 (x ∷ arr) = ok (max_loop x (x ∷ arr))

-- The body of the loop.
unfoldable pub max_vote : ProposalItem → ProposalItem → ProposalItem
max_vote max value =
    if ltb max.proposal_seq_num value.proposal_seq_num
    then value
    else if ltb value.proposal_seq_num max.proposal_seq_num
    then max
    else if max.proposal_seq_num == value.proposal_seq_num
    then (if str_lt max.process_id value.process_id then value else max)
    else max

unfoldable pub max_vote_loop : ProposalItem → List ProposalItem → ProposalItem
max_vote_loop max [] = max
max_vote_loop max (value ∷ arr) = max_vote_loop (max_vote max value) arr

unfoldable pub max_of_array_proposal_item : List ProposalItem → Result ProposalItem
max_of_array_proposal_item [] = err empty_sequence
max_of_array_proposal_item (x ∷ arr) = ok (max_vote_loop x (x ∷ arr))
