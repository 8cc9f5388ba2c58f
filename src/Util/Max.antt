-- ===== src/Util/Max.antt =====
-- The maxima are maxima.
use cs425_mps.Base.{
  ℕ, ◌≤◌, ◌<◌, ◌≡◌, refl, ◌⊎◌, inl, inr, ◌≢◌, false, List, [], ◌∷◌, ltb, if◌then◌else◌, arith, In,
  here, there, All,
}
use cs425_mps.Base.Text.{str_lt, str_lt_irrefl, str_lt_trans, str_lt_total}
use cs425_mps.Base.Result.{ok}
use cs425_mps.Util.{
  ProposalItem, max_loop, max_of_array_uint64, max_vote, max_vote_loop, max_of_array_proposal_item,
}

-- The order of the votes: by sequence number, then by process.
abbrev pub VoteLe : ProposalItem → ProposalItem → Type 0
VoteLe a b =
    (a.proposal_seq_num < b.proposal_seq_num)
    ⊎ ((a.proposal_seq_num ≡ b.proposal_seq_num) × (str_lt b.process_id a.process_id ≡ false))

pub VoteLe-refl : (a : ProposalItem) → VoteLe a a
VoteLe-refl a = inr (refl, str_lt_irrefl a.process_id)

pub VoteLe-trans : (a b c : ProposalItem) → VoteLe a b → VoteLe b c → VoteLe a c
VoteLe-trans a b c (inl h) (inl k) = inl (omega arith)
VoteLe-trans a b c (inl h) (inr k) = inl (omega arith)
VoteLe-trans a b c (inr h) (inl k) = inl (omega arith)
VoteLe-trans a b c (inr h) (inr k) = inr (
  omega arith,
  ground (
    arith,
    str_lt_trans c.process_id a.process_id b.process_id,
    str_lt_trans b.process_id c.process_id a.process_id,
    str_lt_total a.process_id b.process_id,
    str_lt_total b.process_id a.process_id,
  ),
)

max_vote_lem :
    (a b : ProposalItem)
    → VoteLe a (max_vote a b) × VoteLe b (max_vote a b) × ((max_vote a b ≡ a) ⊎ (max_vote a b ≡ b))
unfolding max_vote
max_vote_lem a b = ground (
  arith,
  str_lt_irrefl a.process_id,
  str_lt_irrefl b.process_id,
  str_lt_trans a.process_id b.process_id a.process_id,
)

max_vote_loop_lem :
    (m : ProposalItem) (arr : List ProposalItem)
    → VoteLe m (max_vote_loop m arr)
      × All (λ v. VoteLe v (max_vote_loop m arr)) arr
      × ((max_vote_loop m arr ≡ m) ⊎ In (max_vote_loop m arr) arr)
unfolding max_vote_loop
max_vote_loop_lem m [] = (VoteLe-refl m, tt, inl refl)
max_vote_loop_lem m (v ∷ arr) =
    let (le_m, le_v, from) = max_vote_lem m v in
    let (le, all, rest) = max_vote_loop_lem (max_vote m v) arr in
    let top = max_vote_loop (max_vote m v) arr in
    (
      VoteLe-trans m (max_vote m v) top le_m le,
      (VoteLe-trans v (max_vote m v) top le_v le, all),
      origin top rest from,
    )
  where
    origin :
        (top : ProposalItem)
        → (top ≡ max_vote m v) ⊎ In top arr
        → (max_vote m v ≡ m) ⊎ (max_vote m v ≡ v)
        → (top ≡ m) ⊎ In top (v ∷ arr)
    origin top (inr i) f = inr (there i)
    origin top (inl e) (inl f) = inl (ground (arith, e, f))
    origin top (inl e) (inr f) = let same : top ≡ v = ground (arith, e, f) in inr (rw same here)

-- The agreement is one of the votes, and no vote is above it.
pub record IsMaximum (votes : List ProposalItem) (m : ProposalItem) : Type 0 where
  pub voted : In m votes
  pub top : All (λ v. VoteLe v m) votes

-- On votes, MaxOfArrayProposalItem returns one of them, and no vote is above it in the order of
-- number and then process.
pub max_of_array_proposal_item-IsMaximum :
    (votes : List ProposalItem)
    → votes ≢ []
    → (m : ProposalItem) × (max_of_array_proposal_item votes ≡ ok m) × IsMaximum votes m
unfolding max_of_array_proposal_item
max_of_array_proposal_item-IsMaximum [] h = absurd (h refl)
max_of_array_proposal_item-IsMaximum (x ∷ arr) h =
    let (le, all, from) = max_vote_loop_lem x (x ∷ arr) in
    let m = max_vote_loop x (x ∷ arr) in (m, refl, record { voted = voted m from; top = all })
  where
    voted : (m : ProposalItem) → (m ≡ x) ⊎ In m (x ∷ arr) → In m (x ∷ arr)
    voted m (inl e) = rw e here
    voted m (inr i) = i

max_loop_lem :
    (m : ℕ) (arr : List ℕ)
    → (m ≤ max_loop m arr)
      × All (λ v. v ≤ max_loop m arr) arr
      × ((max_loop m arr ≡ m) ⊎ In (max_loop m arr) arr)
unfolding max_loop
max_loop_lem m [] = (omega arith, tt, inl refl)
max_loop_lem m (v ∷ arr) =
    let next = if ltb m v then v else m in
    let (le, all, rest) = max_loop_lem next arr in
    let top = max_loop next arr in
    let up : (m ≤ next) × (v ≤ next) × ((next ≡ m) ⊎ (next ≡ v)) = ground arith in
    (omega arith, (omega arith, all), origin top next rest up.2)
  where
    origin :
        (top next : ℕ)
        → (top ≡ next) ⊎ In top arr
        → (next ≡ m) ⊎ (next ≡ v)
        → (top ≡ m) ⊎ In top (v ∷ arr)
    origin top next (inr i) f = inr (there i)
    origin top next (inl e) (inl f) = inl (omega arith)
    origin top next (inl e) (inr f) = let same : top ≡ v = omega arith in inr (rw same here)

-- On a sequence that is not empty, MaxOfArrayUint64 returns an entry that no entry exceeds.
pub max_of_array_uint64_lem :
    (arr : List ℕ)
    → arr ≢ []
    → (m : ℕ) × (max_of_array_uint64 arr ≡ ok m) × In m arr × All (λ v. v ≤ m) arr
unfolding max_of_array_uint64
max_of_array_uint64_lem [] h = absurd (h refl)
max_of_array_uint64_lem (x ∷ arr) h =
    let (le, all, from) = max_loop_lem x (x ∷ arr) in
    (max_loop x (x ∷ arr), refl, elim from [ inl e ↦ rw e here | inr i ↦ i ], all)
