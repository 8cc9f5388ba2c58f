-- ===== src/Votes/Batches.antt =====
-- What the votes that were collected come to: those for an announcement, and those that wait.
use mathlib.Core.List.{append_assoc, append-nil}
use cs425_mps.Base.{
  ℕ, ◌≤◌, In, ◌≡◌, refl, sym, ap, ◌∙◌, ◌≢◌, some, List, [], ◌∷◌, ◌++◌, length, All, if◌then◌else◌,
  arith,
}
use cs425_mps.Base.Text.{Str, str_eq, str_eq_iff}
use cs425_mps.Base.Dict.{lookup, IsMap}
use cs425_mps.Message.{ToAnnounceAgreementSeqMsg}
use cs425_mps.Util.{ProposalItem}
use cs425_mps.Util.Max.{IsMaximum}
use cs425_mps.Votes.{Ballot}
use cs425_mps.Votes.Count.{agreement, waiting}

-- The votes for the message, in order.
abbrev pub votes_for : Str → List ProposalItem → List ProposalItem
votes_for id [] = []
votes_for id (v ∷ vs) = let rest = votes_for id vs in if str_eq id v.msg_id then v ∷ rest else rest

abbrev pub OfMessage : Str → List ProposalItem → Type 0
OfMessage id = All (λ v. v.msg_id ≡ id)

pub votes_for-append :
    (id : Str) (vs ws : List ProposalItem)
    → votes_for id (vs ++ ws) ≡ votes_for id vs ++ votes_for id ws
votes_for-append id [] ws = refl
votes_for-append id (v ∷ vs) ws = ground (arith, votes_for-append id vs ws)

pub votes_for-own : (id : Str) (vs : List ProposalItem) → OfMessage id vs → votes_for id vs ≡ vs
votes_for-own id [] h = refl
votes_for-own id (v ∷ vs) (e, h) = ground (arith, e, votes_for-own id vs h, str_eq_iff id v.msg_id)

pub votes_for-other :
    (id j : Str) (vs : List ProposalItem) → id ≢ j → OfMessage id vs → votes_for j vs ≡ []
votes_for-other id j [] ne h = refl
votes_for-other id j (v ∷ vs) ne (e, h) =
    ground (arith, e, ne, votes_for-other id j vs ne h, str_eq_iff j v.msg_id)

abbrev pub concat {ℓ} : {A : Type ℓ} → List (List A) → List A
concat [] = []
concat (xs ∷ xss) = xs ++ concat xss

pub concat-snoc {ℓ} :
    {A : Type ℓ} (xss : List (List A)) (xs : List A) → concat (xss ++ xs ∷ []) ≡ concat xss ++ xs
concat-snoc [] xs = append-nil xs
concat-snoc (ys ∷ xss) xs =
    ap (λ l. ys ++ l) (concat-snoc xss xs) ∙ sym (append_assoc ys (concat xss) xs)

-- The announcement has the greatest of the votes, which are for one message, and at least as many as
-- one of the counts of the members.
pub record IsBatch (counts : List ℕ) (votes : List ProposalItem) (msg : ToAnnounceAgreementSeqMsg)
    : Type 0 where
  pub top : ProposalItem
  pub greatest : IsMaximum votes top
  pub said : msg ≡ agreement top
  pub id : Str
  pub one_message : OfMessage id votes
  pub count : ℕ
  pub counted : In count counts
  pub enough : count ≤ length votes

abbrev pub AreBatches : List ℕ → List (List ProposalItem) → List ToAnnounceAgreementSeqMsg → Type 0
AreBatches counts [] [] = Unit
AreBatches counts (b ∷ bs) (m ∷ ms) = IsBatch counts b m × AreBatches counts bs ms
AreBatches counts _ _ = ⊥

pub AreBatches-snoc :
    (counts : List ℕ) (bs : List (List ProposalItem)) (ms : List ToAnnounceAgreementSeqMsg)
    (b : List ProposalItem) (m : ToAnnounceAgreementSeqMsg)
    → AreBatches counts bs ms
    → IsBatch counts b m
    → AreBatches counts (bs ++ b ∷ []) (ms ++ m ∷ [])
AreBatches-snoc counts [] [] b m h new = (new, tt)
AreBatches-snoc counts (c ∷ bs) (n ∷ ms) b m (one, h) new =
    (one, AreBatches-snoc counts bs ms b m h new)
AreBatches-snoc counts [] (n ∷ ms) b m h new = absurd h
AreBatches-snoc counts (c ∷ bs) [] b m h new = absurd h

-- The votes seen went into announcements, or wait.
pub record IsAccounted (counts : List ℕ) (seen : List ProposalItem) (b : Ballot) : Type 0 where
  pub batches : List (List ProposalItem)
  pub announced : AreBatches counts batches b.announced
  pub complete : (id : Str) → votes_for id seen ≡ votes_for id (concat batches) ++ waiting b id
  pub own : (id : Str) → OfMessage id (waiting b id)
  pub has_votes :
      (id : Str) (votes : List ProposalItem)
      → lookup id b.wait_proposal_counter ≡ some votes
      → votes ≢ []
  pub is_map : IsMap b.wait_proposal_counter
