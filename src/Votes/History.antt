-- ===== src/Votes/History.antt =====
-- The goroutine that collects the votes over all that it takes: each vote is counted once.
use mathlib.Core.Path.{subst}
use mathlib.Core.List.{append_assoc, append-nil}
use cs425_mps.Base.{
  ◌≤◌, false, ℕ, ltb→ge, In, here, there, ◌≡◌, refl, sym, ap, inl, inr, Option, none, some, List,
  [], ◌∷◌, ◌++◌, ltb, length, All, or_else, arith, Bool-cases,
}
use cs425_mps.Base.Text.{Str, str_eq_iff, str_eq_refl}
use cs425_mps.Base.Dict.{Dict, lookup, delete, IsMap, lookup-insert_self, lookup-delete}
use cs425_mps.Base.Result.{Error}
use cs425_mps.Message.{ToAnnounceAgreementSeqMsg}
use cs425_mps.Util.{ProposalItem}
use cs425_mps.Base.Int.{ℤ}
use cs425_mps.Votes.{
  is_below, count_of, Ballot, Input, voted, updated, collect_vote, recheck_loop, members_update,
  collect_round, collect_votes,
}
use cs425_mps.Votes.Count.{waiting, aggregate_announces}
use cs425_mps.Votes.Batches.{IsAccounted}
use cs425_mps.Votes.Steps.{snoc-ne_nil, with_vote, with_vote-IsAccounted, forget-IsAccounted}

collect_vote-IsAccounted :
    (counts : List ℕ) (fails : ToAnnounceAgreementSeqMsg → Option Error) (n : ℕ)
    (known : In n counts) (seen : List ProposalItem) (b : Ballot) (vote : ProposalItem)
    → IsAccounted counts seen b
    → IsAccounted counts (seen ++ vote ∷ []) (collect_vote fails n b vote)
unfolding collect_vote
collect_vote-IsAccounted counts fails n known seen b vote h =
    let votes = waiting b vote.msg_id ++ vote ∷ [] in
    let counted = with_vote-IsAccounted counts seen b vote h in
    let held : waiting (with_vote b vote) vote.msg_id ≡ votes =
      ap (λ o. or_else o []) (lookup-insert_self vote.msg_id votes b.wait_proposal_counter) in
    elim (Bool-cases (ltb (length votes) n)) [
      | inl few ↦ rw few counted
      | inr enough ↦ rw enough (
          forget-IsAccounted counts (seen ++ vote ∷ []) (with_vote b vote) _ vote.msg_id votes n
            known (ltb→ge (length votes) n enough) held
            (aggregate_announces fails (with_vote b vote) votes
              (snoc-ne_nil (waiting b vote.msg_id) vote))
            counted)
    ]

-- The messages to look at still wait.
abbrev Pending : Dict (List ProposalItem) → Dict (List ProposalItem) → Type 0
Pending todo d = All (λ e. lookup e.0 d ≡ some e.1) todo

Pending-delete :
    (id : Str) (todo d : Dict (List ProposalItem))
    → lookup id todo ≡ none
    → Pending todo d
    → Pending todo (delete id d)
unfolding lookup
Pending-delete id [] d new h = tt
Pending-delete id ((j, votes) ∷ todo) d new (held, h) = ground (
  arith,
  lookup-delete id j d,
  str_eq_iff id j,
  str_eq_iff j id,
  held,
  Pending-delete id todo d,
  h,
)

Pending-cons :
    (id : Str) (votes : List ProposalItem) (todo d : Dict (List ProposalItem))
    → lookup id todo ≡ none
    → Pending todo d
    → Pending todo ((id, votes) ∷ d)
unfolding lookup
Pending-cons id votes [] d new h = tt
Pending-cons id votes ((j, ws) ∷ todo) d new (held, h) =
    ground (arith, str_eq_iff id j, str_eq_iff j id, held, Pending-cons id votes todo d, h)

IsMap-Pending : (d : Dict (List ProposalItem)) → IsMap d → Pending d d
unfolding lookup
IsMap-Pending [] m = tt
IsMap-Pending ((id, votes) ∷ d) (new, m) =
    (rw (str_eq_refl id) refl, Pending-cons id votes d d new (IsMap-Pending d m))

-- A value that is no count stands for -1, which no number of votes is below; 0 is as good a bound.
abbrev pub bound_of : Option ℕ → ℕ
bound_of none = 0
bound_of (some n) = n

bound_of-le : (value : Option ℕ) (k : ℕ) → is_below k (count_of value) ≡ false → bound_of value ≤ k
bound_of-le none k e = omega arith
bound_of-le (some n) k e = ltb→ge k n e

recheck_loop-IsAccounted :
    (counts : List ℕ) (fails : ToAnnounceAgreementSeqMsg → Option Error) (count : ℤ) (n : ℕ)
    (known : In n counts) (bound : (k : ℕ) → is_below k count ≡ false → n ≤ k)
    (seen : List ProposalItem) (todo : Dict (List ProposalItem)) (b : Ballot)
    → IsMap todo
    → Pending todo b.wait_proposal_counter
    → IsAccounted counts seen b
    → IsAccounted counts seen (recheck_loop fails count todo b)
unfolding recheck_loop
recheck_loop-IsAccounted counts fails count n known bound seen [] b m p h = h
recheck_loop-IsAccounted counts fails count n known bound seen ((id, votes) ∷ todo) b (new, m)
      (held, p) h =
    elim (Bool-cases (is_below (length votes) count)) [
      | inl few ↦
          rw few (recheck_loop-IsAccounted counts fails count n known bound seen todo b m p h)
      | inr enough ↦
          let (top, greatest, said, same) =
            aggregate_announces fails b votes (h.has_votes id votes held) in
          rw enough (
            recheck_loop-IsAccounted counts fails count n known bound seen todo _ m
              (subst (λ d. Pending todo (delete id d)) (sym same)
                (Pending-delete id todo b.wait_proposal_counter new p))
              (forget-IsAccounted counts seen b _ id votes n known (bound (length votes) enough)
                (ap (λ o. or_else o []) held) (top, greatest, said, same) h))
    ]

abbrev pub votes_of : List Input → List ProposalItem
votes_of [] = []
votes_of (voted fails n vote ∷ is) = vote ∷ votes_of is
votes_of (updated fails value ∷ is) = votes_of is

abbrev pub counts_of : List Input → List ℕ
counts_of [] = []
counts_of (voted fails n vote ∷ is) = n ∷ counts_of is
counts_of (updated fails value ∷ is) = bound_of value ∷ counts_of is

collect_votes-IsAccounted :
    (counts : List ℕ) (is : List Input) (seen : List ProposalItem) (b : Ballot)
    → All (λ n. In n counts) (counts_of is)
    → IsAccounted counts seen b
    → IsAccounted counts (seen ++ votes_of is) (collect_votes is b)
unfolding collect_votes collect_round members_update
collect_votes-IsAccounted counts [] seen b known h =
    subst (λ l. IsAccounted counts l b) (sym (append-nil seen)) h
collect_votes-IsAccounted counts (voted fails n vote ∷ is) seen b (known, rest) h =
    subst (λ l. IsAccounted counts l (collect_votes is (collect_vote fails n b vote)))
      (append_assoc seen (vote ∷ []) (votes_of is))
      (collect_votes-IsAccounted counts is (seen ++ vote ∷ []) _ rest
        (collect_vote-IsAccounted counts fails n known seen b vote h))
collect_votes-IsAccounted counts (updated fails value ∷ is) seen b (known, rest) h =
    collect_votes-IsAccounted counts is seen _ rest (
      recheck_loop-IsAccounted counts fails (count_of value) (bound_of value) known
        (bound_of-le value) seen b.wait_proposal_counter b h.is_map
        (IsMap-Pending b.wait_proposal_counter h.is_map) h)

abbrev pub no_votes : Ballot
no_votes = record { wait_proposal_counter = []; announced = [] }

no_votes-IsAccounted : (counts : List ℕ) → IsAccounted counts [] no_votes
unfolding lookup
no_votes-IsAccounted counts = record {
  batches = [];
  announced = tt;
  complete = λ id. refl;
  own = λ id. tt;
  has_votes = λ id votes e none_left. ground (arith, e);
  is_map = tt;
}

All-In_there : (n : ℕ) (ns ms : List ℕ) → All (λ k. In k ms) ns → All (λ k. In k (n ∷ ms)) ns
All-In_there n [] ms h = tt
All-In_there n (k ∷ ns) ms (i, h) = (there i, All-In_there n ns ms h)

All-In_self : (ns : List ℕ) → All (λ k. In k ns) ns
All-In_self [] = tt
All-In_self (n ∷ ns) = (here, All-In_there n ns ns (All-In_self ns))

-- Whatever the goroutine takes, votes and values of the broker in any order, and whichever
-- multicasts fail: the votes taken for a message are, in the order they came, those that its
-- announcements were made from and then those that wait; each announcement has the greatest of its
-- votes, which are for one message and at least as many as one of the counts that the goroutine
-- met, where a value that is no count is taken as 0; and each message that waits has a vote.
pub collect_votes_correct :
    (inputs : List Input)
    → IsAccounted (counts_of inputs) (votes_of inputs) (collect_votes inputs no_votes)
collect_votes_correct inputs =
    let counts = counts_of inputs in
    collect_votes-IsAccounted counts inputs [] no_votes (All-In_self counts)
      (no_votes-IsAccounted counts)
