-- ===== src/Votes/Steps.antt =====
-- One vote more, and one message less, for the account of the votes.
use mathlib.Core.Path.{subst}
use mathlib.Core.List.{append_assoc, append-nil}
use cs425_mps.Base.{
  ℕ, ◌≤◌, In, ◌≡◌, refl, sym, ap, ◌∙◌, ◌≢◌, List, [], ◌∷◌, ◌++◌, length, if◌then◌else◌, arith,
}
use cs425_mps.Base.Text.{Str, str_eq, str_eq_iff}
use cs425_mps.Base.Dict.{
  lookup, insert, delete, IsMap, insert-IsMap, delete-IsMap, lookup-insert, lookup-delete,
}
use cs425_mps.Util.{ProposalItem}
use cs425_mps.Votes.{Ballot}
use cs425_mps.Votes.Count.{agreement, waiting, Announced}
use cs425_mps.Votes.Batches.{
  votes_for, OfMessage, votes_for-append, votes_for-own, votes_for-other, concat, concat-snoc,
  AreBatches, AreBatches-snoc, IsAccounted,
}

pub snoc-ne_nil : (vs : List ProposalItem) (v : ProposalItem) → vs ++ v ∷ [] ≢ []
snoc-ne_nil [] v e = ground (arith, e)
snoc-ne_nil (w ∷ vs) v e = ground (arith, e)

-- The ballot with one more vote that waits.
abbrev pub with_vote : Ballot → ProposalItem → Ballot
with_vote b vote = record b {
  wait_proposal_counter =
      insert vote.msg_id (waiting b vote.msg_id ++ vote ∷ []) b.wait_proposal_counter;
}

with_vote-waiting :
    (b : Ballot) (vote : ProposalItem) (j : Str)
    → waiting (with_vote b vote) j ≡ waiting b j ++ votes_for j (vote ∷ [])
with_vote-waiting b vote j = ground (
  arith,
  lookup-insert vote.msg_id j (waiting b vote.msg_id ++ vote ∷ []) b.wait_proposal_counter,
  str_eq_iff vote.msg_id j,
  str_eq_iff j vote.msg_id,
  append-nil (waiting b j),
  λ (e : vote.msg_id ≡ j). ap (waiting b) e,
)

OfMessage-one : (j : Str) (vote : ProposalItem) → OfMessage j (votes_for j (vote ∷ []))
OfMessage-one j vote = ground (arith, str_eq_iff j vote.msg_id)

OfMessage-append :
    (id : Str) (vs ws : List ProposalItem)
    → OfMessage id vs
    → OfMessage id ws
    → OfMessage id (vs ++ ws)
OfMessage-append id [] ws h k = k
OfMessage-append id (v ∷ vs) ws (e, h) k = (e, OfMessage-append id vs ws h k)

pub with_vote-IsAccounted :
    (counts : List ℕ) (seen : List ProposalItem) (b : Ballot) (vote : ProposalItem)
    → IsAccounted counts seen b
    → IsAccounted counts (seen ++ vote ∷ []) (with_vote b vote)
with_vote-IsAccounted counts seen b vote h = record {
  batches = h.batches;
  announced = h.announced;
  complete = λ j.
      votes_for-append j seen (vote ∷ [])
      ∙ ap (λ l. l ++ votes_for j (vote ∷ [])) (h.complete j)
      ∙ append_assoc (votes_for j (concat h.batches)) (waiting b j) (votes_for j (vote ∷ []))
      ∙ ap (λ l. votes_for j (concat h.batches) ++ l) (sym (with_vote-waiting b vote j));
  own = λ j.
      subst (OfMessage j) (sym (with_vote-waiting b vote j)) (
        OfMessage-append j (waiting b j) (votes_for j (vote ∷ [])) (h.own j)
          (OfMessage-one j vote));
  has_votes = λ j votes e none_left. ground (
    arith,
    e,
    none_left,
    lookup-insert vote.msg_id j (waiting b vote.msg_id ++ vote ∷ []) b.wait_proposal_counter,
    snoc-ne_nil (waiting b vote.msg_id) vote,
    h.has_votes j votes,
  );
  is_map = insert-IsMap vote.msg_id _ b.wait_proposal_counter h.is_map;
}

-- The ballot `r`, less the message `id`.
abbrev forget : Str → Ballot → Ballot
forget id r = record r { wait_proposal_counter = delete id r.wait_proposal_counter }

-- The votes that leave.
abbrev leaving : Str → List ProposalItem → Str → List ProposalItem
leaving id votes j = if str_eq id j then votes else []

votes_for-leaving :
    (id j : Str) (votes : List ProposalItem)
    → OfMessage id votes
    → votes_for j votes ≡ leaving id votes j
votes_for-leaving id j votes h = ground (
  arith,
  str_eq_iff id j,
  λ (e : id ≡ j). votes_for-own j votes (subst (λ k. OfMessage k votes) e h),
  λ (ne : id ≢ j). votes_for-other id j votes ne h,
)

forget-waiting :
    (b r : Ballot) (id : Str) (votes : List ProposalItem) (j : Str)
    → waiting b id ≡ votes
    → r.wait_proposal_counter ≡ b.wait_proposal_counter
    → waiting b j ≡ leaving id votes j ++ waiting (forget id r) j
forget-waiting b r id votes j e same = ground (
  arith,
  e,
  same,
  str_eq_iff id j,
  ap (lookup j) same,
  lookup-delete id j r.wait_proposal_counter,
  append-nil votes,
  λ (e : id ≡ j). ap (waiting b) e,
)

OfMessage-right : (id : Str) (vs ws : List ProposalItem) → OfMessage id (vs ++ ws) → OfMessage id ws
OfMessage-right id [] ws h = h
OfMessage-right id (v ∷ vs) ws (e, h) = OfMessage-right id vs ws h

pub forget-IsAccounted :
    (counts : List ℕ) (seen : List ProposalItem) (b r : Ballot) (id : Str)
    (votes : List ProposalItem) (n : ℕ)
    → In n counts
    → n ≤ length votes
    → waiting b id ≡ votes
    → Announced votes b r
    → IsAccounted counts seen b
    → IsAccounted counts seen (forget id r)
forget-IsAccounted counts seen b r id votes n known enough e (top, greatest, said, same) h =
    let one : OfMessage id votes = subst (OfMessage id) e (h.own id) in
    record {
      batches = h.batches ++ votes ∷ [];
      announced = subst (AreBatches counts (h.batches ++ votes ∷ [])) (sym said) (
          AreBatches-snoc counts h.batches b.announced votes (agreement top) h.announced (record {
            top = top;
            greatest = greatest;
            said = refl;
            id = id;
            one_message = one;
            count = n;
            counted = known;
            enough = enough;
          }));
      complete = λ j.
          h.complete j
          ∙ ap (λ l. votes_for j (concat h.batches) ++ l) (forget-waiting b r id votes j e same)
          ∙ sym (
              append_assoc (votes_for j (concat h.batches)) (leaving id votes j)
                (waiting (forget id r) j))
          ∙ ap (λ l. (votes_for j (concat h.batches) ++ l) ++ waiting (forget id r) j)
              (sym (votes_for-leaving id j votes one))
          ∙ ap (λ l. l ++ waiting (forget id r) j)
              (sym (votes_for-append j (concat h.batches) votes))
          ∙ ap (λ l. votes_for j l ++ waiting (forget id r) j) (sym (concat-snoc h.batches votes));
      own = λ j.
          OfMessage-right j (leaving id votes j) (waiting (forget id r) j)
            (subst (OfMessage j) (forget-waiting b r id votes j e same) (h.own j));
      has_votes = λ j ws w. ground (
        arith,
        ap (lookup j) same,
        lookup-delete id j r.wait_proposal_counter,
        h.has_votes j ws,
        w,
      );
      is_map =
          subst (λ d. IsMap (delete id d)) (sym same)
            (delete-IsMap id b.wait_proposal_counter h.is_map);
    }
