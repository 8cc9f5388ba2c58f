-- ===== src/Processor/Replicas.antt =====
-- Replicas that process the same messages agree.
use cs425_mps.Base.{
  ◌≡◌, refl, sym, ap, ◌∙◌, inl, inr, Option, none, some, List, [], ◌∷◌, ◌++◌, arith, Bool-cases,
  Option-cases,
}
use cs425_mps.Base.Int.{ℤ, is_negative, add_int, sub_int}
use cs425_mps.Base.Text.{Str}
use cs425_mps.Base.Dict.{lookup, insert, IsMap, insert-IsMap, lookup-insert}
use cs425_mps.Base.Run.{Run, ok, ◌>>=◌}
use cs425_mps.Base.Result.{Error, no_route}
use cs425_mps.Codec.{Codec}
use cs425_mps.Message.{ToMsg}
use cs425_mps.Router.{Router, run}
use cs425_mps.Event.{Deposit, Transfer, decode_deposit, decode_transfer}
use cs425_mps.Transaction.{
  Transaction, deposit, transfer, move_funds, balances_snapshot_std_sorted_string,
}
use cs425_mps.Transaction.Snapshot.{SameEntries, sorted_string_same}
use cs425_mps.Processor.{
  Processor, Handler, handles_deposit, handles_transfer, process_deposit, process_transfer, process,
  deposit_text, transfer_text,
}

-- Two ledgers that cannot be told apart by a lookup, whatever the order of their maps.
pub record SameLedger (t u : Transaction) : Type 0 where
  pub left : IsMap t.balances
  pub right : IsMap u.balances
  pub entries : SameEntries t.balances u.balances

SameLedger-insert :
    (k : Str) (v : ℤ) (t u : Transaction)
    → SameLedger t u
    → SameLedger
        (record t { balances = insert k v t.balances })
        (record u { balances = insert k v u.balances })
SameLedger-insert k v t u s = record {
  left = insert-IsMap k v t.balances s.left;
  right = insert-IsMap k v u.balances s.right;
  entries = λ j.
      ground (arith, lookup-insert k j v t.balances, lookup-insert k j v u.balances, s.entries j);
}

-- Two outcomes with the same error, on ledgers that agree.
abbrev Alike : Transaction × Option Error → Transaction × Option Error → Type 0
Alike r q = SameLedger r.0 q.0 × (r.1 ≡ q.1)

deposit-Alike :
    (t u : Transaction) (k : Str) (v : ℤ) → SameLedger t u → Alike (deposit t k v) (deposit u k v)
unfolding deposit
deposit-Alike t u k v s = elim (Bool-cases (is_negative v)) [
  | inl e ↦ rw (e, deposit) (s, refl)
  | inr e ↦ elim (Option-cases (lookup k t.balances)) [
    | inl old ↦
        let other : lookup k u.balances ≡ none = sym (s.entries k) ∙ old in
        rw (e, old, other, deposit) (SameLedger-insert k v t u s, refl)
    | inr (w, old) ↦
        let other : lookup k u.balances ≡ some w = sym (s.entries k) ∙ old in
        rw (e, old, other, deposit) (SameLedger-insert k (add_int w v) t u s, refl)
  ]
]

move_funds-SameLedger :
    (t u : Transaction) (f g : Str) (v w : ℤ) (to : Option ℤ)
    → SameLedger t u
    → SameLedger (move_funds t f g v w to) (move_funds u f g v w to)
unfolding move_funds
move_funds-SameLedger t u f g v w none s =
    let debited = SameLedger-insert f (sub_int w v) t u s in SameLedger-insert g v _ _ debited
move_funds-SameLedger t u f g v w (some x) s =
    let debited = SameLedger-insert f (sub_int w v) t u s in
    SameLedger-insert g (add_int x v) _ _ debited

transfer-Alike :
    (t u : Transaction) (f g : Str) (v : ℤ)
    → SameLedger t u
    → Alike (transfer t f g v) (transfer u f g v)
unfolding transfer
transfer-Alike t u f g v s = elim (Bool-cases (is_negative v)) [
  | inl e ↦ rw (e, transfer) (s, refl)
  | inr e ↦ elim (Option-cases (lookup f t.balances)) [
    | inl old ↦
        let other : lookup f u.balances ≡ none = sym (s.entries f) ∙ old in
        rw (e, old, other, transfer) (s, refl)
    | inr (w, old) ↦
        let other : lookup f u.balances ≡ some w = sym (s.entries f) ∙ old in
        elim (Bool-cases (is_negative (sub_int w v))) [
          | inl poor ↦ rw (e, old, other, poor, transfer) (s, refl)
          | inr rich ↦
              rw (e, old, other, rich, s.entries g, transfer)
                (move_funds-SameLedger t u f g v w (lookup g u.balances) s, refl)
        ]
  ]
]

-- Two replicas that hold the same entries, and have printed the same lines.
pub record SameProcessor (p q : Processor) : Type 0 where
  pub ledger : SameLedger p.transaction q.transaction
  pub printed : p.printed ≡ q.printed

abbrev Agree : Processor × Option Error → Processor × Option Error → Type 0
Agree r s = SameProcessor r.0 s.0 × (r.1 ≡ s.1)

snapshots_same :
    (t u : Transaction)
    → SameLedger t u
    → balances_snapshot_std_sorted_string t ≡ balances_snapshot_std_sorted_string u
snapshots_same t u s = sorted_string_same t u s.left s.right s.entries

process_deposit-Agree :
    (cd : Codec Deposit) (p q : Processor) (msg : ToMsg)
    → SameProcessor p q
    → Agree (process_deposit cd p msg) (process_deposit cd q msg)
unfolding process_deposit
process_deposit-Agree cd p q msg s =
    let d = (decode_deposit cd msg.body).0 in
    let said = ap (λ l. l ++ deposit_text d ∷ []) s.printed in
    let (same, err) = deposit-Alike p.transaction q.transaction d.account d.amount s.ledger in
    elim (Option-cases (decode_deposit cd msg.body).1) [
      | inr (e, bad) ↦ rw (bad, process_deposit) (s, refl)
      | inl good ↦ elim (Option-cases (deposit p.transaction d.account d.amount).1) [
        | inr (e, refused) ↦
            let other : (deposit q.transaction d.account d.amount).1 ≡ some e = sym err ∙ refused in
            rw (good, refused, other, process_deposit)
              (record { ledger = same; printed = said }, refl)
        | inl done ↦
            let other : (deposit q.transaction d.account d.amount).1 ≡ none = sym err ∙ done in
            rw (good, done, other, process_deposit)
              (record { ledger = same; printed = rw (said, snapshots_same _ _ same) refl }, refl)
      ]
    ]

process_transfer-Agree :
    (ct : Codec Transfer) (p q : Processor) (msg : ToMsg)
    → SameProcessor p q
    → Agree (process_transfer ct p msg) (process_transfer ct q msg)
unfolding process_transfer
process_transfer-Agree ct p q msg s =
    let x = (decode_transfer ct msg.body).0 in
    let said = ap (λ l. l ++ transfer_text x ∷ []) s.printed in
    let (same, err) =
      transfer-Alike p.transaction q.transaction x.from_account x.to_account x.amount s.ledger in
    elim (Option-cases (decode_transfer ct msg.body).1) [
      | inr (e, bad) ↦ rw (bad, process_transfer) (s, refl)
      | inl good ↦ rw (good, process_transfer) (record { ledger = same; printed = said }, err)
    ]

-- Two calls that end normally, in replicas that agree.
abbrev pub BothAgree : Run (Processor × Option Error) → Run (Processor × Option Error) → Type 0
BothAgree x y =
    (r : Processor × Option Error) × ((s : Processor × Option Error) × (x ≡ ok r)
      × (y ≡ ok s)
      × Agree r s)

process-agrees :
    (cd : Codec Deposit) (ct : Codec Transfer) (d : Router Handler) (msg : ToMsg) (p q : Processor)
    → SameProcessor p q
    → BothAgree (process cd ct d msg.path msg p) (process cd ct d msg.path msg q)
unfolding process run
process-agrees cd ct d msg p q s = elim (Option-cases (lookup msg.path d.routers)) [
  | inl missing ↦ (
    (p, some no_route),
    (
      (q, some no_route),
      rw (missing, process, run) refl,
      rw (missing, process, run) refl,
      (s, refl),
    ),
  )
  | inr (h, found) ↦ by_handler h found
]
  where
    by_handler :
        (h : Handler)
        → lookup msg.path d.routers ≡ some h
        → BothAgree (process cd ct d msg.path msg p) (process cd ct d msg.path msg q)
    by_handler handles_deposit f = (
      process_deposit cd p msg,
      (
        process_deposit cd q msg,
        rw (f, process, run) refl,
        rw (f, process, run) refl,
        process_deposit-Agree cd p q msg s,
      ),
    )
    by_handler handles_transfer f = (
      process_transfer ct p msg,
      (
        process_transfer ct q msg,
        rw (f, process, run) refl,
        rw (f, process, run) refl,
        process_transfer-Agree ct p q msg s,
      ),
    )

-- The messages of a log, in order; the delivery loop goes on after an error.
abbrev pub process_all :
    Codec Deposit → Codec Transfer → Router Handler → List ToMsg → Processor → Run Processor
process_all cd ct d [] p = ok p
process_all cd ct d (msg ∷ log) p =
    process cd ct d msg.path msg p >>= (λ r. process_all cd ct d log r.0)

-- Two replicas whose ledgers have the same entries, in any order of their maps, and that have
-- printed the same lines, both end normally on any log of messages, undecodable and refused ones
-- included, and then again have the same entries and the same printed lines.
pub replicas_agree :
    (cd : Codec Deposit) (ct : Codec Transfer) (d : Router Handler) (log : List ToMsg)
    (p q : Processor)
    → SameProcessor p q
    → (p' : Processor) × ((q' : Processor) × (process_all cd ct d log p ≡ ok p')
        × (process_all cd ct d log q ≡ ok q')
        × SameProcessor p' q')
replicas_agree cd ct d [] p q s = (p, (q, refl, refl, s))
replicas_agree cd ct d (msg ∷ log) p q s =
    let (r, (u, one, two, (same, errors))) = process-agrees cd ct d msg p q s in
    let (p', (q', left, right, agree)) = replicas_agree cd ct d log r.0 u.0 same in
    (p', (q', rw one left, rw two right, agree))
