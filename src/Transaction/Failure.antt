-- ===== src/Transaction/Failure.antt =====
-- When a transfer fails, and the transfer of an account to itself.
use cs425_mps.Base.{
  ◌+◌, ◌≤◌, ◌<◌, ◌≡◌, ap, ◌≢◌, ◌↔◌, inl, inr, false, none, some, arith, Bool-cases, Option-cases,
}
use cs425_mps.Base.Int.{
  ℤ, pos_part, neg_part, half_word, is_negative, is_negative-parts, is_negative-parts_true, add_int,
  sub_int, add_int_nonneg, sub_int_nonneg,
}
use cs425_mps.Base.Text.{Str}
use cs425_mps.Base.Dict.{lookup, insert, lookup-insert_self}
use cs425_mps.Transaction.{Transaction, deposit, transfer, move_funds}
use cs425_mps.Transaction.Total.{total, balance, balance_nonneg, balance-le-total}
use cs425_mps.Transaction.Solvent.{IsSolvent, Holds, write}

-- A deposit or a transfer that returns an error leaves the ledger as it was.
pub failure_keeps :
    (t : Transaction) (f g : Str) (amount : ℤ)
    → ((deposit t f amount).1 ≢ none → (deposit t f amount).0 ≡ t)
      × ((transfer t f g amount).1 ≢ none → (transfer t f g amount).0 ≡ t)
unfolding deposit transfer
failure_keeps t f g v = (λ h. ground arith, λ h. ground arith)

-- On a ledger without debts, whose money fits an int, a transfer of an int returns nil exactly if
-- its amount is not negative, the source account exists, and its balance covers the amount.
pub transfer_success_iff :
    (t : Transaction) (from_account to_account : Str) (amount : ℤ)
    → IsSolvent t
    → pos_part amount < half_word
    → ((transfer t from_account to_account amount).1 ≡ none) ↔ (
        (neg_part amount ≡ 0)
        × (lookup from_account t.balances ≢ none)
        × (pos_part amount ≤ pos_part (balance from_account t.balances)))
unfolding transfer
transfer_success_iff t f g v s h = elim (Bool-cases (is_negative v)) [
  | inl e ↦
      let debt = is_negative-parts_true v e in
      (λ ok. absurd (ground (arith, e)), λ all. absurd (omega (arith, all.0)))
  | inr e ↦ elim (Option-cases (lookup f t.balances)) [
    | inl missing ↦ (λ ok. absurd (ground (arith, e, missing)), λ all. absurd (all.1 missing))
    | inr (pf, old) ↦
        let same : balance f t.balances ≡ pf = ground (arith, old) in
        let fits = balance-le-total f t.balances s.nonneg in
        let pf_nonneg = rw same at (balance_nonneg f t.balances s.nonneg) in
        let nonneg = is_negative-parts v e in
        let exists : lookup f t.balances ≢ none = λ gone. ground (arith, old, gone) in
        elim (sub_int_nonneg pf v pf_nonneg nonneg (omega (arith, ap pos_part same, s.bounded)) h) [
          | inl (less, short) ↦ (
            λ ok. absurd (ground (arith, e, old, short)),
            λ all. absurd (omega (arith, all.2, ap pos_part same)),
          )
          | inr (enough, covered, n, p) ↦ (
            λ ok. (nonneg, exists, omega (arith, ap pos_part same)),
            λ all. rw (e, old, transfer) (rw covered),
          )
        ]
  ]
]

-- On a ledger without debts, a transfer of an existing account to itself, of an amount that is not
-- negative, that its balance covers, and that fits an int together with the money in the ledger,
-- adds the amount to the balance and to the money in the ledger.
pub self_transfer_mints :
    (t : Transaction) (account : Str) (amount pf : ℤ)
    → IsSolvent t
    → lookup account t.balances ≡ some pf
    → is_negative amount ≡ false
    → pos_part amount ≤ pos_part pf
    → pos_part (total t.balances) + pos_part amount < half_word
    → Holds t (pos_part amount) (transfer t account account amount).0
      × (lookup account (transfer t account account amount).0.balances ≡ some (add_int pf amount))
unfolding transfer move_funds
self_transfer_mints t f v pf s old e le h =
    let m = t.balances in
    let same : balance f m ≡ pf = ground (arith, old) in
    let fits = balance-le-total f m s.nonneg in
    let pf_nonneg = rw same at (balance_nonneg f m s.nonneg) in
    let nonneg = is_negative-parts v e in
    elim (sub_int_nonneg pf v pf_nonneg nonneg (omega (arith, ap pos_part same, s.bounded))
      (omega arith)) [
        | inl (less, short) ↦ absurd (omega arith)
        | inr (enough, covered, n, p) ↦
            let rest = sub_int pf v in
            let (kept, sum) = write f rest m s.nonneg n in
            let now : balance f (insert f rest m) ≡ rest =
              ground (arith, lookup-insert_self f rest m) in
            let (n', p') = add_int_nonneg pf v pf_nonneg nonneg (omega (arith, ap pos_part same)) in
            let (kept', sum') = write f (add_int pf v) (insert f rest m) kept n' in
            rw (e, old, transfer)
              (rw (covered, old, move_funds)
                (
                  record {
                    solvent = record {
                      nonneg = kept';
                      bounded = omega (arith, ap pos_part same, ap pos_part now);
                    };
                    money = omega (arith, ap pos_part same, ap pos_part now);
                  },
                  lookup-insert_self f (add_int pf v) (insert f rest m),
                ))
      ]
