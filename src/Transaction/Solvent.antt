-- ===== src/Transaction/Solvent.antt =====
-- The ledger stays solvent, and transfers between two accounts keep the money.
use cs425_mps.Base.{
  ℕ, ◌+◌, ◌<◌, ◌≡◌, refl, ap, ◌≢◌, inl, inr, false, none, some, arith, Bool-cases, Option-cases,
}
use cs425_mps.Base.Int.{
  ℤ, pos_part, neg_part, half_word, is_negative, is_negative-parts, int_laws, add_int, sub_int,
  add_int_nonneg, sub_int_nonneg,
}
use cs425_mps.Base.Text.{Str, str_eq_iff}
use cs425_mps.Base.Dict.{Dict, lookup, insert, lookup-insert}
use cs425_mps.Transaction.{Transaction, deposit, transfer, move_funds}
use cs425_mps.Transaction.Total.{
  total, balance, IsNonneg, total-insert, IsNonneg-insert, total_nonneg, balance_nonneg,
  balance-le-total,
}

-- No account is in debt, and the money in all accounts fits an `int`.
pub record IsSolvent (t : Transaction) : Type 0 where
  pub nonneg : IsNonneg t.balances
  pub bounded : pos_part (total t.balances) < half_word

-- One write: what the account and the total become.
pub write :
    (account : Str) (amount : ℤ) (m : Dict ℤ)
    → IsNonneg m
    → neg_part amount ≡ 0
    → IsNonneg (insert account amount m)
      × (pos_part (total (insert account amount m)) + pos_part (balance account m)
          ≡ pos_part (total m) + pos_part amount)
write k v m h e =
    let kept = IsNonneg-insert k v m e h in
    let sum = total-insert k v m in
    (
      kept,
      omega (
        int_laws,
        ap pos_part sum,
        ap neg_part sum,
        total_nonneg m h,
        total_nonneg (insert k v m) kept,
        balance_nonneg k m h,
      ),
    )

-- `r` is solvent, and holds the money of `t` and `more`.
pub record Holds (t : Transaction) (more : ℕ) (r : Transaction) : Type 0 where
  pub solvent : IsSolvent r
  pub money : pos_part (total r.balances) ≡ pos_part (total t.balances) + more

-- A deposit that is not negative and keeps the money within an int succeeds, keeps the ledger free
-- of debts, and adds exactly its amount to the money.
pub deposit_solvent :
    (t : Transaction) (account : Str) (amount : ℤ)
    → IsSolvent t
    → is_negative amount ≡ false
    → pos_part (total t.balances) + pos_part amount < half_word
    → Holds t (pos_part amount) (deposit t account amount).0 × ((deposit t account amount).1 ≡ none)
unfolding deposit
deposit_solvent t k v s e h =
    let nonneg = is_negative-parts v e in
    elim (Option-cases (lookup k t.balances)) [
      | inl new ↦
          let (kept, sum) = write k v t.balances s.nonneg nonneg in
          let before : pos_part (balance k t.balances) ≡ 0 = ground (arith, new) in
          rw (e, new, deposit)
            (
              record {
                solvent = record { nonneg = kept; bounded = omega arith };
                money = omega arith;
              },
              refl,
            )
      | inr (prev, old) ↦
          let same : balance k t.balances ≡ prev = ground (arith, old) in
          let fits = balance-le-total k t.balances s.nonneg in
          let prev_nonneg = balance_nonneg k t.balances s.nonneg in
          let (n, p) =
            add_int_nonneg prev v (rw same at prev_nonneg) nonneg
              (omega (arith, ap pos_part same)) in
          let (kept, sum) = write k (add_int prev v) t.balances s.nonneg n in
          rw (e, old, deposit)
            (
              record {
                solvent = record { nonneg = kept; bounded = omega (arith, ap pos_part same) };
                money = omega (arith, ap pos_part same);
              },
              refl,
            )
    ]

unchanged : (t : Transaction) → IsSolvent t → Holds t 0 t
unchanged t s = record { solvent = s; money = omega arith }

-- The writes of a transfer between two accounts.
move_funds_solvent :
    (t : Transaction) (f g : Str) (v pf : ℤ)
    → IsSolvent t
    → f ≢ g
    → neg_part v ≡ 0
    → lookup f t.balances ≡ some pf
    → neg_part (sub_int pf v) ≡ 0
    → pos_part (sub_int pf v) + pos_part v ≡ pos_part pf
    → Holds t 0 (move_funds t f g v pf (lookup g t.balances))
unfolding move_funds
move_funds_solvent t f g v pf s ne nonneg old n p =
    let m = t.balances in
    let rest = sub_int pf v in
    let (kept, sum) = write f rest m s.nonneg n in
    let before : pos_part (balance f m) ≡ pos_part pf = ground (arith, old) in
    let other : lookup g (insert f rest m) ≡ lookup g m =
      ground (arith, lookup-insert f g rest m, str_eq_iff f g) in
    elim (Option-cases (lookup g m)) [
      | inl new ↦
          let (kept', sum') = write g v (insert f rest m) kept nonneg in
          let none_yet : pos_part (balance g (insert f rest m)) ≡ 0 = ground (arith, other, new) in
          rw (new, move_funds)
            (record {
              solvent = record { nonneg = kept'; bounded = omega (arith, s.bounded) };
              money = omega arith;
            })
      | inr (prev, had) ↦
          let same : balance g (insert f rest m) ≡ prev = ground (arith, other, had) in
          let fits = balance-le-total g (insert f rest m) kept in
          let prev_nonneg = balance_nonneg g (insert f rest m) kept in
          let (n', p') =
            add_int_nonneg prev v (rw same at prev_nonneg) nonneg
              (omega (arith, ap pos_part same, s.bounded)) in
          let (kept', sum') = write g (add_int prev v) (insert f rest m) kept n' in
          rw (had, move_funds)
            (record {
              solvent = record {
                nonneg = kept';
                bounded = omega (arith, ap pos_part same, s.bounded);
              };
              money = omega (arith, ap pos_part same);
            })
    ]

-- A transfer between two different accounts of a ledger without debts, whose money fits an int,
-- keeps every balance at or above zero and the money the same, whether it succeeds or fails. The
-- amount is any int.
pub transfer_solvent :
    (t : Transaction) (from_account to_account : Str) (amount : ℤ)
    → IsSolvent t
    → from_account ≢ to_account
    → pos_part amount < half_word
    → Holds t 0 (transfer t from_account to_account amount).0
unfolding transfer
transfer_solvent t f g v s ne h = elim (Bool-cases (is_negative v)) [
  | inl e ↦ rw (e, transfer) (unchanged t s)
  | inr e ↦ elim (Option-cases (lookup f t.balances)) [
    | inl missing ↦ rw (e, missing, transfer) (unchanged t s)
    | inr (pf, old) ↦
        let same : balance f t.balances ≡ pf = ground (arith, old) in
        let fits = balance-le-total f t.balances s.nonneg in
        let pf_nonneg = rw same at (balance_nonneg f t.balances s.nonneg) in
        let nonneg = is_negative-parts v e in
        elim (sub_int_nonneg pf v pf_nonneg nonneg (omega (arith, ap pos_part same, s.bounded)) h) [
          | inl (_, short) ↦ rw (e, old, transfer) (rw short (unchanged t s))
          | inr (_, enough, n, p) ↦
              rw (e, old, transfer) (rw enough (move_funds_solvent t f g v pf s ne nonneg old n p))
        ]
  ]
]
