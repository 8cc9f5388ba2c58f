-- ===== src/Transaction/Tests.antt =====
-- A ledger with two accounts.
use cs425_mps.Base.{◌≤◌, ◌≡◌, refl, ◌≢◌, ◌↔◌, none, some, [], ◌∷◌, arith}
use cs425_mps.Base.Int.{pos, pos_part, neg_part, add_int, ◌+ℤ◌}
use cs425_mps.Base.Text.{Str, codes, str_eq, str_eq_iff}
use cs425_mps.Base.Dict.{lookup, IsMap}
use cs425_mps.Transaction.{Transaction, deposit, transfer, balances_snapshot_std_sorted_string}
use cs425_mps.Transaction.Total.{total, balance}
use cs425_mps.Transaction.Solvent.{IsSolvent, Holds, deposit_solvent, transfer_solvent}
use cs425_mps.Transaction.Failure.{failure_keeps, transfer_success_iff, self_transfer_mints}
use cs425_mps.Transaction.Snapshot.{SameEntries, sorted_string_same}

abbrev alice : Str
alice = codes "alice"

abbrev bob : Str
bob = codes "bob"

abbrev ledger : Transaction
ledger = record { balances = (alice, pos 10) ∷ (bob, pos 5) ∷ [] }

abbrev swapped : Transaction
swapped = record { balances = (bob, pos 5) ∷ (alice, pos 10) ∷ [] }

ledger-IsSolvent : IsSolvent ledger
unfolding total ◌+ℤ◌
ledger-IsSolvent = record { nonneg = (refl, (refl, tt)); bounded = omega arith }

alice_is_not_bob : alice ≢ bob
alice_is_not_bob e = ground (arith, e)

transfer_solvent_example : Holds ledger 0 (transfer ledger alice bob (pos 7)).0
transfer_solvent_example =
    transfer_solvent ledger alice bob (pos 7) ledger-IsSolvent alice_is_not_bob (omega arith)

deposit_solvent_example :
    Holds ledger 3 (deposit ledger alice (pos 3)).0 × ((deposit ledger alice (pos 3)).1 ≡ none)
unfolding total ◌+ℤ◌
deposit_solvent_example = deposit_solvent ledger alice (pos 3) ledger-IsSolvent refl (omega arith)

transfer_success_iff_example : ((transfer ledger alice bob (pos 7)).1 ≡ none) ↔ (
    (neg_part (pos 7) ≡ 0)
    × (lookup alice ledger.balances ≢ none)
    × (7 ≤ pos_part (balance alice ledger.balances)))
transfer_success_iff_example =
    transfer_success_iff ledger alice bob (pos 7) ledger-IsSolvent (omega arith)

failure_keeps_example :
    ((deposit ledger alice (pos 70)).1 ≢ none → (deposit ledger alice (pos 70)).0 ≡ ledger)
    × ((transfer ledger alice bob (pos 70)).1 ≢ none
        → (transfer ledger alice bob (pos 70)).0 ≡ ledger)
failure_keeps_example = failure_keeps ledger alice bob (pos 70)

self_transfer_mints_example :
    Holds ledger 7 (transfer ledger alice alice (pos 7)).0
    × (lookup alice (transfer ledger alice alice (pos 7)).0.balances
        ≡ some (add_int (pos 10) (pos 7)))
unfolding total lookup str_eq ◌+ℤ◌
self_transfer_mints_example =
    self_transfer_mints ledger alice (pos 7) (pos 10) ledger-IsSolvent refl refl (omega arith)
      (omega arith)

ledger-IsMap : IsMap ledger.balances
unfolding lookup str_eq
ledger-IsMap = (refl, (refl, tt))

swapped-IsMap : IsMap swapped.balances
unfolding lookup str_eq
swapped-IsMap = (refl, (refl, tt))

same_entries : SameEntries ledger.balances swapped.balances
unfolding lookup
same_entries k = ground (arith, str_eq_iff alice k, str_eq_iff bob k, alice_is_not_bob)

sorted_string_same_example :
    balances_snapshot_std_sorted_string ledger ≡ balances_snapshot_std_sorted_string swapped
sorted_string_same_example =
    sorted_string_same ledger swapped ledger-IsMap swapped-IsMap same_entries
