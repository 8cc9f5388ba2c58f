-- ===== src/Transaction.antt =====
-- lib/mp1/transaction/transaction.go: accounts and their balances. Amounts are Go's `int`.
pub mod Total
pub mod Solvent
pub mod Failure
pub mod Sort
pub mod Snapshot
mod Tests
use cs425_mps.Base.{
  ℕ, zero, suc, ◌+◌, ◌/◌, ◌%◌, Bool, true, false, Option, none, some, List, [], ◌∷◌, ◌++◌, map, ltb,
  if◌then◌else◌, or_else,
}
use cs425_mps.Base.Int.{ℤ, pos, negsuc, is_negative, add_int, sub_int}
use cs425_mps.Base.Text.{Str, codes, str_lt}
use cs425_mps.Base.Dict.{Dict, lookup, insert}
use cs425_mps.Strings.{format_int}
use cs425_mps.Base.Result.{Error, negative_amount, no_account, no_funds}

pub record Transaction : Type 0 where
  pub balances : Dict ℤ

unfoldable pub new_transaction : Transaction
new_transaction = record { balances = [] }

unfoldable pub deposit : Transaction → Str → ℤ → Transaction × Option Error
deposit t account amount =
    if is_negative amount then (t, some negative_amount) else elim (lookup account t.balances) [
      | none ↦ (record t { balances = insert account amount t.balances }, none)
      | some prev_amount ↦
          (record t { balances = insert account (add_int prev_amount amount) t.balances }, none)
    ]

-- The part of `Transfer` after its guards: both balances were read before the first write.
unfoldable pub move_funds : Transaction → Str → Str → ℤ → ℤ → Option ℤ → Transaction
move_funds t from_account to_account amount prev_from prev_to =
    let debited = insert from_account (sub_int prev_from amount) t.balances in
    elim prev_to [
      | none ↦ record t { balances = insert to_account amount debited }
      | some prev ↦ record t { balances = insert to_account (add_int prev amount) debited }
    ]

unfoldable pub transfer : Transaction → Str → Str → ℤ → Transaction × Option Error
transfer t from_account to_account amount =
    if is_negative amount
    then (t, some negative_amount)
    else elim (lookup from_account t.balances) [
      | none ↦ (t, some no_account)
      | some prev_from ↦ if is_negative (sub_int prev_from amount) then (t, some no_funds) else (
        move_funds t from_account to_account amount prev_from (lookup to_account t.balances),
        none,
      )
    ]

-- The loop copies each entry of the map.
unfoldable pub copy_loop : Dict ℤ → Dict ℤ → Dict ℤ
copy_loop copy [] = copy
copy_loop copy ((account, amount) ∷ m) = copy_loop (insert account amount copy) m

unfoldable pub balances_snapshot : Transaction → Dict ℤ
balances_snapshot t = copy_loop [] t.balances

-- ` account:amount`
unfoldable pub format_balance : Str → ℤ → Str
format_balance account amount = b' ' ∷ (account ++ (b':' ∷ format_int amount))

-- In the order in which the map is ranged over.
unfoldable pub format_loop : Dict ℤ → Str
format_loop [] = []
format_loop ((account, amount) ∷ m) = format_balance account amount ++ format_loop m

unfoldable pub balances_snapshot_std_string : Transaction → Str
balances_snapshot_std_string t = codes "BALANCES" ++ format_loop (balances_snapshot t)

-- `sort.Strings`: equal strings cannot be told apart, so any way to sort gives this list.
unfoldable pub sort_insert : Str → List Str → List Str
sort_insert x [] = x ∷ []
sort_insert x (y ∷ ys) = if str_lt y x then y ∷ sort_insert x ys else x ∷ y ∷ ys

unfoldable pub sort_strings : List Str → List Str
sort_strings [] = []
sort_strings (x ∷ xs) = sort_insert x (sort_strings xs)

-- The accounts of a map, as `range` gives them.
abbrev pub accounts : Dict ℤ → List Str
accounts = map (λ e. e.0)

-- A missing key of a Go map reads as 0.
unfoldable pub format_accounts : Dict ℤ → List Str → Str
format_accounts m [] = []
format_accounts m (account ∷ rest) =
    format_balance account (or_else (lookup account m) (pos 0)) ++ format_accounts m rest

unfoldable pub balances_snapshot_std_sorted_string : Transaction → Str
balances_snapshot_std_sorted_string t =
    let snapshot = balances_snapshot t in
    codes "BALANCES" ++ format_accounts snapshot (sort_strings (accounts snapshot))
