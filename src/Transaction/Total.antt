-- ===== src/Transaction/Total.antt =====
-- The money in all accounts.
use cs425_mps.Base.{◌≤◌, ◌≡◌, ap, inl, inr, [], ◌∷◌, or_else, arith, All, Bool-cases, Bool-cases}
use cs425_mps.Base.Int.{ℤ, pos, pos_part, neg_part, ◌+ℤ◌, int_laws, +ℤ_nonneg}
use cs425_mps.Base.Text.{Str, str_eq}
use cs425_mps.Base.Dict.{Dict, lookup, insert}

-- The sum as an integer, with no wrap-around.
unfoldable pub total : Dict ℤ → ℤ
total [] = pos 0
total ((account, amount) ∷ m) = amount +ℤ total m

-- What an account holds: 0 if it does not exist.
abbrev pub balance : Str → Dict ℤ → ℤ
balance account m = or_else (lookup account m) (pos 0)

-- No account is in debt.
abbrev pub IsNonneg : Dict ℤ → Type 0
IsNonneg m = All (λ (e : Str × ℤ). neg_part e.1 ≡ 0) m

-- A write to one account changes the total by the change of that account.
pub total-insert :
    (account : Str) (amount : ℤ) (m : Dict ℤ)
    → total (insert account amount m) +ℤ balance account m ≡ total m +ℤ amount
unfolding total insert lookup
total-insert k v [] = omega int_laws
total-insert k v ((j, w) ∷ m) = elim (Bool-cases (str_eq j k)) [
  | inl same ↦ rw same (omega int_laws)
  | inr other ↦
      let ih = total-insert k v m in rw other (omega (int_laws, ap pos_part ih, ap neg_part ih))
]

pub IsNonneg-insert :
    (account : Str) (amount : ℤ) (m : Dict ℤ)
    → neg_part amount ≡ 0
    → IsNonneg m
    → IsNonneg (insert account amount m)
unfolding insert
IsNonneg-insert k v [] e h = (e, tt)
IsNonneg-insert k v ((j, w) ∷ m) e h = ground (arith, IsNonneg-insert k v m e h.1)

pub total_nonneg : (m : Dict ℤ) → IsNonneg m → neg_part (total m) ≡ 0
unfolding total
total_nonneg [] h = omega arith
total_nonneg ((j, w) ∷ m) h = (+ℤ_nonneg w (total m) h.0 (total_nonneg m h.1)).0

pub balance_nonneg : (account : Str) (m : Dict ℤ) → IsNonneg m → neg_part (balance account m) ≡ 0
unfolding lookup
balance_nonneg k [] h = omega arith
balance_nonneg k ((j, w) ∷ m) h = ground (arith, balance_nonneg k m h.1)

-- An account holds at most the total, if no account is in debt.
pub balance-le-total :
    (account : Str) (m : Dict ℤ) → IsNonneg m → pos_part (balance account m) ≤ pos_part (total m)
unfolding total lookup
balance-le-total k [] h = omega arith
balance-le-total k ((j, w) ∷ m) h =
    ground (arith, balance-le-total k m h.1, +ℤ_nonneg w (total m) h.0 (total_nonneg m h.1))
