-- ===== src/Transaction/Snapshot.antt =====
-- The sorted snapshot does not depend on the order in which Go ranges over the map.
use cs425_mps.Base.{
  ◌≡◌, refl, sym, ◌∙◌, ◌≢◌, ◌↔◌, inl, inr, none, some, List, [], ◌∷◌, arith, Bool-cases,
}
use cs425_mps.Base.Int.{ℤ}
use cs425_mps.Base.Text.{Str, str_eq, str_eq_iff}
use cs425_mps.Base.Dict.{Dict, lookup, insert, lookup-insert, IsMap, insert-IsMap}
use cs425_mps.Transaction.Sort.{
  Among, IsDistinct, Among-sort_strings, sort_strings-IsStrict, strict_unique,
}
use cs425_mps.Transaction.{
  Transaction, copy_loop, balances_snapshot, sort_strings, accounts, format_accounts,
  balances_snapshot_std_sorted_string,
}

copy_loop-IsMap : (c m : Dict ℤ) → IsMap c → IsMap (copy_loop c m)
unfolding copy_loop
copy_loop-IsMap c [] h = h
copy_loop-IsMap c ((k, v) ∷ m) h = copy_loop-IsMap (insert k v c) m (insert-IsMap k v c h)

-- The entries of the copied map win over those that stood in the copy.
lookup-copy_loop :
    (j : Str) (c m : Dict ℤ)
    → IsMap m
    → lookup j (copy_loop c m) ≡ elim (lookup j m) [ none ↦ lookup j c | some v ↦ some v ]
unfolding copy_loop lookup
lookup-copy_loop j c [] h = refl
lookup-copy_loop j c ((k, v) ∷ m) h =
    ground (arith, lookup-copy_loop j (insert k v c) m h.1, lookup-insert k j v c, str_eq_iff k j)

-- The copy is a map with the same entries.
lookup-balances_snapshot :
    (j : Str) (t : Transaction)
    → IsMap t.balances
    → lookup j (balances_snapshot t) ≡ lookup j t.balances
unfolding balances_snapshot lookup
lookup-balances_snapshot j t h = ground (arith, lookup-copy_loop j [] t.balances h)

accounts_held : (k : Str) (m : Dict ℤ) → Among k (accounts m) ↔ (lookup k m ≢ none)
unfolding lookup
accounts_held k [] = (λ i. absurd i, λ h. absurd (h refl))
accounts_held k ((j, v) ∷ m) = elim (Bool-cases (str_eq j k)) [
  | inl same ↦ let e = (str_eq_iff j k).0 same in (λ i h. ground (arith, same, h), λ h. inl (sym e))
  | inr other ↦
      let ih = accounts_held k m in
      (
        λ i h. ih.0 (ground (arith, str_eq_iff j k)) (ground (arith, other, h)),
        λ h. inr (ih.1 (λ e. h (rw (other, e)))),
      )
]

accounts-IsDistinct : (m : Dict ℤ) → IsMap m → IsDistinct (accounts m)
accounts-IsDistinct [] h = tt
accounts-IsDistinct ((k, v) ∷ m) h = (λ i. (accounts_held k m).0 i h.0, accounts-IsDistinct m h.1)

-- Two maps with the same entries, such as those of two replicas.
abbrev pub SameEntries : Dict ℤ → Dict ℤ → Type 0
SameEntries m n = (k : Str) → lookup k m ≡ lookup k n

sorted_accounts :
    (m n : Dict ℤ)
    → IsMap m
    → IsMap n
    → SameEntries m n
    → sort_strings (accounts m) ≡ sort_strings (accounts n)
sorted_accounts m n h k same =
    strict_unique (sort_strings (accounts m)) (sort_strings (accounts n))
      (sort_strings-IsStrict (accounts m) (accounts-IsDistinct m h))
      (sort_strings-IsStrict (accounts n) (accounts-IsDistinct n k))
      λ z. (moves m n z same, moves n m z (λ j. sym (same j)))
  where
    moves :
        (m n : Dict ℤ) (z : Str)
        → SameEntries m n
        → Among z (sort_strings (accounts m))
        → Among z (sort_strings (accounts n))
    moves m n z same i =
        let held = (accounts_held z m).0 ((Among-sort_strings z (accounts m)).0 i) in
        (Among-sort_strings z (accounts n)).1 ((accounts_held z n).1 (λ e. held (same z ∙ e)))

format_accounts_same :
    (m n : Dict ℤ) (ks : List Str) → SameEntries m n → format_accounts m ks ≡ format_accounts n ks
unfolding format_accounts
format_accounts_same m n [] same = refl
format_accounts_same m n (k ∷ ks) same = rw (same k, format_accounts_same m n ks same)

-- Two ledgers with the same entries print the same sorted snapshot, in whatever order their maps
-- are ranged over.
pub sorted_string_same :
    (t u : Transaction)
    → IsMap t.balances
    → IsMap u.balances
    → SameEntries t.balances u.balances
    → balances_snapshot_std_sorted_string t ≡ balances_snapshot_std_sorted_string u
unfolding balances_snapshot_std_sorted_string balances_snapshot
sorted_string_same t u h k same =
    let left = copy_loop-IsMap [] t.balances tt in
    let right = copy_loop-IsMap [] u.balances tt in
    let entries : SameEntries (balances_snapshot t) (balances_snapshot u) =
      λ j. lookup-balances_snapshot j t h ∙ same j ∙ sym (lookup-balances_snapshot j u k) in
    rw (
      sorted_accounts (balances_snapshot t) (balances_snapshot u) left right entries,
      format_accounts_same (balances_snapshot t) (balances_snapshot u)
          (sort_strings (accounts (balances_snapshot u))) entries,
    )
