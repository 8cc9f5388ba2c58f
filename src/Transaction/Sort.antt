-- ===== src/Transaction/Sort.antt =====
-- `sort.Strings` on distinct strings.
use mathlib.Core.Path.{subst, ap₂}
use cs425_mps.Base.{
  ◌≡◌, refl, sym, ◌∙◌, ◌↔◌, ◌⊎◌, inl, inr, true, List, [], ◌∷◌, arith, Bool-cases, All,
}
use cs425_mps.Base.Text.{Str, str_lt, str_lt_irrefl, str_lt_trans, str_lt_total}
use cs425_mps.Transaction.{sort_insert, sort_strings}

-- Every entry is less than those behind it.
abbrev pub IsStrict : List Str → Type 0
IsStrict [] = Unit
IsStrict (x ∷ xs) = All (λ y. str_lt x y ≡ true) xs × IsStrict xs

-- The string stands in the list.
abbrev pub Among : Str → List Str → Type 0
Among z [] = ⊥
Among z (x ∷ xs) = (z ≡ x) ⊎ Among z xs

abbrev pub IsDistinct : List Str → Type 0
IsDistinct [] = Unit
IsDistinct (x ∷ xs) = (¬ Among x xs) × IsDistinct xs

All-sort_insert :
    (P : Str → Type 0) (x : Str) (ys : List Str) → P x → All P ys → All P (sort_insert x ys)
unfolding sort_insert
All-sort_insert P x [] p h = (p, tt)
All-sort_insert P x (y ∷ ys) p h = elim (Bool-cases (str_lt y x)) [
  | inl below ↦ rw below (h.0, All-sort_insert P x ys p h.1)
  | inr above ↦ rw above (p, h)
]

below-All :
    (x y : Str) (ys : List Str)
    → str_lt x y ≡ true
    → All (λ z. str_lt y z ≡ true) ys
    → All (λ z. str_lt x z ≡ true) ys
below-All x y [] h a = tt
below-All x y (z ∷ ys) h a = (str_lt_trans x y z h a.0, below-All x y ys h a.1)

sort_insert-IsStrict :
    (x : Str) (ys : List Str) → ¬ Among x ys → IsStrict ys → IsStrict (sort_insert x ys)
unfolding sort_insert
sort_insert-IsStrict x [] n h = (tt, tt)
sort_insert-IsStrict x (y ∷ ys) n h = elim (Bool-cases (str_lt y x)) [
  | inl below ↦ rw below (
    All-sort_insert (λ z. str_lt y z ≡ true) x ys below h.0,
    sort_insert-IsStrict x ys (λ i. n (inr i)) h.1,
  )
  | inr above ↦
      let first : str_lt x y ≡ true = elim (Bool-cases (str_lt x y)) [
        | inl e ↦ e
        | inr e ↦ absurd (n (inl (str_lt_total x y e above)))
      ] in
      rw above ((first, below-All x y ys first h.0), h)
]

Among-sort_insert :
    (x z : Str) (ys : List Str) → Among z (sort_insert x ys) ↔ ((z ≡ x) ⊎ Among z ys)
unfolding sort_insert
Among-sort_insert x z [] = (λ i. i, λ i. i)
Among-sort_insert x z (y ∷ ys) = elim (Bool-cases (str_lt y x)) [
  | inl below ↦
      let ih = Among-sort_insert x z ys in
      rw below (λ i. ground (arith, ih.0), λ i. ground (arith, ih.1))
  | inr above ↦ rw above (λ i. i, λ i. i)
]

-- Sorting keeps the entries.
pub Among-sort_strings : (z : Str) (xs : List Str) → Among z (sort_strings xs) ↔ Among z xs
unfolding sort_strings
Among-sort_strings z [] = (λ i. i, λ i. i)
Among-sort_strings z (x ∷ xs) =
    let ih = Among-sort_strings z xs in
    let step = Among-sort_insert x z (sort_strings xs) in
    (λ i. ground (arith, step.0 i, ih.0), λ i. step.1 (ground (arith, ih.1)))

-- Distinct entries are sorted strictly.
pub sort_strings-IsStrict : (xs : List Str) → IsDistinct xs → IsStrict (sort_strings xs)
unfolding sort_strings
sort_strings-IsStrict [] h = tt
sort_strings-IsStrict (x ∷ xs) h =
    sort_insert-IsStrict x (sort_strings xs) (λ i. h.0 ((Among-sort_strings x xs).0 i))
      (sort_strings-IsStrict xs h.1)

All-Among : (P : Str → Type 0) (z : Str) (xs : List Str) → All P xs → Among z xs → P z
All-Among P z [] h i = absurd i
All-Among P z (x ∷ xs) h (inl e) = subst P (sym e) h.0
All-Among P z (x ∷ xs) h (inr i) = All-Among P z xs h.1 i

-- Two strictly sorted lists of the same entries are the same.
pub strict_unique :
    (xs ys : List Str) → IsStrict xs → IsStrict ys → ((z : Str) → Among z xs ↔ Among z ys) → xs ≡ ys
strict_unique [] [] h k same = refl
strict_unique [] (y ∷ ys) h k same = absurd ((same y).1 (inl refl))
strict_unique (x ∷ xs) [] h k same = absurd ((same x).0 (inl refl))
strict_unique (x ∷ xs) (y ∷ ys) h k same =
    let heads : x ≡ y = head ((same x).0 (inl refl)) ((same y).1 (inl refl)) in
    ap₂ ◌∷◌ heads (strict_unique xs ys h.1 k.1 (λ z. (forward z heads, backward z heads)))
  where
    head : (x ≡ y) ⊎ Among x ys → (y ≡ x) ⊎ Among y xs → x ≡ y
    head (inl e) j = e
    head (inr i) (inl e) = sym e
    head (inr i) (inr j) =
        let yx = All-Among (λ z. str_lt y z ≡ true) x ys k.0 i in
        let xy = All-Among (λ z. str_lt x z ≡ true) y xs h.0 j in
        absurd (ground (arith, str_lt_trans x y x xy yx, str_lt_irrefl x))

    forward : (z : Str) → x ≡ y → Among z xs → Among z ys
    forward z e i = elim ((same z).0 (inr i)) [
      | inl f ↦
          let lt = All-Among (λ w. str_lt x w ≡ true) z xs h.0 i in
          let self : z ≡ x = f ∙ sym e in absurd (ground (arith, str_lt_irrefl x, lt, self))
      | inr j ↦ j
    ]

    backward : (z : Str) → x ≡ y → Among z ys → Among z xs
    backward z e i = elim ((same z).1 (inr i)) [
      | inl f ↦
          let lt = All-Among (λ w. str_lt y w ≡ true) z ys k.0 i in
          let self : z ≡ y = f ∙ e in absurd (ground (arith, str_lt_irrefl y, lt, self))
      | inr j ↦ j
    ]
