-- ===== src/Base/Dict.antt =====
-- Go maps with string keys, as association lists. The order of a `range` over a map is the order of
-- the list, which a state may hold in any order.
use mathlib.Core.Path.{◌≡◌, refl}
use mathlib.Core.Bool.{false}
use mathlib.Core.List.{List, [], ◌∷◌, ◌++◌}
use mathlib.Core.Option.{Option, none, some}
use native.Mathlib.Omega.{arith}
use cs425_mps.Base.Tests.{if◌then◌else◌}
use cs425_mps.Base.Text.{Str, str_eq, str_eq_iff, str_eq_refl}

abbrev pub Dict {ℓ} : Type ℓ → Type ℓ
Dict V = List (Str × V)

module _ {ℓ} {V : Type ℓ} where
  unfoldable pub lookup : Str → Dict V → Option V
  lookup k [] = none
  lookup k ((j, v) ∷ m) = if str_eq j k then some v else lookup k m

  unfoldable pub insert : Str → V → Dict V → Dict V
  insert k v [] = (k, v) ∷ []
  insert k v ((j, w) ∷ m) = if str_eq j k then (k, v) ∷ m else (j, w) ∷ insert k v m

  unfoldable pub delete : Str → Dict V → Dict V
  delete k [] = []
  delete k ((j, w) ∷ m) = if str_eq j k then delete k m else (j, w) ∷ delete k m

  pub lookup-insert :
      (k j : Str) (v : V) (m : Dict V)
      → lookup j (insert k v m) ≡ (if str_eq k j then some v else lookup j m)
  unfolding lookup insert
  lookup-insert k j v [] = refl
  lookup-insert k j v ((i, w) ∷ m) =
      ground (arith, str_eq_iff k j, str_eq_iff i k, str_eq_iff i j, lookup-insert k j v m)

  pub lookup-insert_self : (k : Str) (v : V) (m : Dict V) → lookup k (insert k v m) ≡ some v
  lookup-insert_self k v m = simp (lookup-insert, str_eq_refl)

  pub lookup-delete :
      (k j : Str) (m : Dict V) → lookup j (delete k m) ≡ (if str_eq k j then none else lookup j m)
  unfolding lookup delete
  lookup-delete k j [] = ground arith
  lookup-delete k j ((i, w) ∷ m) =
      ground (arith, str_eq_iff k j, str_eq_iff i k, str_eq_iff i j, lookup-delete k j m)

-- No key stands twice, as in every Go map.
abbrev pub IsMap {ℓ} : {V : Type ℓ} → Dict V → Type ℓ
IsMap [] = Unit
IsMap ((k, v) ∷ m) = (lookup k m ≡ none) × IsMap m

pub insert-IsMap {ℓ} : {V : Type ℓ} (k : Str) (v : V) (m : Dict V) → IsMap m → IsMap (insert k v m)
unfolding insert lookup
insert-IsMap k v [] h = (refl, tt)
insert-IsMap k v ((j, w) ∷ m) h =
    ground (arith, str_eq_iff j k, str_eq_iff k j, insert-IsMap k v m h.1, lookup-insert k j v m)

module _ {ℓ} {V : Type ℓ} where
  pub insert-middle :
      (k : Str) (c d : V) (front rest : Dict V)
      → lookup k front ≡ none
      → insert k d (front ++ (k, c) ∷ rest) ≡ front ++ (k, d) ∷ rest
  unfolding insert lookup
  insert-middle k c d [] rest h = rw (str_eq_refl k)
  insert-middle k c d ((j, e) ∷ front) rest h = ground (arith, insert-middle k c d front rest)

  delete-absent : (k : Str) (m : Dict V) → lookup k m ≡ none → delete k m ≡ m
  unfolding delete lookup
  delete-absent k [] h = refl
  delete-absent k ((j, e) ∷ m) h = ground (arith, delete-absent k m)

  pub delete-middle :
      (k : Str) (c : V) (front rest : Dict V)
      → lookup k front ≡ none
      → lookup k rest ≡ none
      → delete k (front ++ (k, c) ∷ rest) ≡ front ++ rest
  unfolding delete lookup
  delete-middle k c [] rest h g = ground (arith, str_eq_refl k, delete-absent k rest g)
  delete-middle k c ((j, e) ∷ front) rest h g = ground (arith, delete-middle k c front rest)

  pub lookup-snoc :
      (k j : Str) (d : V) (front : Dict V)
      → lookup k front ≡ none
      → str_eq j k ≡ false
      → lookup k (front ++ (j, d) ∷ []) ≡ none
  unfolding lookup
  lookup-snoc k j d [] h ne = ground arith
  lookup-snoc k j d ((i, e) ∷ front) h ne = ground (arith, lookup-snoc k j d front)

  -- No key of the second map stands in the first: what a loop over a map has left, and what it is done
  -- with.
  abbrev pub Apart : Dict V → Dict V → Type ℓ
  Apart front [] = Unit
  Apart front ((k, c) ∷ m) = (lookup k front ≡ none) × Apart front m

  pub Apart-snoc :
      (front m : Dict V) (k : Str) (d : V)
      → lookup k m ≡ none
      → Apart front m
      → Apart (front ++ (k, d) ∷ []) m
  unfolding lookup
  Apart-snoc front [] k d h a = tt
  Apart-snoc front ((j, c) ∷ m) k d h a = (
    lookup-snoc j k d front a.0 (ground (arith, str_eq_iff j k, str_eq_iff k j)),
    Apart-snoc front m k d (ground arith) a.1,
  )

  pub none-Apart : (m : Dict V) → Apart [] m
  unfolding lookup
  none-Apart [] = tt
  none-Apart ((k, c) ∷ m) = (refl, none-Apart m)

  pub delete-IsMap : (k : Str) (m : Dict V) → IsMap m → IsMap (delete k m)
  unfolding delete lookup
  delete-IsMap k [] h = tt
  delete-IsMap k ((j, w) ∷ m) (new, h) = ground (arith, delete-IsMap k m h, lookup-delete k j m)
