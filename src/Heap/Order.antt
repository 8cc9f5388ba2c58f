-- ===== src/Heap/Order.antt =====
-- The laws of a heap's methods, and the heap order that they keep.
use cs425_mps.Base.{
  ℕ, zero, suc, ◌≤◌, ◌<◌, ◌≡◌, refl, ◌≢◌, Bool, true, false, ◌==◌, if◌then◌else◌, arith,
}
use cs425_mps.Base.Run.{ok, Returns}
use cs425_mps.Heap.{Interface, parent}

-- A strict weak order.
pub record Order (K : Type 0) : Type 0 where
  pub lt : K → K → Bool
  pub lt_asymm : (a b : K) → lt a b ≡ true → lt b a ≡ false
  pub le_trans : (a b c : K) → lt b a ≡ false → lt c b ≡ false → lt c a ≡ false

-- What `Less` and `Swap` do on a valid state, seen through the entry `at` each index. `Same` relates
-- two states that hold the same entries.
pub record Laws {S E : Type 0} (h : Interface S E) : Type 1 where
  pub Entry : Type 0
  pub order : Order Entry
  pub at : S → ℕ → Entry
  pub IsValid : S → Type 0
  pub Same : S → S → Type 0
  pub Same-refl : (s : S) → Same s s
  pub Same-trans : (s t u : S) → Same s t → Same t u → Same s u
  pub less-ok :
      (s : S) (i j : ℕ)
      → IsValid s
      → i < h.len s
      → j < h.len s
      → h.less s i j ≡ ok (order.lt (at s i) (at s j))
  pub swap-ok :
      (s : S) (i j : ℕ)
      → IsValid s
      → i < h.len s
      → j < h.len s
      → Returns
          (λ t.
            IsValid t
            × (h.len t ≡ h.len s)
            × Same s t
            × ((c : ℕ) → at t c ≡ (if j == c then at s i else if i == c then at s j else at s c)))
          (h.swap s i j)

module _ {S E : Type 0} {h : Interface S E} (L : Laws h) where
  -- The entry at `i` does not come after the one at `j`.
  abbrev pub Le : S → ℕ → ℕ → Type 0
  Le s i j = L.order.lt (L.at s j) (L.at s i) ≡ false

  -- Every edge of the tree below `n` whose parent is at `lo` or later is in order.
  abbrev pub IsHeapFrom : ℕ → S → ℕ → Type 0
  IsHeapFrom lo s n = (c : ℕ) → 0 < c → c < n → lo ≤ parent c → Le s (parent c) c

  abbrev pub IsHeap : S → ℕ → Type 0
  IsHeap s n = IsHeapFrom 0 s n

  -- The edges past `i`, from its parent to its children, are in order.
  abbrev pub IsBridged : ℕ → S → ℕ → ℕ → Type 0
  IsBridged lo s n i =
      (c : ℕ) → 0 < c → c < n → parent c ≡ i → 0 < i → lo ≤ parent i → Le s (parent i) c

  -- Only the edges at `i` may be out of order.
  pub record IsLoose (lo : ℕ) (s : S) (n i : ℕ) : Type 0 where
    pub edges : (c : ℕ) → 0 < c → c < n → lo ≤ parent c → c ≢ i → parent c ≢ i → Le s (parent c) c
    pub bridged : IsBridged lo s n i

  -- Only the edge above `i` may be out of order.
  pub record UpInv (s : S) (n i : ℕ) : Type 0 where
    pub edges : (c : ℕ) → 0 < c → c < n → c ≢ i → Le s (parent c) c
    pub bridged : IsBridged 0 s n i

  -- `t` is a valid state of the entries of `s`.
  abbrev pub Keeps : S → S → Type 0
  Keeps s t = L.IsValid t × (h.len t ≡ h.len s) × L.Same s t

  pub Keeps-refl : (s : S) → L.IsValid s → Keeps s s
  Keeps-refl s v = (v, refl, L.Same-refl s)

  pub Keeps-trans : (s t u : S) → Keeps s t → Keeps t u → Keeps s u
  Keeps-trans s t u (v, e, p) (w, f, q) = (w, ground arith, L.Same-trans s t u p q)

  root_least_below : (k : ℕ) (s : S) (n i : ℕ) → IsHeap s n → i < k → i < n → Le s 0 i
  root_least_below zero s n i hp f p = absurd (omega arith)
  root_least_below (suc k) s n zero hp f p = ground (arith, L.order.lt_asymm (L.at s 0) (L.at s 0))
  root_least_below (suc k) s n (suc i) hp f p =
      let c = suc i in
      L.order.le_trans (L.at s 0) (L.at s (parent c)) (L.at s c)
        (root_least_below k s n (parent c) hp (omega arith) (omega arith))
        (hp c (omega arith) p (omega arith))

  -- No entry comes before the root of a heap.
  pub root_least : (s : S) (n i : ℕ) → IsHeap s n → i < n → Le s 0 i
  root_least s n i hp p = root_least_below (suc i) s n i hp (omega arith) p
