-- ===== src/Heap/Up.antt =====
-- `up` restores the heap order.
use cs425_mps.Base.{ℕ, zero, suc, ◌+◌, ◌≤◌, ◌<◌, ◌≡◌, ◌≢◌, true, ◌==◌, if◌then◌else◌, arith}
use cs425_mps.Base.Run.{Returns, returns, Returns-bind, Returns-map, Returns-if}
use cs425_mps.Heap.{Interface, parent, up_loop, up}
use cs425_mps.Heap.Order.{Laws, IsHeap, UpInv, Keeps, Keeps-refl, Keeps-trans}

module _ {S E : Type 0} {h : Interface S E} (L : Laws h) where
  swap-UpInv :
      (s t : S) (n i : ℕ)
      → UpInv L s n i
      → i < n
      → parent i ≢ i
      → L.order.lt (L.at s i) (L.at s (parent i)) ≡ true
      → ((c : ℕ)
          → L.at t c
            ≡ (if i == c then L.at s (parent i) else if parent i == c then L.at s i else L.at s c))
      → UpInv L t n (parent i)
  swap-UpInv s t n i v hi ne below at = record {
    edges = λ c p q r. ground (
      arith,
      at c,
      at (parent c),
      v.edges c,
      v.bridged c,
      L.order.lt_asymm (L.at s i) (L.at s (parent i)),
      L.order.le_trans (L.at s i) (L.at s (parent i)) (L.at s c),
    );
    bridged = λ c p q r u w. ground (
      arith,
      at c,
      at (parent (parent i)),
      v.edges c,
      v.edges (parent i),
      L.order.le_trans (L.at s (parent (parent i))) (L.at s (parent i)) (L.at s c),
    );
  }

  up_loop_restores :
      (k : ℕ) (s : S) (n i : ℕ)
      → i < k
      → i < n
      → n ≤ h.len s
      → L.IsValid s
      → UpInv L s n i
      → Returns (λ t. Keeps L s t × IsHeap L t n) (up_loop h k s i)
  unfolding up_loop
  up_loop_restores zero s n i f hi hn w v = absurd (omega arith)
  up_loop_restores (suc k) s n i f hi hn w v =
      Returns-if (parent i == i)
        (λ root. returns (Keeps-refl L s w, λ c p q r. v.edges c p q (ground arith)))
        (λ inner. rw (L.less-ok s i (parent i) w (omega arith) (omega arith)) (
          Returns-if (L.order.lt (L.at s i) (L.at s (parent i)))
            (λ below.
              Returns-bind (L.swap-ok s (parent i) i w (omega arith) (omega arith))
                λ t (tw, tl, same, at).
                  Returns-map
                    (up_loop_restores k t n (parent i) (ground arith) (omega arith) (omega arith) tw
                      (swap-UpInv s t n i v hi (ground arith) below at))
                    λ u (keeps, heap). (Keeps-trans L s t u (tw, tl, same) keeps, heap))
            (λ settled. returns (Keeps-refl L s w, λ c p q r. ground (arith, v.edges c)))))

  -- `up` turns a state with one entry too low in the tree into a heap of the same entries.
  pub up_restores :
      (s : S) (n i : ℕ)
      → i < n
      → n ≤ h.len s
      → L.IsValid s
      → UpInv L s n i
      → Returns (λ t. Keeps L s t × IsHeap L t n) (up h s i)
  unfolding up
  up_restores s n i hi hn w v = up_loop_restores (i + 1) s n i (omega arith) hi hn w v
