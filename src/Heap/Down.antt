-- ===== src/Heap/Down.antt =====
-- `down` restores the heap order, or leaves a state that only its start breaks.
use cs425_mps.Base.{
  ℕ, zero, suc, ◌+◌, ◌-◌, ◌*◌, ◌≤◌, ◌<◌, ◌≡◌, refl, ◌≢◌, ◌⊎◌, inl, inr, true, ◌==◌, ltb, leb,
  if◌then◌else◌, arith,
}
use native.Mathlib.Decide.{ℕ_discrete}
use cs425_mps.Base.Run.{Returns, returns, Returns-bind, Returns-map, Returns-if}
use cs425_mps.Heap.{Interface, parent, smaller_child, down_loop}
use cs425_mps.Heap.Order.{Laws, Le, IsLoose, Keeps, Keeps-refl, Keeps-trans}

module _ {S E : Type 0} {h : Interface S E} (L : Laws h) where
  -- `m` is the child of `i` below `n` that comes first.
  record IsSmallerChild (s : S) (i n m : ℕ) : Type 0 where
    inside : m < n
    child : (m ≡ 2 * i + 1) ⊎ (m ≡ 2 * i + 2)
    least : (c : ℕ) → 0 < c → c < n → parent c ≡ i → Le L s m c

  -- How `down` from `i` ends, at `j`: the order is restored below `n`, but that a round without a
  -- swap leaves the state as it was, the edge above `i` included. Entries from `n` on stay.
  pub record Settles (lo : ℕ) (s : S) (n i : ℕ) (r : S × ℕ) : Type 0 where
    pub keeps : Keeps L s r.0
    pub lower : i ≤ r.1
    pub stays : r.1 ≡ i → r.0 ≡ s
    pub edges :
        (c : ℕ) → 0 < c → c < n → lo ≤ parent c → (c ≢ i) ⊎ (i < r.1) → Le L r.0 (parent c) c
    pub beyond : (c : ℕ) → n ≤ c → L.at r.0 c ≡ L.at s c

  smaller_child_lem :
      (s : S) (i n : ℕ)
      → L.IsValid s
      → n ≤ h.len s
      → 2 * i + 1 < n
      → Returns (IsSmallerChild s i n) (smaller_child h s i n)
  unfolding smaller_child
  smaller_child_lem s i n v hn p =
      let right = 2 * i + 1 + 1 in
      let left = 2 * i + 1 in
      Returns-if (ltb right n)
        (λ two.
          rw (L.less-ok s right left v (ground arith) (omega arith))
            (returns (ground (arith, pick right left (ground arith)))))
        (λ one. returns (record {
          inside = p;
          child = inl refl;
          least = λ c q r e. ground (arith, L.order.lt_asymm (L.at s left) (L.at s left));
        }))
    where
      pick :
          (right left : ℕ)
          → (right < n) × (right ≡ 2 * i + 2) × (left ≡ 2 * i + 1)
          → IsSmallerChild s i n (if L.order.lt (L.at s right) (L.at s left) then right else left)
      pick right left e = record {
        inside = ground arith;
        child = ground arith;
        least = λ c q r u. ground (
          arith,
          L.order.lt_asymm (L.at s right) (L.at s left),
          L.order.lt_asymm (L.at s right) (L.at s right),
          L.order.lt_asymm (L.at s left) (L.at s left),
        );
      }

  swap-IsLoose :
      (lo : ℕ) (s t : S) (n i m : ℕ)
      → IsLoose L lo s n i
      → IsSmallerChild s i n m
      → L.order.lt (L.at s m) (L.at s i) ≡ true
      → ((c : ℕ) → L.at t c ≡ (if m == c then L.at s i else if i == c then L.at s m else L.at s c))
      → IsLoose L lo t n m
        × ((c : ℕ) → 0 < c → c < n → lo ≤ parent c → parent c ≢ m → Le L t (parent c) c)
  swap-IsLoose lo s t n i m v k below at = (
    record {
      edges = λ c p q r u w. others c p q r w;
      bridged = λ c p q r u w. ground (arith, at c, at (parent m), v.edges c);
    },
    others,
  )
    where
      others : (c : ℕ) → 0 < c → c < n → lo ≤ parent c → parent c ≢ m → Le L t (parent c) c
      others c p q r u = ground (
        arith,
        at c,
        at (parent c),
        v.edges c,
        v.bridged m,
        k.least c,
        L.order.lt_asymm (L.at s m) (L.at s i),
      )

  -- After a swap with the child `m`, what the rest of the loop settles is settled.
  sink :
      (s t : S) (n i m lo : ℕ)
      → IsSmallerChild s i n m
      → Keeps L s t
      → ((c : ℕ) → L.at t c ≡ (if m == c then L.at s i else if i == c then L.at s m else L.at s c))
      → ((c : ℕ) → 0 < c → c < n → lo ≤ parent c → parent c ≢ m → Le L t (parent c) c)
      → (r : S × ℕ) → Settles lo t n m r
      → Settles lo s n i r
  sink s t n i m lo k keeps at others r z = record {
    keeps = Keeps-trans L s t r.0 keeps z.keeps;
    lower = omega (arith, k.child, z.lower);
    stays = λ e. absurd (omega (arith, k.child, z.lower));
    edges = λ d p q u _. edge d p q u;
    beyond = λ d p. ground (arith, at d, z.beyond d, k.inside, k.child);
  }
    where
      edge : (d : ℕ) → 0 < d → d < n → lo ≤ parent d → Le L r.0 (parent d) d
      edge d p q u = elim (ℕ_discrete d m) [
        | no ne ↦ z.edges d p q u (inl ne)
        | yes e ↦ elim (ℕ_discrete r.1 m) [
          | yes same ↦ rw (z.stays same) (others d p q u (omega (arith, k.child)))
          | no ne ↦ z.edges d p q u (inr (omega (arith, z.lower)))
        ]
      ]

  pub down_loop-Settles :
      (k lo : ℕ) (s : S) (n i : ℕ)
      → n - i < k
      → n ≤ h.len s
      → L.IsValid s
      → IsLoose L lo s n i
      → Returns (Settles lo s n i) (down_loop h k s i n)
  unfolding down_loop
  down_loop-Settles zero lo s n i f hn w v = absurd (omega arith)
  down_loop-Settles (suc k) lo s n i f hn w v =
      Returns-if (leb n (2 * i + 1))
        (λ leaf. returns (record {
          keeps = Keeps-refl L s w;
          lower = omega arith;
          stays = λ _. refl;
          edges = λ c p q r u. v.edges c p q r (omega arith) (ground arith);
          beyond = λ c p. refl;
        }))
        (λ inner. Returns-bind (smaller_child_lem s i n w hn (ground arith)) λ m c.
          let hm : m < h.len s = omega (arith, c.inside) in
          let hi : i < h.len s = ground arith in
          rw (L.less-ok s m i w hm hi) (
            Returns-if (L.order.lt (L.at s m) (L.at s i))
              (λ below. Returns-bind (L.swap-ok s i m w hi hm) λ t (tw, tl, same, at).
                let (loose, others) = swap-IsLoose lo s t n i m v c below at in
                Returns-map
                  (down_loop-Settles k lo t n m (omega (arith, c.child)) (omega arith) tw loose)
                  (sink s t n i m lo c (tw, tl, same) at others))
              (λ settled. returns (record {
                keeps = Keeps-refl L s w;
                lower = omega arith;
                stays = λ _. refl;
                edges = λ d p q r u. ground (
                  arith,
                  v.edges d p q r,
                  c.least d,
                  L.order.le_trans (L.at s i) (L.at s m) (L.at s d),
                );
                beyond = λ c p. refl;
              }))))
