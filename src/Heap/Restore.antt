-- ===== src/Heap/Restore.antt =====
-- What `down`, `Fix` and `Init` make of a state that is almost a heap.
use cs425_mps.Base.{ℕ, zero, suc, ◌+◌, ◌/◌, ◌≤◌, ◌<◌, ◌≡◌, refl, inl, inr, ltb, arith}
use native.Mathlib.Decide.{ℕ_discrete}
use cs425_mps.Base.Int.{pos}
use cs425_mps.Base.Run.{Returns, returns, Returns-bind, Returns-map, Returns-if}
use cs425_mps.Heap.{Interface, parent, down, fix, init_loop, init}
use cs425_mps.Heap.Order.{Laws, Le, IsHeap, IsHeapFrom, IsLoose, Keeps, Keeps-refl, Keeps-trans}
use cs425_mps.Heap.Up.{up_restores}
use cs425_mps.Heap.Down.{Settles, down_loop-Settles}

module _ {S E : Type 0} {h : Interface S E} (L : Laws h) where
  down-Settles :
      (lo : ℕ) (s : S) (n i : ℕ)
      → n ≤ h.len s
      → L.IsValid s
      → IsLoose L lo s n i
      → Returns (λ r. (j : ℕ) × (r.1 ≡ ltb i j) × Settles L lo s n i (r.0, j)) (down h s i n)
  unfolding down
  down-Settles lo s n i hn w v =
      Returns-bind (down_loop-Settles L (n + 1) lo s n i (omega arith) hn w v)
        λ r z. returns (r.1, refl, z)

  -- Where the edge above the start is in order too, `down` restores the whole order from `lo` on, and
  -- leaves the entries from `n` on alone.
  pub down_restores :
      (lo : ℕ) (s : S) (n i : ℕ)
      → n ≤ h.len s
      → L.IsValid s
      → IsLoose L lo s n i
      → (0 < i → i < n → lo ≤ parent i → Le L s (parent i) i)
      → Returns
          (λ r. Keeps L s r.0 × IsHeapFrom L lo r.0 n × ((c : ℕ) → n ≤ c → L.at r.0 c ≡ L.at s c))
          (down h s i n)
  down_restores lo s n i hn w v above =
      Returns-map (down-Settles lo s n i hn w v)
        λ r (j, e, z). (z.keeps, (λ c p q u. edge r.0 j z c p q u), z.beyond)
    where
      edge :
          (t : S) (j : ℕ)
          → Settles L lo s n i (t, j)
          → (c : ℕ) → 0 < c
          → c < n
          → lo ≤ parent c
          → Le L t (parent c) c
      edge t j z c p q u = elim (ℕ_discrete c i) [
        | no ne ↦ z.edges c p q u (inl ne)
        | yes e ↦ elim (ℕ_discrete j i) [
          | yes same ↦ rw (z.stays same, e) (above (omega arith) (omega arith) (rw (← e) u))
          | no ne ↦ z.edges c p q u (inr (omega (arith, z.lower)))
        ]
      ]

  -- `Fix` restores the order after any change of the entry at `i`.
  pub fix_restores :
      (s : S) (i : ℕ)
      → i < h.len s
      → L.IsValid s
      → IsLoose L 0 s (h.len s) i
      → Returns (λ t. Keeps L s t × IsHeap L t (h.len s)) (fix h s (pos i))
  unfolding fix
  fix_restores s i hi w v =
      Returns-bind (down-Settles 0 s (h.len s) i (omega arith) w v) λ r (j, e, z).
        Returns-if r.1 (λ moved. returns (z.keeps, λ c p q u. z.edges c p q u (inr (ground arith))))
          (λ stayed.
            let same : r.0 ≡ s = z.stays (ground (arith, z.lower)) in
            Returns-map
              (up_restores L r.0 (h.len s) i hi (omega (arith, z.keeps.1)) z.keeps.0 (record {
                edges = λ c p q ne. z.edges c p q (omega arith) (inl ne);
                bridged = rw same v.bridged;
              }))
              λ t (keeps, heap). (Keeps-trans L s r.0 t z.keeps keeps, heap))

  init_loop_orders :
      (i : ℕ) (s : S) (n : ℕ)
      → n ≤ h.len s
      → L.IsValid s
      → IsHeapFrom L i s n
      → Returns (λ t. Keeps L s t × IsHeap L t n) (init_loop h i s n)
  unfolding init_loop
  init_loop_orders zero s n hn w v = returns (Keeps-refl L s w, v)
  init_loop_orders (suc i) s n hn w v =
      Returns-bind
        (down_restores i s n i hn w
          (record {
            edges = λ c p q r u x. v c p q (omega arith);
            bridged = λ c p q r u x. absurd (omega arith);
          })
          (λ p q r. absurd (omega arith)))
        λ r (keeps, heap, _).
          Returns-map (init_loop_orders i r.0 n (omega (arith, keeps.1)) keeps.0 heap)
            λ t (keeps', heap'). (Keeps-trans L s r.0 t keeps keeps', heap')

  -- `Init` orders the entries of any valid state.
  pub init_orders :
      (s : S) → L.IsValid s → Returns (λ t. Keeps L s t × IsHeap L t (h.len s)) (init h s)
  unfolding init
  init_orders s w =
      init_loop_orders (h.len s / 2) s (h.len s) (omega arith) w (λ c p q r. absurd (omega arith))
