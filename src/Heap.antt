-- ===== src/Heap.antt =====
-- The part of Go's container/heap that the hold queue calls: `Init`, `Push`, `Pop` and `Fix` over an
-- interface of five methods, and the loops `up` and `down`. Indices stay below the length of a
-- slice, so the overflow test of `down` (`j1 < 0`) never fires and is left out.
pub mod Order
pub mod Up
pub mod Down
pub mod Restore
use cs425_mps.Base.{
  ℕ, zero, suc, ◌+◌, ◌-◌, ◌*◌, ◌/◌, Bool, true, false, ltb, leb, ◌==◌, if◌then◌else◌,
}
use cs425_mps.Base.Int.{ℤ, pos, negsuc}
use cs425_mps.Base.Run.{Run, ok, panic, out_of_fuel, ◌>>=◌}

-- `heap.Interface`: a method that writes returns the new state.
pub record Interface (S E : Type 0) : Type 0 where
  pub len : S → ℕ
  pub less : S → ℕ → ℕ → Run Bool
  pub swap : S → ℕ → ℕ → Run S
  pub push : E → S → Run S
  pub pop : S → Run (E × S)

abbrev pub parent : ℕ → ℕ
parent c = (c - 1) / 2

module _ {S E : Type 0} (h : Interface S E) where
  up_loop : ℕ → S → ℕ → Run S
  up_loop zero s j = out_of_fuel
  up_loop (suc k) s j =
      let rise = h.swap s (parent j) j >>= λ t. up_loop k t (parent j) in
      let step = h.less s j (parent j) >>= λ below. if below then rise else ok s in
      if parent j == j then ok s else step

  unfoldable pub up : S → ℕ → Run S
  unfolding up_loop
  up s j = up_loop (j + 1) s j

  -- The right child is read only if it lies below `n`.
  smaller_child : S → ℕ → ℕ → Run ℕ
  smaller_child s i n =
      let left = 2 * i + 1 in
      if ltb (left + 1) n
      then (do right_less ← h.less s (left + 1) left; ok (if right_less then left + 1 else left))
      else ok left

  -- Also returns where the entry comes to rest.
  unfoldable pub down_loop : ℕ → S → ℕ → ℕ → Run (S × ℕ)
  unfolding smaller_child
  down_loop zero s i n = out_of_fuel
  down_loop (suc k) s i n =
      let step : Run (S × ℕ) = do
        j ← smaller_child s i n
        below ← h.less s j i
        let sink = h.swap s i j >>= λ t. down_loop k t j n
        if below then sink else ok (s, i)
      in if leb n (2 * i + 1) then ok (s, i) else step

  unfoldable pub down : S → ℕ → ℕ → Run (S × Bool)
  down s i n = do (t, j) ← down_loop (n + 1) s i n; ok (t, ltb i j)

  -- The loop of `Init`, from the last parent to the root.
  unfoldable pub init_loop : ℕ → S → ℕ → Run S
  init_loop zero s n = ok s
  init_loop (suc i) s n = down s i n >>= λ (t, _). init_loop i t n

  unfoldable pub init : S → Run S
  init s = init_loop (h.len s / 2) s (h.len s)

  unfoldable pub heap_push : S → E → Run S
  heap_push s x = do t ← h.push x s; up t (h.len t - 1)

  unfoldable pub heap_pop : S → Run (E × S)
  heap_pop s = do let n = h.len s - 1; t ← h.swap s 0 n; (u, _) ← down t 0 n; h.pop u

  -- At the index -1 of an entry that has left the queue, both loops stop at once; below it, the
  -- first comparison panics.
  unfoldable pub fix : S → ℤ → Run S
  fix s (pos i) = do (t, moved) ← down s i (h.len s); if moved then ok t else up t i
  fix s (negsuc zero) = ok s
  fix s (negsuc (suc k)) = panic
