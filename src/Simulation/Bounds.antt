-- ===== src/Simulation/Bounds.antt =====
-- cli/r-multicast/main.go: how much main sends, and how long it runs.
use cs425_mps.Base.{
  ℕ, ◌+◌, ◌*◌, ◌%◌, ◌^◌, ◌≤◌, ◌<◌, some, List, ◌≡◌, length, ltb, arith, inl, inr, Bool-cases,
}
use cs425_mps.Base.Int.{pos}
use cs425_mps.Base.Text.{Str, codes}
use cs425_mps.Base.Run.{ok}
use cs425_mps.Simulation.{G, Action, bm, new_g, start}
use cs425_mps.Simulation.Counts.{count, arrows, deliveries}
use cs425_mps.Simulation.Sums.{grid-count, grid-le, grid-quota, quota}
use cs425_mps.Simulation.Invariant.{Runs, Valid, Runs-Valid}
use cs425_mps.Simulation.Initial.{bm-Valid}

abbrev pub message : Str
message = codes "msg"

pub start-inv :
    (n src : ℕ) (g : G)
    → start (pos n) (pos src) ≡ ok (some g)
    → (src < n) × (bm (new_g n) src message ≡ some g)
unfolding start
start-inv n src g e = elim (Bool-cases (ltb src n)) [
  | inl inside ↦ (ground arith, ground arith)
  | inr outside ↦ absurd (ground arith)
]

module _ (n src : ℕ) (g h : G) (es : List Action) (e : start (pos n) (pos src) ≡ ok (some g))
    (r : Runs g es h) where
  pub main-Valid : Valid n src message es h
  main-Valid =
      let (l, begins) = start-inv n src g e in
      Runs-Valid n src message g es h (bm-Valid n src message g begins l) r

  sends_bound : 2 * length (arrows h.lines) ≤ n * n + n
  sends_bound =
      let v = main-Valid in
      omega (
        arith,
        grid-count n (arrows h.lines) v.inside,
        grid-le n (λ i j. count i j (arrows h.lines)) (quota src)
            (λ i j k l. omega (arith, (v.node i).within j)),
        grid-quota n src (start-inv n src g e).0,
      )

  deliveries_bound : length (deliveries es) ≤ length (arrows h.lines)
  deliveries_bound =
      let v = main-Valid in
      omega (
        arith,
        grid-count n (arrows h.lines) v.inside,
        grid-count n (deliveries es) v.reached,
        grid-le n (λ i j. count i j (deliveries es)) (λ i j. count i j (arrows h.lines))
            (λ i j k l. omega (arith, (v.node i).flow j)),
      )

  pub queue_bound : (i j : ℕ) → length ((h.nodes i).out j) ≤ 2
  queue_bound i j = ground (arith, (main-Valid.node i).flow j, (main-Valid.node i).within j)

  -- In each state of the simulation with n nodes and a source among them, whatever the order of
  -- sends and receives, at most n(n+1)/2 messages were sent, fewer than n(n+1) actions happened,
  -- the counter is the number of messages sent, modulo 2^32, and no channel between two nodes
  -- holds more than two messages.
  pub main_bounded :
      (2 * length (arrows h.lines) ≤ n * n + n)
      × (length es < n * n + n)
      × (h.counter ≡ length (arrows h.lines) % 2 ^ 32)
      × ((i j : ℕ) → length ((h.nodes i).out j) ≤ 2)
  main_bounded = (
    sends_bound,
    omega (arith, main-Valid.steps, sends_bound, deliveries_bound),
    main-Valid.word,
    queue_bound,
  )
