-- ===== src/Simulation/Counts.antt =====
-- cli/r-multicast/main.go: how often a node sent to a node, and what the loops of sends have left.
use cs425_mps.Base.{
  ℕ, zero, suc, ◌+◌, ◌<◌, Bool, true, false, ◌&&◌, none, some, List, [], ◌∷◌, ◌++◌, ◌≡◌, refl, All,
  ltb, ◌==◌, arith, Option-cases, inl, inr,
}
use cs425_mps.Simulation.{
  Msg, Outgoing, Line, arrow, total, Action, sends, delivers, batch, take_out,
}

abbrev pub flag : Bool → ℕ
flag true = 1
flag false = 0

-- How often the pair stands in the list.
unfoldable pub count : ℕ → ℕ → List (ℕ × ℕ) → ℕ
count i j [] = 0
count i j ((a, b) ∷ ps) = flag (i == a && j == b) + count i j ps

pub count-append :
    (i j : ℕ) (ps qs : List (ℕ × ℕ)) → count i j (ps ++ qs) ≡ count i j ps + count i j qs
unfolding count
count-append i j [] qs = omega arith
count-append i j (p ∷ ps) qs = omega (arith, count-append i j ps qs)

-- The lines of the output that tell of a send, each with its sender and its receiver.
unfoldable pub arrows : List Line → List (ℕ × ℕ)
arrows [] = []
arrows (arrow i j ∷ ls) = (i, j) ∷ arrows ls
arrows (total c ∷ ls) = arrows ls

pub arrows-append : (ls ks : List Line) → arrows (ls ++ ks) ≡ arrows ls ++ arrows ks
unfolding arrows
arrows-append [] ks = refl
arrows-append (arrow i j ∷ ls) ks = rw (arrows-append ls ks)
arrows-append (total c ∷ ls) ks = arrows-append ls ks

-- The actions that receive, each with its sender and its receiver.
unfoldable pub deliveries : List Action → List (ℕ × ℕ)
deliveries [] = []
deliveries (sends i j ∷ es) = deliveries es
deliveries (delivers i j ∷ es) = (j, i) ∷ deliveries es

-- How many of the sends left go to the node.
unfoldable pub count_to : ℕ → List Outgoing → ℕ
count_to j [] = 0
count_to j (x ∷ xs) = flag (x.0 == j) + count_to j xs

pub take_out-none : (j : ℕ) (xs : List Outgoing) → take_out j xs ≡ none → count_to j xs ≡ 0
unfolding take_out count_to
take_out-none j [] h = refl
take_out-none j (x ∷ xs) h = elim (Option-cases (take_out j xs)) [
  | inl e ↦ ground (arith, take_out-none j xs e)
  | inr (y, e) ↦ ground arith
]

-- Sends left that all satisfy the predicate.
module _ {κ} (P : Outgoing → Type κ) where
  pub take_out-some :
      (j : ℕ) (xs : List Outgoing) (x : Outgoing) (rest : List Outgoing)
      → take_out j xs ≡ some (x, rest)
      → All P xs
      → (x.0 ≡ j) × P x × All P rest × ((k : ℕ) → count_to k xs ≡ flag (j == k) + count_to k rest)
  unfolding take_out count_to
  take_out-some j [] x rest h p = absurd (ground arith)
  take_out-some j (y ∷ xs) x rest h p = elim (Option-cases (take_out j xs)) [
    | inl e ↦ ground arith
    | inr ((z, zs), e) ↦ ground (arith, take_out-some j xs z zs e p.1)
  ]

  pub batch-All :
      (test : ℕ → Bool) (m : Msg) (n : ℕ) → ((k : ℕ) → k < n → P (k, m)) → All P (batch test m n)
  unfolding batch
  batch-All test m zero p = tt
  batch-All test m (suc n) p = ground (arith, p n, batch-All test m n (λ k l. p k (omega arith)))

pub count_to-batch :
    (test : ℕ → Bool) (m : Msg) (n j : ℕ) → count_to j (batch test m n) ≡ flag (ltb j n && test j)
unfolding batch count_to
count_to-batch test m zero j = ground arith
count_to-batch test m (suc n) j = ground (arith, count_to-batch test m n j)
