-- ===== src/Broker/Broadcast.antt =====
-- lib/broker/broker.go: one message to all subscribers.
use cs425_mps.Base.{
  ℕ, ◌<◌, Bool, true, false, ◌||◌, Option, some, List, [], ◌∷◌, ◌++◌, ltb, ◌==◌, if◌then◌else◌,
  length, get_elem?, get_elem?-set, get_elem?-lt, get_elem?-of_lt, set, ◌≡◌, refl, ◌⊎◌, inl, inr,
  Option-cases, Bool-cases, arith,
}
use mathlib.Core.Option.{map}
use cs425_mps.Base.Run.{ok, panic, bind-ok}
use cs425_mps.Broker.{Chan, Broker, sub_capacity, offer, offer_at, broadcast, publish_case}

unfoldable pub mem : ℕ → List ℕ → Bool
mem c [] = false
mem c (d ∷ ds) = d == c || mem c ds

abbrev pub Distinct : List ℕ → Type 0
Distinct [] = Unit
Distinct (d ∷ ds) = (mem d ds ≡ false) × Distinct ds

module _ {A : Type 0} where
  -- What an open channel does with a message.
  abbrev pub accept : A → Chan A → Chan A
  accept m c =
      if ltb (length c.queue) sub_capacity then record c { queue = c.queue ++ m ∷ [] } else c

  -- All channels of the list exist and are open.
  abbrev pub AllOpen : List ℕ → List (Chan A) → Type 0
  AllOpen is chans =
      (i : ℕ) → mem i is ≡ true → (c : Chan A) × (get_elem? chans i ≡ some c) × (c.closed ≡ false)

  abbrev pub after : A → Bool → Option (Chan A) → Option (Chan A)
  after m to c = if to then map (accept m) c else c

  offer_at-shape :
      (m : A) (i : ℕ) (chans chans' : List (Chan A))
      → offer_at m i chans ≡ ok chans'
      → (c : ℕ) → get_elem? chans' c ≡ after m (i == c) (get_elem? chans c)
  unfolding offer_at offer
  offer_at-shape m i chans chans' e c = elim (Option-cases (get_elem? chans i)) [
    | inl absent ↦ ground arith
    | inr (ch, there) ↦ elim (Bool-cases ch.closed) [
      | inl shut ↦ absurd (ground arith)
      | inr usable ↦
          ground (arith, get_elem?-set chans i c (accept m ch) (get_elem?-lt chans i ch there))
    ]
  ]

  pub broadcast-shape :
      (m : A) (is : List ℕ) (chans chans' : List (Chan A))
      → Distinct is
      → broadcast m is chans ≡ ok chans'
      → (c : ℕ) → get_elem? chans' c ≡ after m (mem c is) (get_elem? chans c)
  unfolding broadcast mem
  broadcast-shape m [] chans chans' d e c = ground arith
  broadcast-shape m (i ∷ is) chans chans' d e c =
      let (mid, first, rest) = bind-ok (offer_at m i chans) (broadcast m is) chans' e in
      ground
        (arith, offer_at-shape m i chans mid first c, broadcast-shape m is mid chans' d.1 rest c)

  offer_at-open :
      (m : A) (i : ℕ) (chans : List (Chan A)) (c : Chan A)
      → get_elem? chans i ≡ some c
      → c.closed ≡ false
      → offer_at m i chans ≡ ok (set chans i (accept m c))
  unfolding offer_at offer
  offer_at-open m i chans c there usable = ground arith

  AllOpen-rest :
      (m : A) (i : ℕ) (is : List ℕ) (chans : List (Chan A)) (c : Chan A)
      → get_elem? chans i ≡ some c
      → c.closed ≡ false
      → mem i is ≡ false
      → AllOpen (i ∷ is) chans
      → AllOpen is (set chans i (accept m c))
  unfolding mem
  AllOpen-rest m i is chans c there usable new all k h =
      let (d, at, free) = all k (ground arith) in
      (d, ground (arith, get_elem?-set chans i k (accept m c) (get_elem?-lt chans i c there)), free)

  broadcast-Returns :
      (m : A) (is : List ℕ) (chans : List (Chan A))
      → Distinct is
      → AllOpen is chans
      → (chans' : List (Chan A)) × (broadcast m is chans ≡ ok chans')
  unfolding broadcast mem
  broadcast-Returns m [] chans d all = (chans, refl)
  broadcast-Returns m (i ∷ is) chans d all =
      let (c, there, usable) = all i (ground arith) in
      let (chans', e) =
        broadcast-Returns m is (set chans i (accept m c)) d.1
          (AllOpen-rest m i is chans c there usable d.0 all) in
      (chans', ground (arith, offer_at-open m i chans c there usable))

  offer_at-cases :
      (m : A) (i : ℕ) (chans : List (Chan A))
      → ((v : List (Chan A)) × (offer_at m i chans ≡ ok v)) ⊎ (offer_at m i chans ≡ panic)
  unfolding offer_at offer
  offer_at-cases m i chans = elim (Option-cases (get_elem? chans i)) [
    | inl absent ↦ inl (chans, ground arith)
    | inr (c, there) ↦ elim (Bool-cases c.closed) [
      | inl shut ↦ inr (ground arith)
      | inr usable ↦ inl (set chans i (accept m c), ground arith)
    ]
  ]

  -- A closed channel among the subscribers ends the process.
  broadcast-closed :
      (m : A) (is : List ℕ) (chans : List (Chan A)) (i : ℕ) (c : Chan A)
      → mem i is ≡ true
      → get_elem? chans i ≡ some c
      → c.closed ≡ true
      → broadcast m is chans ≡ panic
  unfolding broadcast mem offer_at offer
  broadcast-closed m (j ∷ is) chans i c among there shut = elim (offer_at-cases m j chans) [
    | inl (mid, first) ↦ elim (Bool-cases (j == i)) [
      | inl same ↦ absurd (ground arith)
      | inr other ↦
          let kept : get_elem? mid i ≡ some c =
            ground (arith, offer_at-shape m j chans mid first i) in
          let rest = broadcast-closed m is mid i c (ground arith) kept shut in ground arith
    ]
    | inr fails ↦ ground arith
  ]
  broadcast-closed m [] chans i c among there shut = absurd (ground arith)

  -- All channels of the list are open, or one of them is closed.
  open-or_closed :
      (is : List ℕ) (chans : List (Chan A))
      → ((i : ℕ) → mem i is ≡ true → i < length chans)
      → AllOpen is chans
        ⊎ ((i : ℕ) × (c : Chan A) × (mem i is ≡ true)
            × (get_elem? chans i ≡ some c)
            × (c.closed ≡ true))
  unfolding mem
  open-or_closed [] chans known = inl (λ i h. absurd (ground arith))
  open-or_closed (j ∷ is) chans known =
      elim (open-or_closed is chans (λ i h. known i (ground arith))) [
        | inr (i, c, h, at, shut) ↦ inr (i, c, ground arith, at, shut)
        | inl others ↦
            let (c, at) = get_elem?-of_lt chans j (known j (ground arith)) in
            elim (Bool-cases c.closed) [
              | inl shut ↦ inr (j, c, ground arith, at, shut)
              | inr usable ↦ inl (λ i h. elim (Bool-cases (j == i)) [
                | inl same ↦ (c, ground arith, usable)
                | inr other ↦ others i (ground arith)
              ])
            ]
      ]

  -- When a message is passed on to subscribers that are distinct and exist, either every
  -- subscriber with room has it at the end of its channel and all other channels stay as they
  -- were, or the channel of a subscriber is closed and the process panics.
  pub publish_case_correct :
      (b : Broker A) (m : A) (rest : List A)
      → b.publish_ch ≡ m ∷ rest
      → Distinct b.subs
      → ((i : ℕ) → mem i b.subs ≡ true → i < length b.chans)
      → ((chans : List (Chan A)) × (publish_case b
            ≡ ok (some (record b { publish_ch = rest; chans = chans })))
          × ((c : ℕ) → get_elem? chans c ≡ after m (mem c b.subs) (get_elem? b.chans c)))
        ⊎ ((i : ℕ) × (c : Chan A) × (mem i b.subs ≡ true)
            × (get_elem? b.chans i ≡ some c)
            × (c.closed ≡ true)
            × (publish_case b ≡ panic))
  unfolding publish_case
  publish_case_correct b m rest next d known = elim (open-or_closed b.subs b.chans known) [
    | inl all ↦
        let (chans, e) = broadcast-Returns m b.subs b.chans d all in
        inl (chans, ground arith, broadcast-shape m b.subs b.chans chans d e)
    | inr (i, c, among, at, shut) ↦
        let fails = broadcast-closed m b.subs b.chans i c among at shut in
        inr (i, c, among, at, shut, ground arith)
  ]
