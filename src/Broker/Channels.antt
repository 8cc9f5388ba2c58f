-- ===== src/Broker/Channels.antt =====
-- lib/broker/broker.go: the steps that change the channel of one subscriber.
use cs425_mps.Base.{
  none, ℕ, true, false, some, List, [], ◌∷◌, ◌++◌, ◌==◌, if◌then◌else◌, length, get_elem?,
  get_elem?-set, get_elem?-lt, get_elem?-snoc, length-snoc, length-set, set, ◌≡◌, refl, inl, inr,
  Option-cases, List-cases, Bool-cases, arith,
}
use native.Mathlib.Decide.{ℕ_discrete}
use mathlib.Core.Path.{subst}
use mathlib.Core.List.{append_assoc}
use cs425_mps.Base.Run.{ok}
use cs425_mps.Broker.{Chan, Broker, subscribe, close, take_from}
use cs425_mps.Broker.Runs.{Show, silent, takes, sent, got, Sublist-none}
use cs425_mps.Broker.Valid.{Good, Valid}

module _ {A : Type 0} where
  made : Broker A → Broker A
  made b = record b {
    chans = b.chans ++ record { queue = []; closed = false } ∷ [];
    sub_ch = length b.chans ∷ [];
  }

  made-Valid : (es : List (Show A)) (b : Broker A) → Valid es b → Valid (silent ∷ es) (made b)
  unfolding got sent made
  made-Valid es b v = record {
    distinct = v.distinct;
    waiting = (v.waiting.0, omega arith, v.waiting.2);
    good = λ c ch e. elim (ℕ_discrete c (length b.chans)) [
      | yes last ↦ ground (
        arith,
        get_elem?-snoc b.chans (record { queue = []; closed = false }) c,
        v.fresh c,
        Sublist-none (sent es),
      )
      | no older ↦
          v.good c ch
            (ground (arith, get_elem?-snoc b.chans (record { queue = []; closed = false }) c))
    ];
    fresh = λ c l.
        v.fresh c (omega (arith, length-snoc b.chans (record { queue = []; closed = false }), l));
  }

  pub subscribes-Valid :
      (es : List (Show A)) (b b' : Broker A) (c : ℕ)
      → Valid es b
      → subscribe b ≡ some (b', c)
      → Valid (silent ∷ es) b'
  unfolding subscribe made
  subscribes-Valid es b b' c v f = elim (List-cases b.sub_ch) [
    | inl free ↦ subst (Valid (silent ∷ es)) (ground arith) (made-Valid es b v)
    | inr (d, ds, full) ↦ absurd (ground arith)
  ]

  -- A step that changes one channel, and passes on nothing.
  set-Valid :
      (es : List (Show A)) (b : Broker A) (e : Show A) (c : ℕ) (old ch : Chan A)
      → Valid es b
      → get_elem? b.chans c ≡ some old
      → sent (e ∷ es) ≡ sent es
      → ((d : ℕ) → c == d ≡ false → got d (e ∷ es) ≡ got d es)
      → Good (got c (e ∷ es)) (sent es) ch
      → Valid (e ∷ es) (record b { chans = set b.chans c ch })
  set-Valid es b e c old ch v there all others new_good =
      let changed : (d : ℕ)
          → get_elem? (set b.chans c ch) d ≡ (if c == d then some ch else get_elem? b.chans d) =
        λ d. get_elem?-set b.chans c d ch (get_elem?-lt b.chans c old there) in
      record {
        distinct = v.distinct;
        waiting = v.waiting;
        good = λ d x at. elim (Bool-cases (c == d)) [
          | inl same ↦ ground (arith, changed d)
          | inr other ↦ ground (arith, changed d, others d other, v.good d x)
        ];
        fresh = λ d l.
            ground (
              arith,
              length-set b.chans c ch,
              get_elem?-lt b.chans c old there,
              others d,
              v.fresh d,
            );
      }

  pub closes-Valid :
      (es : List (Show A)) (b b' : Broker A) (c : ℕ)
      → Valid es b
      → close b c ≡ ok b'
      → Valid (silent ∷ es) b'
  unfolding close got sent
  closes-Valid es b b' c v f = elim (Option-cases (get_elem? b.chans c)) [
    | inl absent ↦ absurd (ground arith)
    | inr (ch, there) ↦ elim (Bool-cases ch.closed) [
      | inl shut ↦ absurd (ground arith)
      | inr usable ↦ subst (Valid (silent ∷ es)) (ground arith) (
          set-Valid es b silent c ch (record ch { closed = true }) v there refl (λ d ne. refl)
            (v.good c ch there))
    ]
  ]

  pub receives-Valid :
      (es : List (Show A)) (b b' : Broker A) (c : ℕ) (m : A)
      → Valid es b
      → take_from b c ≡ some (b', some m)
      → Valid (takes c m ∷ es) b'
  unfolding take_from got sent
  receives-Valid es b b' c m v f = elim (Option-cases (get_elem? b.chans c)) [
    | inl absent ↦ absurd (ground arith)
    | inr (ch, there) ↦ elim (List-cases ch.queue) [
      | inl empty ↦ absurd (ground (arith, Bool-cases ch.closed))
      | inr (x, xs, some_left) ↦ subst (Valid (takes c m ∷ es)) (ground arith) (
          set-Valid es b (takes c m) c ch (record ch { queue = xs }) v there refl
            (λ d ne. ground arith)
            (ground (arith, v.good c ch there, append_assoc (got c es) (m ∷ []) xs)))
    ]
  ]

  -- The zero value changes nothing.
  zero-same : (b b' : Broker A) (c : ℕ) → take_from b c ≡ some (b', none) → b ≡ b'
  unfolding take_from
  zero-same b b' c f = elim (Option-cases (get_elem? b.chans c)) [
    | inl absent ↦ absurd (ground arith)
    | inr (ch, there) ↦ elim (List-cases ch.queue) [
      | inl empty ↦ elim (Bool-cases ch.closed) [
        | inl shut ↦ ground arith
        | inr open_yet ↦ absurd (ground arith)
      ]
      | inr (x, xs, some_left) ↦ absurd (ground arith)
    ]
  ]

  pub receives_zero-Valid :
      (es : List (Show A)) (b b' : Broker A) (c : ℕ)
      → Valid es b
      → take_from b c ≡ some (b', none)
      → Valid (silent ∷ es) b'
  unfolding got sent
  receives_zero-Valid es b b' c v f =
      subst (Valid (silent ∷ es)) (zero-same b b' c f)
        (record { distinct = v.distinct; waiting = v.waiting; good = v.good; fresh = v.fresh })
