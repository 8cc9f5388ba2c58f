-- ===== src/Broker/Order.antt =====
-- lib/broker/broker.go: what subscribers receive, and how much waits in channels.
use cs425_mps.Base.{
  ℕ, ◌≤◌, Bool, true, false, some, List, [], ◌∷◌, ◌++◌, ltb, ltb→lt, if◌then◌else◌, length,
  get_elem?, get_elem?-lt, length-snoc, get_elem?-of_lt, ◌≡◌, inl, inr, Option-cases, List-cases,
  Bool-cases, arith,
}
use native.Mathlib.Decide.{dec_lt}
use mathlib.Core.Path.{subst}
use mathlib.Core.List.{append_assoc}
use cs425_mps.Base.Run.{ok, bind-ok}
use cs425_mps.Broker.{
  Chan, Broker, sub_capacity, stop_case, sub_case, unsub_case, publish_case, stop, unsubscribe,
  publish, broadcast,
}
use cs425_mps.Broker.Broadcast.{mem, accept, after, broadcast-shape}
use cs425_mps.Broker.Runs.{
  Show, silent, broadcasts, Step, Runs, begin, and_then, sent, got, Sublist, Sublist-snoc,
  Sublist-more, subscribes, unsubscribes, closes, publishes, stops, receives, receives_zero,
  returns, adds, deletes, passes,
}
use cs425_mps.Broker.Valid.{remove-Distinct, add_key-Distinct, Good, Valid, new-Valid, quiet-Valid}
use cs425_mps.Broker.Channels.{subscribes-Valid, closes-Valid, receives-Valid, receives_zero-Valid}

module _ {A : Type 0} where
  unsubscribes-Valid :
      (es : List (Show A)) (b b' : Broker A) (c : ℕ)
      → Valid es b
      → unsubscribe b c ≡ some b'
      → Valid (silent ∷ es) b'
  unfolding unsubscribe
  unsubscribes-Valid es b b' c v f = elim (List-cases b.unsub_ch) [
    | inl free ↦ ground (arith, quiet-Valid es b b' v)
    | inr (d, ds, full) ↦ absurd (ground arith)
  ]

  publishes-Valid :
      (es : List (Show A)) (b b' : Broker A) (m : A)
      → Valid es b
      → publish b m ≡ some b'
      → Valid (silent ∷ es) b'
  unfolding publish
  publishes-Valid es b b' m v f = elim (List-cases b.publish_ch) [
    | inl free ↦ ground (arith, quiet-Valid es b b' v)
    | inr (d, ds, full) ↦ absurd (ground arith)
  ]

  stops-Valid :
      (es : List (Show A)) (b b' : Broker A) → Valid es b → stop b ≡ ok b' → Valid (silent ∷ es) b'
  unfolding stop
  stops-Valid es b b' v f = ground (arith, quiet-Valid es b b' v)

  returns-Valid :
      (es : List (Show A)) (b b' : Broker A)
      → Valid es b
      → stop_case b ≡ some b'
      → Valid (silent ∷ es) b'
  unfolding stop_case
  returns-Valid es b b' v f = ground (arith, quiet-Valid es b b' v)

  adds-Valid :
      (es : List (Show A)) (b b' : Broker A)
      → Valid es b
      → sub_case b ≡ some b'
      → Valid (silent ∷ es) b'
  unfolding sub_case
  adds-Valid es b b' v f = elim (List-cases b.sub_ch) [
    | inl empty ↦ absurd (ground arith)
    | inr (d, ds, next) ↦
        ground (arith, quiet-Valid es b b' v, add_key-Distinct d b.subs v.distinct)
  ]

  deletes-Valid :
      (es : List (Show A)) (b b' : Broker A)
      → Valid es b
      → unsub_case b ≡ some b'
      → Valid (silent ∷ es) b'
  unfolding unsub_case
  deletes-Valid es b b' v f = elim (List-cases b.unsub_ch) [
    | inl empty ↦ absurd (ground arith)
    | inr (d, ds, next) ↦ ground (arith, quiet-Valid es b b' v, remove-Distinct d b.subs v.distinct)
  ]

  accept-Good :
      (before all : List A) (m : A) (c : Chan A) (to : Bool) (d : Chan A)
      → Good before all c
      → after m to (some c) ≡ some d
      → Good before (all ++ m ∷ []) d
  accept-Good before all m c false d g e =
      let same : c ≡ d = ground arith in
      subst (Good before (all ++ m ∷ [])) same (g.0, Sublist-more m g.1)
  accept-Good before all m c true d g e = elim (Bool-cases (ltb (length c.queue) sub_capacity)) [
    | inl room ↦
        let longer : Good before (all ++ m ∷ []) (record c { queue = c.queue ++ m ∷ [] }) = (
          omega (arith, ltb→lt (length c.queue) sub_capacity room, length-snoc c.queue m),
          subst (λ xs. Sublist xs (all ++ m ∷ [])) (append_assoc before c.queue (m ∷ []))
              (Sublist-snoc m g.1),
        ) in
        let same : record c { queue = c.queue ++ m ∷ [] } ≡ d = ground arith in
        subst (Good before (all ++ m ∷ [])) same longer
    | inr full ↦
        let same : c ≡ d = ground arith in
        subst (Good before (all ++ m ∷ [])) same (g.0, Sublist-more m g.1)
  ]

  shape-longer :
      (m : A) (to : Bool) (chans chans' : List (Chan A)) (c : ℕ)
      → get_elem? chans' c ≡ after m to (get_elem? chans c)
      → length chans' ≤ c
      → length chans ≤ c
  shape-longer m to chans chans' c e l = elim (dec_lt c (length chans)) [
    | yes below ↦
        let (x, at) = get_elem?-of_lt chans c below in
        absurd (ground (arith, get_elem?-lt chans' c (if to then accept m x else x)))
    | no above ↦ omega arith
  ]

  publish_case-inv :
      (b b' : Broker A) (m : A) (rest : List A)
      → b.publish_ch ≡ m ∷ rest
      → publish_case b ≡ ok (some b')
      → (chans : List (Chan A)) × (broadcast m b.subs b.chans ≡ ok chans)
        × (record b { publish_ch = rest; chans = chans } ≡ b')
  unfolding publish_case
  publish_case-inv b b' m rest next f =
      let (chans, sent_all, same) =
        bind-ok (broadcast m b.subs b.chans)
          (λ chans. ok (some (record b { publish_ch = rest; chans = chans }))) (some b')
          (ground arith) in
      (chans, sent_all, ground arith)

  passes-Valid :
      (es : List (Show A)) (b b' : Broker A) (m : A) (rest : List A)
      → Valid es b
      → b.publish_ch ≡ m ∷ rest
      → publish_case b ≡ ok (some b')
      → Valid (broadcasts m ∷ es) b'
  unfolding publish_case got sent
  passes-Valid es b b' m rest v next f =
      let (chans, sent_all, same) = publish_case-inv b b' m rest next f in
      let shape = broadcast-shape m b.subs b.chans chans v.distinct sent_all in
      subst (Valid (broadcasts m ∷ es)) same (record {
        distinct = v.distinct;
        waiting = (ground (arith, v.waiting), v.waiting.1, v.waiting.2);
        good = λ c ch e. elim (Option-cases (get_elem? b.chans c)) [
          | inl absent ↦ absurd (ground (arith, shape c))
          | inr (old, there) ↦
              accept-Good (got c es) (sent es) m old (mem c b.subs) ch (v.good c old there)
                (ground (arith, shape c))
        ];
        fresh = λ c l. v.fresh c (shape-longer m (mem c b.subs) b.chans chans c (shape c) l);
      })

  Step-Valid :
      (es : List (Show A)) (e : Show A) (b b' : Broker A)
      → Valid es b
      → Step e b b'
      → Valid (e ∷ es) b'
  Step-Valid es e b b' v (subscribes c f) = subscribes-Valid es b b' c v f
  Step-Valid es e b b' v (unsubscribes c f) = unsubscribes-Valid es b b' c v f
  Step-Valid es e b b' v (closes c f) = closes-Valid es b b' c v f
  Step-Valid es e b b' v (publishes m f) = publishes-Valid es b b' m v f
  Step-Valid es e b b' v (stops f) = stops-Valid es b b' v f
  Step-Valid es e b b' v (receives c m f) = receives-Valid es b b' c m v f
  Step-Valid es e b b' v (receives_zero c f) = receives_zero-Valid es b b' c v f
  Step-Valid es e b b' v (returns r f) = returns-Valid es b b' v f
  Step-Valid es e b b' v (adds r f) = adds-Valid es b b' v f
  Step-Valid es e b b' v (deletes r f) = deletes-Valid es b b' v f
  Step-Valid es e b b' v (passes m rest r next f) = passes-Valid es b b' m rest v next f

  pub Runs-Valid : (es : List (Show A)) (b : Broker A) → Runs es b → Valid es b
  Runs-Valid es b begin = new-Valid
  Runs-Valid es b (and_then e r s) = Step-Valid _ e _ b (Runs-Valid _ _ r) s

  -- In each state of a broker, whatever its callers do and in whatever order, what a subscriber
  -- received and what waits in its channel are, in order, messages that were passed on, each at
  -- most as often as it was passed on; at most five wait in the channel of a subscriber, and at
  -- most one in each channel of the broker.
  pub broker_keeps_order :
      (es : List (Show A)) (b : Broker A) (c : ℕ) (ch : Chan A)
      → Runs es b
      → get_elem? b.chans c ≡ some ch
      → (length ch.queue ≤ 5)
        × Sublist (got c es ++ ch.queue) (sent es)
        × (length b.publish_ch ≤ 1)
        × (length b.sub_ch ≤ 1)
        × (length b.unsub_ch ≤ 1)
  broker_keeps_order es b c ch r at =
      let v = Runs-Valid es b r in
      ((v.good c ch at).0, (v.good c ch at).1, v.waiting.0, v.waiting.1, v.waiting.2)
