-- ===== src/Broker/Tests.antt =====
-- Witnesses for the theorems on lib/broker/broker.go: one subscriber, one message.
use cs425_mps.Base.{
  ℕ, ◌≤◌, ◌<◌, Option, some, List, [], ◌∷◌, ◌++◌, ◌≡◌, ◌⊎◌, refl, length, or_else, true, false,
  get_elem?, arith,
}
use cs425_mps.Base.Run.{Run, ok, panic}
use cs425_mps.Broker.{
  Chan, Broker, new, subscribe, sub_case, publish, publish_case, broadcast, offer_at, offer,
  add_key, remove,
}
use cs425_mps.Broker.Broadcast.{mem, after, publish_case_correct}
use cs425_mps.Broker.Runs.{
  Runs, silent, broadcasts, begin, and_then, subscribes, adds, publishes, passes, got, sent,
  Sublist,
}
use cs425_mps.Broker.Order.{broker_keeps_order}

abbrev subscribed : Broker ℕ
subscribed = (or_else (subscribe (new {A = ℕ})) (new, 0)).0

abbrev added : Broker ℕ
added = or_else (sub_case subscribed) new

abbrev asked : Broker ℕ
asked = or_else (publish added 7) new

abbrev result : Run (Option (Broker ℕ)) → Broker ℕ
result (ok (some b)) = b
result call = new

abbrev passed : Broker ℕ
passed = result (publish_case asked)

run_of_one : Runs (broadcasts 7 ∷ silent ∷ silent ∷ silent ∷ []) passed
unfolding new subscribe sub_case publish publish_case broadcast offer_at offer add_key remove
run_of_one =
    and_then _
      (and_then _
        (and_then _ (and_then _ begin (subscribes {b' = subscribed} 0 refl))
          (adds {b' = added} refl refl))
        (publishes {b' = asked} 7 refl))
      (passes {b' = passed} 7 [] refl refl refl)

abbrev seven : Chan ℕ
seven = record { queue = 7 ∷ []; closed = false }

there : get_elem? passed.chans 0 ≡ some seven
unfolding new subscribe sub_case publish publish_case broadcast offer_at offer add_key remove
there = refl

broker_keeps_order_example :
    (length seven.queue ≤ 5)
    × Sublist
        (got 0 (broadcasts 7 ∷ silent ∷ silent ∷ silent ∷ []) ++ seven.queue)
        (sent (broadcasts 7 ∷ silent ∷ silent ∷ silent ∷ []))
    × (length passed.publish_ch ≤ 1)
    × (length passed.sub_ch ≤ 1)
    × (length passed.unsub_ch ≤ 1)
broker_keeps_order_example =
    broker_keeps_order (broadcasts 7 ∷ silent ∷ silent ∷ silent ∷ []) passed 0 seven run_of_one
      there

-- A subscriber that is full, one with room, and a channel that is not subscribed.
abbrev full_chan : Chan ℕ
full_chan = record { queue = 1 ∷ 2 ∷ 3 ∷ 4 ∷ 5 ∷ []; closed = false }

abbrev busy : Broker ℕ
busy = record {
  stopped = false;
  publish_ch = 7 ∷ [];
  sub_ch = [];
  unsub_ch = [];
  subs = 0 ∷ 1 ∷ [];
  chans = full_chan ∷ seven ∷ seven ∷ [];
  returned = false;
}

busy_known : (i : ℕ) → mem i busy.subs ≡ true → i < length busy.chans
unfolding mem
busy_known i h = ground arith

new_one : mem 0 (1 ∷ []) ≡ false
unfolding mem
new_one = refl

alone : mem 1 [] ≡ false
unfolding mem
alone = refl

publish_case_correct_example :
    ((chans : List (Chan ℕ)) × (publish_case busy
        ≡ ok (some (record busy { publish_ch = []; chans = chans })))
      × ((c : ℕ) → get_elem? chans c ≡ after 7 (mem c busy.subs) (get_elem? busy.chans c)))
    ⊎ ((i : ℕ) × (c : Chan ℕ) × (mem i busy.subs ≡ true)
        × (get_elem? busy.chans i ≡ some c)
        × (c.closed ≡ true)
        × (publish_case busy ≡ panic))
publish_case_correct_example = publish_case_correct busy 7 [] refl (new_one, (alone, tt)) busy_known
