-- ===== src/Broker.antt =====
-- lib/broker/broker.go: a goroutine that owns a set of subscribers and passes on to them what is
-- published. A call that waits for room in a channel gives none, and can be made again later.
pub mod Broadcast
pub mod Runs
pub mod Valid
pub mod Channels
pub mod Order
mod Tests
use cs425_mps.Base.{
  ℕ, Bool, true, false, Option, none, some, List, [], ◌∷◌, ◌++◌, ltb, ◌==◌, if◌then◌else◌, length,
  get_elem?, set,
}
use cs425_mps.Base.Run.{Run, ok, panic, ◌>>=◌}

-- The channel of a subscriber, on the heap: what is in it, and whether it is closed.
pub record Chan (A : Type 0) : Type 0 where
  pub queue : List A
  pub closed : Bool

-- `subs` are the keys of the map of Start in the order of its next range, as places in the heap
-- `chans`. `returned` says that Start has returned.
pub record Broker (A : Type 0) : Type 0 where
  pub stopped : Bool
  pub publish_ch : List A
  pub sub_ch : List ℕ
  pub unsub_ch : List ℕ
  pub subs : List ℕ
  pub chans : List (Chan A)
  pub returned : Bool

abbrev pub sub_capacity : ℕ
sub_capacity = 5

unfoldable pub remove : ℕ → List ℕ → List ℕ
remove c [] = []
remove c (d ∷ ds) = let rest = remove c ds in if d == c then rest else d ∷ rest

-- `subs[msgCh] = struct{}{}`
unfoldable pub add_key : ℕ → List ℕ → List ℕ
add_key c ds = c ∷ remove c ds

module _ {A : Type 0} where
  unfoldable pub new : Broker A
  new = record {
    stopped = false;
    publish_ch = [];
    sub_ch = [];
    unsub_ch = [];
    subs = [];
    chans = [];
    returned = false;
  }

  -- A select with a default: a message that finds no room is dropped. A channel that is closed panics.
  unfoldable pub offer : A → Chan A → Run (Chan A)
  offer m c =
      if c.closed
      then panic
      else if ltb (length c.queue) sub_capacity
      then ok (record c { queue = c.queue ++ m ∷ [] })
      else ok c

  unfoldable pub offer_at : A → ℕ → List (Chan A) → Run (List (Chan A))
  offer_at m i chans = elim (get_elem? chans i) [
    | none ↦ ok chans
    | some c ↦ offer m c >>= λ d. ok (set chans i d)
  ]

  -- The loop over the subscribers.
  unfoldable pub broadcast : A → List ℕ → List (Chan A) → Run (List (Chan A))
  broadcast m [] chans = ok chans
  broadcast m (i ∷ is) chans = offer_at m i chans >>= broadcast m is

  -- The cases of the select of Start, each with none where it is not ready. Once Start returned there
  -- is no case.
  unfoldable pub stop_case : Broker A → Option (Broker A)
  stop_case b = if b.stopped then some (record b { returned = true }) else none

  unfoldable pub sub_case : Broker A → Option (Broker A)
  sub_case b = elim b.sub_ch [
    | [] ↦ none
    | c ∷ rest ↦ some (record b { sub_ch = rest; subs = add_key c b.subs })
  ]

  unfoldable pub unsub_case : Broker A → Option (Broker A)
  unsub_case b = elim b.unsub_ch [
    | [] ↦ none
    | c ∷ rest ↦ some (record b { unsub_ch = rest; subs = remove c b.subs })
  ]

  unfoldable pub publish_case : Broker A → Run (Option (Broker A))
  publish_case b = elim b.publish_ch [
    | [] ↦ ok none
    | m ∷ rest ↦ do
      chans ← broadcast m b.subs b.chans
      ok (some (record b { publish_ch = rest; chans = chans }))
  ]

  -- The channel is closed for good: closing it again panics.
  unfoldable pub stop : Broker A → Run (Broker A)
  stop b = if b.stopped then panic else ok (record b { stopped = true })

  unfoldable pub subscribe : Broker A → Option (Broker A × ℕ)
  subscribe b =
      let made = b.chans ++ record { queue = []; closed = false } ∷ [] in
      elim b.sub_ch [
        | [] ↦ some (record b { chans = made; sub_ch = length b.chans ∷ [] }, length b.chans)
        | _ ∷ _ ↦ none
      ]

  -- The two statements of Unsubscribe. The goroutine may act between them.
  unfoldable pub unsubscribe : Broker A → ℕ → Option (Broker A)
  unsubscribe b c = elim b.unsub_ch [ [] ↦ some (record b { unsub_ch = c ∷ [] }) | _ ∷ _ ↦ none ]

  unfoldable pub close : Broker A → ℕ → Run (Broker A)
  close b c = elim (get_elem? b.chans c) [
    | none ↦ panic
    | some ch ↦
        if ch.closed
        then panic
        else ok (record b { chans = set b.chans c (record ch { closed = true }) })
  ]

  unfoldable pub publish : Broker A → A → Option (Broker A)
  publish b m = elim b.publish_ch [ [] ↦ some (record b { publish_ch = m ∷ [] }) | _ ∷ _ ↦ none ]

  -- A subscriber receives from its channel: a message, or, where that is empty and closed, the zero
  -- value. It waits where the channel is empty and open.
  unfoldable pub take_from : Broker A → ℕ → Option (Broker A × Option A)
  take_from b c = elim (get_elem? b.chans c) [
    | none ↦ none
    | some ch ↦ elim ch.queue [
      | [] ↦ if ch.closed then some (b, none) else none
      | m ∷ ms ↦ some (record b { chans = set b.chans c (record ch { queue = ms }) }, some m)
    ]
  ]
