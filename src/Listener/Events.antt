-- ===== src/Listener/Events.antt =====
-- The events of an input of well-formed lines among other lines.
use cs425_mps.Base.{◌≡◌, refl, ◌≢◌, List, [], ◌∷◌, map}
use cs425_mps.Base.Int.{IsInt}
use cs425_mps.Base.Text.{Str}
use cs425_mps.Base.Result.{Error, ok, err}
use cs425_mps.Router.{Msg, new_msg}
use cs425_mps.Strings.Number.{IsWord}
use cs425_mps.Event.{
  Event, deposits, transfers, deposit_path, transfer_path, encode_transactions_msg,
}
use cs425_mps.Event.Parse.{deposit_line, transfer_line, parse_deposit, parse_transfer}
use cs425_mps.Listener.{transaction_event_listener}

abbrev IsAccount : Str → Type 0
IsAccount account = IsWord account × (account ≢ [])

-- The accounts are words, and the amount is an `int`.
abbrev pub IsWritable : Event → Type 0
IsWritable (deposits d) = IsAccount d.account × IsInt d.amount
IsWritable (transfers t) = IsAccount t.from_account × IsAccount t.to_account × IsInt t.amount

abbrev pub event_line : Event → Str
event_line (deposits d) = deposit_line d.account d.amount
event_line (transfers t) = transfer_line t.from_account t.to_account t.amount

-- The message of an event, with the path of its handler.
abbrev pub routed : Event → Msg Event
routed (deposits d) = new_msg deposit_path (deposits d)
routed (transfers t) = new_msg transfer_path (transfers t)

-- An input: lines of events, and lines that are none.
pub data Input : List Str → List Event → Type 0 where
  ends : Input [] []
  event :
      {lines : List Str} {events : List Event} (e : Event)
      → IsWritable e
      → Input lines events
      → Input (event_line e ∷ lines) (e ∷ events)
  noise :
      {lines : List Str} {events : List Event} (line : Str) (x : Error)
      → encode_transactions_msg line ≡ err x
      → Input lines events
      → Input (line ∷ lines) events

parse_event : (e : Event) → IsWritable e → encode_transactions_msg (event_line e) ≡ ok (routed e)
parse_event (deposits d) ((w, ne), h) = parse_deposit d.account d.amount w ne h
parse_event (transfers t) ((wf, nf), (wg, ng), h) =
    parse_transfer t.from_account t.to_account t.amount wf nf wg ng h

-- From an input of lines of events, with accounts of one word and amounts that fit an int, among
-- lines that are not events, the listener emits exactly the messages of those events, in order,
-- each with the path of its handler.
pub listener_emits :
    {lines : List Str} {events : List Event}
    → Input lines events
    → transaction_event_listener lines ≡ map routed events
unfolding transaction_event_listener
listener_emits ends = refl
listener_emits (event e w rest) = rw (parse_event e w, listener_emits rest) refl
listener_emits (noise line x bad rest) = rw (bad, listener_emits rest) refl
