-- ===== src/Listener.antt =====
-- lib/mp1/transaction/event_listener.go: the loop over the lines of the input, up to the channel of
-- events, which is taken to have room. The lines are an argument.
pub mod Events
mod Tests
use cs425_mps.Base.{List, [], ◌∷◌}
use cs425_mps.Base.Text.{Str}
use cs425_mps.Base.Result.{Result, ok, err}
use cs425_mps.Router.{Msg}
use cs425_mps.Event.{Event, encode_transactions_msg}

-- A line that is not an event is logged and skipped.
abbrev pub emit : Result (Msg Event) → List (Msg Event) → List (Msg Event)
emit (ok event_msg) rest = event_msg ∷ rest
emit (err e) rest = rest

unfoldable pub transaction_event_listener : List Str → List (Msg Event)
transaction_event_listener [] = []
transaction_event_listener (line ∷ lines) =
    emit (encode_transactions_msg line) (transaction_event_listener lines)
