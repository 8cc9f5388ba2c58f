-- ===== src/Listener/Tests.antt =====
-- An event, an empty line and another event.
use cs425_mps.Base.{◌≡◌, refl, [], ◌∷◌, arith}
use cs425_mps.Base.Int.{pos}
use cs425_mps.Base.Text.{codes}
use cs425_mps.Base.Result.{err, empty_fields}
use cs425_mps.Strings.{is_space, fields, fields_loop, flush}
use cs425_mps.Event.{Event, deposits, transfers, encode_transactions_msg, encode_fields}
use cs425_mps.Listener.{transaction_event_listener}
use cs425_mps.Listener.Events.{IsWritable, ends, event, noise, event_line, routed, listener_emits}

abbrev gift : Event
gift = deposits (record { account = codes "wqkby"; amount = pos 10 })

abbrev pay : Event
pay =
    transfers (record { from_account = codes "wqkby"; to_account = codes "yxpqg"; amount = pos 15 })

gift-IsWritable : IsWritable gift
unfolding is_space
gift-IsWritable = ((ground arith, λ e. ground (arith, e)), omega arith)

pay-IsWritable : IsWritable pay
unfolding is_space
pay-IsWritable =
    ((ground arith, λ e. ground (arith, e)), (ground arith, λ e. ground (arith, e)), omega arith)

blank : encode_transactions_msg (codes " ") ≡ err empty_fields
unfolding encode_transactions_msg encode_fields fields fields_loop flush is_space
blank = refl

listener_emits_example :
    transaction_event_listener (event_line gift ∷ codes " " ∷ event_line pay ∷ [])
    ≡ routed gift ∷ routed pay ∷ []
listener_emits_example = listener_emits (
    event gift gift-IsWritable
      (noise (codes " ") empty_fields blank (event pay pay-IsWritable ends)))
