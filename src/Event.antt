-- ===== src/Event.antt =====
-- lib/mp1/transaction/types.go: the events that a node reads from its input.
pub mod Parse
mod Tests
use cs425_mps.Base.{ℕ, Bool, Option, List, [], ◌∷◌, if◌then◌else◌}
use cs425_mps.Base.Int.{ℤ}
use cs425_mps.Base.Text.{Str, codes, str_eq}
use cs425_mps.Base.Result.{Error, Result, ok, err, ◌>>=◌, empty_fields, bad_format, unknown_event}
use cs425_mps.Codec.{Codec, Bytes}
use cs425_mps.Router.{Msg, new_msg}
use cs425_mps.Strings.{fields, atoi}

pub record Deposit : Type 0 where
  pub account : Str
  pub amount : ℤ

pub record Transfer : Type 0 where
  pub from_account : Str
  pub to_account : Str
  pub amount : ℤ

unfoldable pub encode_deposit : Codec Deposit → Deposit → Result Bytes
encode_deposit c d = do bytes ← c.marshal d; ok bytes

unfoldable pub decode_deposit : Codec Deposit → Bytes → Deposit × Option Error
decode_deposit c bytes = c.unmarshal bytes

unfoldable pub encode_transfer : Codec Transfer → Transfer → Result Bytes
encode_transfer c t = do bytes ← c.marshal t; ok bytes

unfoldable pub decode_transfer : Codec Transfer → Bytes → Transfer × Option Error
decode_transfer c bytes = c.unmarshal bytes

-- The `interface{}` that a message of the listener carries.
pub data Event : Type 0 where
  deposits : Deposit → Event
  transfers : Transfer → Event

abbrev pub deposit_event : Str
deposit_event = codes "DEPOSIT"

abbrev pub transfer_event : Str
transfer_event = codes "TRANSFER"

abbrev pub deposit_path : Str
deposit_path = codes "/transaction/deposit"

abbrev pub transfer_path : Str
transfer_path = codes "/transaction/transfer"

-- The case of a deposit, on all fields of the line.
unfoldable pub encode_deposit_event : List Str → Result (Msg Event)
encode_deposit_event (event ∷ account ∷ amount_field ∷ []) = do
  amount ← atoi amount_field
  ok (new_msg deposit_path (deposits (record { account = account; amount = amount })))
encode_deposit_event _ = err bad_format

-- The case of a transfer; the third field, an arrow, is not looked at.
unfoldable pub encode_transfer_event : List Str → Result (Msg Event)
encode_transfer_event (event ∷ from_account ∷ arrow ∷ to_account ∷ amount_field ∷ []) = do
  amount ← atoi amount_field
  ok (
      new_msg transfer_path (
        transfers
          (record { from_account = from_account; to_account = to_account; amount = amount })))
encode_transfer_event _ = err bad_format

unfoldable pub encode_fields : List Str → Result (Msg Event)
unfolding encode_deposit_event encode_transfer_event
encode_fields [] = err empty_fields
encode_fields (event ∷ rest) =
    if str_eq event deposit_event
    then encode_deposit_event (event ∷ rest)
    else if str_eq event transfer_event
    then encode_transfer_event (event ∷ rest)
    else err unknown_event

unfoldable pub encode_transactions_msg : Str → Result (Msg Event)
unfolding encode_fields
encode_transactions_msg msg = encode_fields (fields msg)
