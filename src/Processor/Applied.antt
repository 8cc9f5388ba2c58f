-- ===== src/Processor/Applied.antt =====
-- An event reaches the ledger as it was read.
use cs425_mps.Base.{
  ◌≡◌, refl, sym, ap, ◌∙◌, inl, inr, Option, none, List, [], ◌∷◌, ◌++◌, Option-cases,
}
use mathlib.Core.List.{append_assoc}
use cs425_mps.Base.Text.{Str, str_eq}
use cs425_mps.Base.Dict.{lookup, insert}
use cs425_mps.Base.Run.{Run, ok}
use cs425_mps.Base.Result.{Error, Result}
use cs425_mps.Codec.{Codec, IsLossless}
use cs425_mps.Message.{ToMsg, new_to_msg}
use cs425_mps.Router.{Router, new, bind, run}
use cs425_mps.Event.{
  Event, deposits, transfers, Deposit, Transfer, deposit_path, transfer_path, decode_deposit,
  decode_transfer,
}
use cs425_mps.Transaction.{Transaction, deposit, transfer, balances_snapshot_std_sorted_string}
use cs425_mps.Processor.{
  Processor, Handler, process_deposit, process_transfer, process, registe_transaction_handler,
  deposit_text, transfer_text,
}

-- The message that the event listener makes of an event.
abbrev pub event_msg : Codec Deposit → Codec Transfer → Event → Result ToMsg
event_msg cd ct (deposits d) = new_to_msg cd deposit_path d
event_msg cd ct (transfers x) = new_to_msg ct transfer_path x

-- The event on the ledger.
abbrev pub apply_event : Transaction → Event → Transaction × Option Error
apply_event t (deposits d) = deposit t d.account d.amount
apply_event t (transfers x) = transfer t x.from_account x.to_account x.amount

abbrev pub handlers : Router Handler
handlers = registe_transaction_handler new

-- A message of a value carries its encoding.
new_to_msg-parts :
    {V : Type 0} (c : Codec V) (path : Str) (v : V) (m : ToMsg)
    → IsLossless c
    → new_to_msg c path v ≡ Result.ok m
    → (m.path ≡ path) × (c.unmarshal m.body ≡ (v, none))
unfolding new_to_msg
new_to_msg-parts c path v m l e =
    let (bytes, written) = l.marshals v in
    let whole : Result.ok (record { path = path; body = bytes }) ≡ Result.ok m =
      rw (written, new_to_msg) at e in
    let same : record { path = path; body = bytes } ≡ m = cc in
    (
      sym (ap (λ (x : ToMsg). x.path) same),
      ap (λ (x : ToMsg). c.unmarshal x.body) (sym same) ∙ l.reads_back v bytes written,
    )

-- `r` is what `process` makes of the event: the ledger and the error are those of the event, and some
-- lines were printed.
abbrev pub Applies : Processor → Event → Run (Processor × Option Error) → Type 0
Applies p event r =
    (lines : List Str) × (r
      ≡ ok (
        record { transaction = (apply_event p.transaction event).0; printed = p.printed ++ lines },
        (apply_event p.transaction event).1,
      ))

deposit-Applies :
    (cd : Codec Deposit) (p : Processor) (d : Deposit) (m : ToMsg)
    → cd.unmarshal m.body ≡ (d, none)
    → Applies p (deposits d) (ok (process_deposit cd p m))
unfolding process_deposit decode_deposit
deposit-Applies cd p d m e = elim (Option-cases (deposit p.transaction d.account d.amount).1) [
  | inl done ↦ (
    deposit_text d
        ∷ balances_snapshot_std_sorted_string (deposit p.transaction d.account d.amount).0
        ∷ [],
    rw (e, done, process_deposit, decode_deposit)
        (rw (e, done, decode_deposit)
          (rw (e, decode_deposit)
            (rw
              (append_assoc p.printed (deposit_text d ∷ []) (
                balances_snapshot_std_sorted_string (deposit p.transaction d.account d.amount).0
                ∷ []))
              refl))),
  )
  | inr (x, refused) ↦ (
    deposit_text d ∷ [],
    rw (e, refused, process_deposit, decode_deposit)
        (rw (e, refused, decode_deposit) (rw (e, decode_deposit) refl)),
  )
]

transfer-Applies :
    (ct : Codec Transfer) (p : Processor) (x : Transfer) (m : ToMsg)
    → ct.unmarshal m.body ≡ (x, none)
    → Applies p (transfers x) (ok (process_transfer ct p m))
unfolding process_transfer decode_transfer
transfer-Applies ct p x m e =
    (transfer_text x ∷ [], rw (e, process_transfer, decode_transfer) (rw (e, decode_transfer) refl))

-- With codecs that read back what they write, the message made of an event is routed to the
-- handler of that event, and leaves the ledger and the error as the event applied to the ledger
-- does.
pub event-Applies :
    (cd : Codec Deposit) (ct : Codec Transfer) (event : Event) (m : ToMsg) (p : Processor)
    → IsLossless cd
    → IsLossless ct
    → event_msg cd ct event ≡ Result.ok m
    → Applies p event (process cd ct handlers m.path m p)
unfolding process run registe_transaction_handler new bind lookup insert str_eq
event-Applies cd ct (deposits d) m p ld lt e =
    let (at, body) = new_to_msg-parts cd deposit_path d m ld e in
    rw at (deposit-Applies cd p d m body)
event-Applies cd ct (transfers x) m p ld lt e =
    let (at, body) = new_to_msg-parts ct transfer_path x m lt e in
    rw at (transfer-Applies ct p x m body)
