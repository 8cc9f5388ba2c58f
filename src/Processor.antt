-- ===== src/Processor.antt =====
-- lib/mp1/transaction/processor.go: the handlers behind the router of the total order, which apply
-- events to the ledger.
pub mod Replicas
pub mod Applied
pub mod Tests
use cs425_mps.Base.{Option, none, some, List, [], ◌∷◌, ◌++◌}
use cs425_mps.Base.Int.{ℤ}
use cs425_mps.Base.Text.{Str, codes}
use cs425_mps.Base.Run.{Run, ok}
use cs425_mps.Base.Result.{Error}
use cs425_mps.Codec.{Codec}
use cs425_mps.Strings.{format_int}
use cs425_mps.Message.{ToMsg}
use cs425_mps.Router.{Router, bind, run}
use cs425_mps.Event.{
  Deposit, Transfer, decode_deposit, decode_transfer, deposit_path, transfer_path,
}
use cs425_mps.Transaction.{
  Transaction, new_transaction, deposit, transfer, balances_snapshot_std_sorted_string,
}

-- `printed` are the lines on standard output.
pub record Processor : Type 0 where
  pub transaction : Transaction
  pub printed : List Str

unfoldable pub new_processor : Processor
unfolding new_transaction
new_processor = record { transaction = new_transaction; printed = [] }

pub data Handler : Type 0 where
  handles_deposit handles_transfer : Handler

unfoldable pub registe_transaction_handler : Router Handler → Router Handler
registe_transaction_handler d =
    bind (bind d deposit_path handles_deposit) transfer_path handles_transfer

abbrev pub deposit_text : Deposit → Str
deposit_text d = codes "DEPOSIT " ++ (d.account ++ (b' ' ∷ format_int d.amount))

abbrev pub transfer_text : Transfer → Str
transfer_text t =
    codes "TRANSFER " ++ (t.from_account ++ (b' ' ∷ (t.to_account ++ (b' ' ∷ format_int t.amount))))

unfoldable pub process_deposit : Codec Deposit → Processor → ToMsg → Processor × Option Error
process_deposit cd p msg =
    let (d, failed) = decode_deposit cd msg.body in
    let printed = p.printed ++ deposit_text d ∷ [] in
    let (t, refused) = deposit p.transaction d.account d.amount in
    elim failed [
      | some e ↦ (p, some e)
      | none ↦ elim refused [
        | some e ↦ (record { transaction = t; printed = printed }, some e)
        | none ↦ (
          record {
            transaction = t;
            printed = printed ++ balances_snapshot_std_sorted_string t ∷ [];
          },
          none,
        )
      ]
    ]

-- The snapshot after a transfer is only logged.
unfoldable pub process_transfer : Codec Transfer → Processor → ToMsg → Processor × Option Error
process_transfer ct p msg =
    let (x, failed) = decode_transfer ct msg.body in
    let printed = p.printed ++ transfer_text x ∷ [] in
    let (t, refused) = transfer p.transaction x.from_account x.to_account x.amount in
    elim failed [
      | some e ↦ (p, some e)
      | none ↦ (record { transaction = t; printed = printed }, refused)
    ]

abbrev pub handle :
    Codec Deposit → Codec Transfer → Handler → ToMsg → Processor → Run (Processor × Option Error)
handle cd ct handles_deposit msg p = ok (process_deposit cd p msg)
handle cd ct handles_transfer msg p = ok (process_transfer ct p msg)

-- What the router of the total order does with a message, once the handlers are bound.
unfoldable pub process :
    Codec Deposit
    → Codec Transfer
    → Router Handler
    → Str
    → ToMsg
    → Processor
    → Run (Processor × Option Error)
process cd ct d path msg p = run (handle cd ct) d path msg p
