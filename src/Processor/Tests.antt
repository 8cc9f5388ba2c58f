-- ===== src/Processor/Tests.antt =====
-- A codec of events, and two replicas whose maps are in different orders.
use cs425_mps.Base.{
  ℕ, zero, suc, ◌≡◌, refl, sym, ap, ◌∙◌, Option, none, some, [], ◌∷◌, ◌++◌, length, arith,
}
use cs425_mps.Base.Int.{ℤ, pos, negsuc}
use cs425_mps.Base.Text.{Str, codes, str_eq, str_eq_iff}
use cs425_mps.Base.Dict.{lookup}
use cs425_mps.Base.Run.{ok}
use cs425_mps.Base.Result.{Error, Result, unmarshal_failed}
use cs425_mps.Codec.{Codec, Bytes, IsLossless}
use cs425_mps.Message.{ToMsg, new_to_msg}
use cs425_mps.Event.{transfers, Deposit, Transfer, deposit_path, transfer_path}
use cs425_mps.Processor.{Processor, process}
use cs425_mps.Processor.Replicas.{SameProcessor, process_all, replicas_agree}
use cs425_mps.Processor.Applied.{event_msg, handlers, Applies, event-Applies}

-- A sign, the number, and the account.
abbrev write_amount : ℤ → Bytes → Bytes
write_amount (pos n) bytes = 0 ∷ n ∷ bytes
write_amount (negsuc n) bytes = 1 ∷ n ∷ bytes

abbrev read_amount : ℕ → ℕ → ℤ
read_amount zero n = pos n
read_amount (suc s) n = negsuc n

abbrev read_deposit : Bytes → Deposit × Option Error
read_deposit (s ∷ n ∷ account) = (record { account = account; amount = read_amount s n }, none)
read_deposit _ = (record { account = []; amount = pos 0 }, some unmarshal_failed)

abbrev pub deposit_codec : Codec Deposit
deposit_codec = record {
  marshal = λ d. Result.ok (write_amount d.amount d.account);
  unmarshal = read_deposit;
}

pub deposit_codec-IsLossless : IsLossless deposit_codec
deposit_codec-IsLossless = record {
  marshals = λ d. (write_amount d.amount d.account, refl);
  reads_back = λ d bytes e.
      let same : write_amount d.amount d.account ≡ bytes = cc in
      ap read_deposit (sym same) ∙ back d.account d.amount;
}
  where
    back :
        (account : Str) (amount : ℤ)
        → read_deposit (write_amount amount account)
          ≡ (record { account = account; amount = amount }, none)
    back account (pos n) = refl
    back account (negsuc n) = refl

abbrev split : ℕ → Bytes → Bytes × Bytes
split zero bytes = ([], bytes)
split (suc n) [] = ([], [])
split (suc n) (b ∷ bytes) = let (one, two) = split n bytes in (b ∷ one, two)

split-append : (one two : Bytes) → split (length one) (one ++ two) ≡ (one, two)
split-append [] two = refl
split-append (b ∷ one) two = rw (split-append one two) refl

abbrev write_transfer : Transfer → Bytes
write_transfer x = write_amount x.amount (length x.from_account ∷ (x.from_account ++ x.to_account))

abbrev read_transfer : Bytes → Transfer × Option Error
read_transfer (s ∷ n ∷ k ∷ bytes) =
    let (one, two) = split k bytes in
    (record { from_account = one; to_account = two; amount = read_amount s n }, none)
read_transfer _ =
    (record { from_account = []; to_account = []; amount = pos 0 }, some unmarshal_failed)

abbrev pub transfer_codec : Codec Transfer
transfer_codec = record { marshal = λ x. Result.ok (write_transfer x); unmarshal = read_transfer }

pub transfer_codec-IsLossless : IsLossless transfer_codec
transfer_codec-IsLossless = record {
  marshals = λ x. (write_transfer x, refl);
  reads_back = λ x bytes e.
      let same : write_transfer x ≡ bytes = cc in
      ap read_transfer (sym same) ∙ back x.from_account x.to_account x.amount;
}
  where
    back :
        (one two : Str) (amount : ℤ)
        → read_transfer (write_amount amount (length one ∷ (one ++ two)))
          ≡ (record { from_account = one; to_account = two; amount = amount }, none)
    back one two (pos n) = rw (split-append one two) refl
    back one two (negsuc n) = rw (split-append one two) refl

abbrev alice : Str
alice = codes "alice"

abbrev bob : Str
bob = codes "bob"

abbrev one_replica : Processor
one_replica = record {
  transaction = record { balances = (alice, pos 10) ∷ (bob, pos 5) ∷ [] };
  printed = [];
}

abbrev other_replica : Processor
other_replica = record {
  transaction = record { balances = (bob, pos 5) ∷ (alice, pos 10) ∷ [] };
  printed = [];
}

same_replicas : SameProcessor one_replica other_replica
unfolding lookup str_eq
same_replicas = record {
  ledger = record {
    left = (refl, (refl, tt));
    right = (refl, (refl, tt));
    entries = λ k. ground (arith, str_eq_iff alice k, str_eq_iff bob k, not_bob);
  };
  printed = refl;
}
  where
    not_bob : ¬ (alice ≡ bob)
    not_bob e = ground (arith, e)

abbrev pay : Transfer
pay = record { from_account = alice; to_account = bob; amount = pos 7 }

abbrev pay_msg : ToMsg
pay_msg = record { path = transfer_path; body = write_transfer pay }

abbrev gift_msg : ToMsg
gift_msg = record { path = deposit_path; body = write_amount (pos 3) bob }

replicas_agree_example :
    (p' : Processor) × ((q' : Processor) × (process_all deposit_codec transfer_codec handlers
          (gift_msg ∷ pay_msg ∷ [])
          one_replica
        ≡ ok p')
      × (process_all deposit_codec transfer_codec handlers (gift_msg ∷ pay_msg ∷ []) other_replica
          ≡ ok q')
      × SameProcessor p' q')
replicas_agree_example =
    replicas_agree deposit_codec transfer_codec handlers (gift_msg ∷ pay_msg ∷ []) one_replica
      other_replica same_replicas

pay_encoded : event_msg deposit_codec transfer_codec (transfers pay) ≡ Result.ok pay_msg
unfolding new_to_msg
pay_encoded = refl

event-Applies_example :
    Applies one_replica
      (transfers pay)
      (process deposit_codec transfer_codec handlers pay_msg.path pay_msg one_replica)
event-Applies_example =
    event-Applies deposit_codec transfer_codec (transfers pay) pay_msg one_replica
      deposit_codec-IsLossless transfer_codec-IsLossless pay_encoded
