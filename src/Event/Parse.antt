-- ===== src/Event/Parse.antt =====
-- The parser reads back every line of the generator's form, and rejects the others.
use cs425_mps.Base.{◌≡◌, refl, ap, ◌∙◌, ◌≢◌, inl, inr, Bool-cases, List, [], ◌∷◌, ◌++◌, arith}
use cs425_mps.Base.Int.{ℤ, IsInt}
use cs425_mps.Base.Text.{Str, codes, str_eq, str_eq_iff}
use cs425_mps.Base.Result.{Result, ok, err, ◌>>=◌}
use cs425_mps.Router.{Msg, new_msg}
use cs425_mps.Strings.{fields, atoi, format_int, is_space}
use cs425_mps.Strings.Number.{IsWord, atoi-format_int, format_int-IsWord, format_int-ne_nil}
use cs425_mps.Strings.Fields.{fields_cons, fields_last}
use cs425_mps.Event.{
  Event, deposits, transfers, deposit_event, transfer_event, deposit_path, transfer_path,
  encode_transactions_msg, encode_fields, encode_deposit_event, encode_transfer_event,
}

-- `DEPOSIT account amount`
abbrev pub deposit_line : Str → ℤ → Str
deposit_line account amount = deposit_event ++ b' ' ∷ (account ++ b' ' ∷ format_int amount)

-- `TRANSFER from -> to amount`
abbrev pub transfer_line : Str → Str → ℤ → Str
transfer_line f g amount =
    transfer_event ++ b' ' ∷ (f ++ b' ' ∷ (codes "->" ++ b' ' ∷ (g ++ b' ' ∷ format_int amount)))

deposit_event-IsWord : IsWord deposit_event
unfolding is_space
deposit_event-IsWord = ground arith

transfer_event-IsWord : IsWord transfer_event
unfolding is_space
transfer_event-IsWord = ground arith

arrow-IsWord : IsWord (codes "->")
unfolding is_space
arrow-IsWord = ground arith

last_amount : (amount : ℤ) → fields (format_int amount) ≡ format_int amount ∷ []
last_amount amount =
    fields_last (format_int amount) (format_int-IsWord amount) (format_int-ne_nil amount)

-- The line of a deposit to an account of one word, with any int, is parsed to that deposit.
pub parse_deposit :
    (account : Str) (amount : ℤ)
    → IsWord account
    → account ≢ []
    → IsInt amount
    → encode_transactions_msg (deposit_line account amount)
      ≡ ok (new_msg deposit_path (deposits (record { account = account; amount = amount })))
unfolding encode_transactions_msg str_eq
parse_deposit account amount w ne h =
    let split : fields (deposit_line account amount)
        ≡ deposit_event ∷ account ∷ format_int amount ∷ [] =
      fields_cons deposit_event (account ++ b' ' ∷ format_int amount) deposit_event-IsWord (λ e. cc)
      ∙ ap (◌∷◌ deposit_event)
          (fields_cons account (format_int amount) w ne ∙ ap (◌∷◌ account) (last_amount amount)) in
    rw (split, encode_fields, encode_deposit_event, atoi-format_int amount h)

-- The line of a transfer between accounts of one word each, with any int, is parsed to that
-- transfer.
pub parse_transfer :
    (from_account to_account : Str) (amount : ℤ)
    → IsWord from_account
    → from_account ≢ []
    → IsWord to_account
    → to_account ≢ []
    → IsInt amount
    → encode_transactions_msg (transfer_line from_account to_account amount)
      ≡ ok (
          new_msg transfer_path (
            transfers
              (record { from_account = from_account; to_account = to_account; amount = amount })))
unfolding encode_transactions_msg str_eq
parse_transfer f g amount wf nf wg ng h =
    let end = format_int amount in
    let split : fields (transfer_line f g amount) ≡ transfer_event ∷ f ∷ codes "->" ∷ g ∷ end ∷ [] =
      fields_cons transfer_event (f ++ b' ' ∷ (codes "->" ++ b' ' ∷ (g ++ b' ' ∷ end)))
        transfer_event-IsWord (λ e. cc)
      ∙ ap (◌∷◌ transfer_event) (
          fields_cons f (codes "->" ++ b' ' ∷ (g ++ b' ' ∷ end)) wf nf
          ∙ ap (◌∷◌ f) (
              fields_cons (codes "->") (g ++ b' ' ∷ end) arrow-IsWord (λ e. cc)
              ∙ ap (◌∷◌ (codes "->"))
                  (fields_cons g end wg ng ∙ ap (◌∷◌ g) (last_amount amount)))) in
    rw (split, encode_fields, encode_transfer_event, atoi-format_int amount h)

-- What an accepted line looks like: three fields with an amount, or five.
pub data Accepts (line : List Str) (m : Msg Event) : Type 0 where
  a_deposit :
      (account digits : Str) (amount : ℤ)
      → line ≡ deposit_event ∷ account ∷ digits ∷ []
      → atoi digits ≡ ok amount
      → m ≡ new_msg deposit_path (deposits (record { account = account; amount = amount }))
      → Accepts line m
  a_transfer :
      (f arrow g digits : Str) (amount : ℤ)
      → line ≡ transfer_event ∷ f ∷ arrow ∷ g ∷ digits ∷ []
      → atoi digits ≡ ok amount
      → m
        ≡ new_msg transfer_path
            (transfers (record { from_account = f; to_account = g; amount = amount }))
      → Accepts line m

>>=-eq-ok :
    {A B : Type 0} (r : Result A) (f : A → Result B) {b : B}
    → (r >>= f) ≡ ok b
    → (a : A) × (r ≡ ok a) × (f a ≡ ok b)
>>=-eq-ok (ok a) f h = (a, refl, h)
>>=-eq-ok (err e) f h = cc

deposit-Accepts :
    (event : Str) (rest : List Str) (m : Msg Event)
    → event ≡ deposit_event
    → encode_deposit_event (event ∷ rest) ≡ ok m
    → Accepts (event ∷ rest) m
unfolding encode_deposit_event
deposit-Accepts event (account ∷ digits ∷ []) m e h =
    let (amount, read, made) = >>=-eq-ok (atoi digits) _ h in
    a_deposit account digits amount (rw e) read (cc)
deposit-Accepts event [] m e h = cc
deposit-Accepts event (a ∷ []) m e h = cc
deposit-Accepts event (a ∷ b ∷ c ∷ rest) m e h = cc

transfer-Accepts :
    (event : Str) (rest : List Str) (m : Msg Event)
    → event ≡ transfer_event
    → encode_transfer_event (event ∷ rest) ≡ ok m
    → Accepts (event ∷ rest) m
unfolding encode_transfer_event
transfer-Accepts event (f ∷ arrow ∷ g ∷ digits ∷ []) m e h =
    let (amount, read, made) = >>=-eq-ok (atoi digits) _ h in
    a_transfer f arrow g digits amount (rw e) read (cc)
transfer-Accepts event [] m e h = cc
transfer-Accepts event (a ∷ []) m e h = cc
transfer-Accepts event (a ∷ b ∷ []) m e h = cc
transfer-Accepts event (a ∷ b ∷ c ∷ []) m e h = cc
transfer-Accepts event (a ∷ b ∷ c ∷ d ∷ x ∷ rest) m e h = cc

encode_fields-Accepts :
    (line : List Str) (m : Msg Event) → encode_fields line ≡ ok m → Accepts line m
unfolding encode_fields
encode_fields-Accepts [] m h = cc
encode_fields-Accepts (event ∷ rest) m h = elim (Bool-cases (str_eq event deposit_event)) [
  | inl d ↦
      deposit-Accepts event rest m ((str_eq_iff event deposit_event).0 d)
        (rw (d, encode_fields) at h)
  | inr nd ↦ elim (Bool-cases (str_eq event transfer_event)) [
    | inl t ↦
        transfer-Accepts event rest m ((str_eq_iff event transfer_event).0 t) (rw (nd, t) at h)
    | inr nt ↦ absurd (ground (arith, h, nd, nt))
  ]
]

-- A line is accepted only if its fields are those of a deposit or of a transfer with an amount
-- that Atoi reads, and the message carries those fields.
pub parse-Accepts :
    (line : Str) (m : Msg Event) → encode_transactions_msg line ≡ ok m → Accepts (fields line) m
unfolding encode_transactions_msg
parse-Accepts line m h = encode_fields-Accepts (fields line) m h
