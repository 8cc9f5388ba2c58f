-- ===== src/Base/Result.antt =====
-- Go's errors. `error` is `Option Error`, with `none` for nil; `(value, error)` is `Result`. The
-- texts of the errors are left out.

pub data Error : Type 0 where
  empty_sequence empty_fields bad_format unknown_event bad_number out_of_range : Error
  negative_amount no_account no_funds : Error
  marshal_failed unmarshal_failed no_route no_sender send_failed unknown_msg : Error
  listen_failed dial_failed open_failed read_failed attempts_exceeded bad_port bad_args : Error

pub data Result {ℓ} (A : Type ℓ) : Type ℓ where
  ok : A → Result A
  err : Error → Result A

infixl 5 ◌>>=◌
abbrev pub ◌>>=◌ {ℓ κ} : {A : Type ℓ} {B : Type κ} → Result A → (A → Result B) → Result B
ok a >>= f = f a
err e >>= f = err e
