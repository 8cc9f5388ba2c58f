-- ===== src/Base/Run.antt =====
-- How a call of Go ends: with a value, by a run-time panic, or with the model's fuel used up.
use mathlib.Core.Path.{◌≡◌, refl, subst}
use native.Mathlib.Omega.{arith}
use mathlib.Core.Bool.{Bool, true, false}
use mathlib.Core.Option.{Option, none, some}
use cs425_mps.Base.Tests.{if◌then◌else◌}

pub data Run {ℓ} (A : Type ℓ) : Type ℓ where
  ok : A → Run A
  panic out_of_fuel : Run A

infixl 5 ◌>>=◌
abbrev pub ◌>>=◌ {ℓ κ} : {A : Type ℓ} {B : Type κ} → Run A → (A → Run B) → Run B
ok a >>= f = f a
panic >>= f = panic
out_of_fuel >>= f = out_of_fuel

-- The value of a read that panics out of range.
abbrev pub or_panic {ℓ} : {A : Type ℓ} → Option A → Run A
or_panic (some a) = ok a
or_panic none = panic

-- A chain that ends normally is one of calls that do.
pub bind-ok {ℓ κ} :
    {A : Type ℓ} {B : Type κ} (call : Run A) (rest : A → Run B) (b : B)
    → (call >>= rest) ≡ ok b
    → (a : A) × (call ≡ ok a) × (rest a ≡ ok b)
bind-ok (ok a) rest b e = (a, refl, e)
bind-ok panic rest b e = absurd (ground arith)
bind-ok out_of_fuel rest b e = absurd (ground arith)

-- The call ends normally, with a value of which `P` holds.
pub data Returns {ℓ κ} {A : Type ℓ} (P : A → Type κ) : Run A → Type (ℓ ⊔ κ) where
  returns : {a : A} → P a → Returns P (ok a)

module _ {ℓ κ} {A : Type ℓ} {P : A → Type κ} where
  -- The value of a call that ends normally.
  pub Returns-inv : {call : Run A} → Returns P call → (a : A) × (call ≡ ok a) × P a
  Returns-inv (returns h) = (_, refl, h)

  pub Returns-ok : {call : Run A} {a : A} → call ≡ ok a → Returns P call → P a
  Returns-ok {call} {a} e w = let (c, f, h) = Returns-inv w in subst P (same c f) h
    where
      same : (c : A) → call ≡ ok c → c ≡ a
      same c f = cc

  pub Returns-if :
      (test : Bool) {yes no : Run A}
      → (test ≡ true → Returns P yes)
      → (test ≡ false → Returns P no)
      → Returns P (if test then yes else no)
  Returns-if true h g = h refl
  Returns-if false h g = g refl

  module _ {μ} {Q : A → Type μ} where
    pub Returns-map : {call : Run A} → Returns P call → ((a : A) → P a → Q a) → Returns Q call
    Returns-map (returns h) weaken = returns (weaken _ h)

  module _ {ν μ} {B : Type ν} {Q : B → Type μ} where
    pub Returns-bind :
        {call : Run A} {rest : A → Run B}
        → Returns P call
        → ((a : A) → P a → Returns Q (rest a))
        → Returns Q (call >>= rest)
    Returns-bind (returns h) after = after _ h
