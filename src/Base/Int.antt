-- ===== src/Base/Int.antt =====
-- Go's `int` and `uint64`: 64-bit words with their wrap-around written out, over signed integers.
use Prim.Native.Nat.{ℕ, suc, ◌+◌, ◌-◌, ◌%◌, ◌^◌, ◌≤◌, ◌<◌}
use mathlib.Core.Path.{◌≡◌}
use mathlib.Core.Bool.{Bool, true, false}
use mathlib.Core.Logic.{◌⊎◌, inl, inr}
use native.Mathlib.Decide.{dec_lt}
use native.Mathlib.Omega.{arith}
use cs425_mps.Base.Tests.{ltb, leb, if◌then◌else◌}

-- `negsuc n` is -(n + 1).
pub data ℤ : Type 0 where
  pos : ℕ → ℤ
  negsuc : ℕ → ℤ

abbrev pub pos_part : ℤ → ℕ
pos_part (pos n) = n
pos_part (negsuc n) = 0

abbrev pub neg_part : ℤ → ℕ
neg_part (pos n) = 0
neg_part (negsuc n) = suc n

-- a - b, as an integer.
abbrev pub sub_ℕ : ℕ → ℕ → ℤ
sub_ℕ a b = if leb b a then pos (a - b) else negsuc (b - a - 1)

infixl 65 ◌+ℤ◌ ◌-ℤ◌
infix 50 ◌≤ℤ◌
unfoldable pub ◌+ℤ◌ : ℤ → ℤ → ℤ
a +ℤ b = sub_ℕ (pos_part a + pos_part b) (neg_part a + neg_part b)

unfoldable pub ◌-ℤ◌ : ℤ → ℤ → ℤ
a -ℤ b = sub_ℕ (pos_part a + neg_part b) (neg_part a + pos_part b)

abbrev pub ◌≤ℤ◌ : ℤ → ℤ → Type 0
a ≤ℤ b = pos_part a + neg_part b ≤ pos_part b + neg_part a

abbrev pub is_negative : ℤ → Bool
is_negative (pos n) = false
is_negative (negsuc n) = true

pub +ℤ_parts :
    (a b : ℤ)
    → pos_part (a +ℤ b) + neg_part a + neg_part b ≡ neg_part (a +ℤ b) + pos_part a + pos_part b
unfolding ◌+ℤ◌
+ℤ_parts a b = ground arith

pub -ℤ_parts :
    (a b : ℤ)
    → pos_part (a -ℤ b) + neg_part a + pos_part b ≡ neg_part (a -ℤ b) + pos_part a + neg_part b
unfolding ◌-ℤ◌
-ℤ_parts a b = ground arith

pub eq_of_parts : (a b : ℤ) → pos_part a + neg_part b ≡ pos_part b + neg_part a → a ≡ b
eq_of_parts a b h = ground arith

pub ruleset int_laws = (arith, +ℤ_parts, -ℤ_parts, eq_of_parts)

abbrev pub word : ℕ
word = 2 ^ 64

abbrev pub half_word : ℕ
half_word = 2 ^ 63

-- The signed value of a bit pattern.
abbrev signed : ℕ → ℤ
signed u = if ltb u half_word then pos u else negsuc (word - 1 - u)

-- The `int` that an integer wraps to.
unfoldable pub wrap : ℤ → ℤ
wrap (pos n) = signed (n % word)
wrap (negsuc n) = signed (word - 1 - n % word)

-- A value that an `int` can hold.
abbrev pub IsInt : ℤ → Type 0
IsInt (pos n) = n < half_word
IsInt (negsuc n) = n < half_word

pub wrap_of_IsInt : (z : ℤ) → IsInt z → wrap z ≡ z
unfolding wrap
wrap_of_IsInt (pos n) h = ground arith
wrap_of_IsInt (negsuc n) h = ground arith

pub wrap-IsInt : (z : ℤ) → IsInt (wrap z)
unfolding wrap
wrap-IsInt (pos n) = ground arith
wrap-IsInt (negsuc n) = ground arith

-- `x + y` and `x - y` on `int`.
unfoldable pub add_int : ℤ → ℤ → ℤ
add_int a b = wrap (a +ℤ b)

unfoldable pub sub_int : ℤ → ℤ → ℤ
sub_int a b = wrap (a -ℤ b)

-- `x + 1` on `uint64`.
unfoldable pub suc_uint64 : ℕ → ℕ
suc_uint64 n = (n + 1) % word

pub IsInt-of_nonneg : (z : ℤ) → neg_part z ≡ 0 → pos_part z < half_word → IsInt z
IsInt-of_nonneg (pos n) e h = h
IsInt-of_nonneg (negsuc n) e h = absurd (omega arith)

pub IsInt-of_negative : (z : ℤ) → neg_part z ≤ half_word → pos_part z ≡ 0 → IsInt z
IsInt-of_negative (pos n) e h = omega arith
IsInt-of_negative (negsuc n) e h = omega arith

pub is_negative-parts : (z : ℤ) → is_negative z ≡ false → neg_part z ≡ 0
is_negative-parts (pos n) e = omega arith
is_negative-parts (negsuc n) e = ground arith

pub is_negative-parts_true : (z : ℤ) → is_negative z ≡ true → 0 < neg_part z
is_negative-parts_true (pos n) e = ground arith
is_negative-parts_true (negsuc n) e = omega arith

-- One of the two parts is 0.
pub parts_apart : (z : ℤ) → 0 < neg_part z → pos_part z ≡ 0
parts_apart (pos n) e = absurd (omega arith)
parts_apart (negsuc n) e = omega arith

-- The sum of two amounts that are not negative does not wrap below the bound.
pub add_int_nonneg :
    (a b : ℤ)
    → neg_part a ≡ 0
    → neg_part b ≡ 0
    → pos_part a + pos_part b < half_word
    → (neg_part (add_int a b) ≡ 0) × (pos_part (add_int a b) ≡ pos_part a + pos_part b)
unfolding add_int ◌+ℤ◌ wrap
add_int_nonneg (pos a) (pos b) e f h = ground arith
add_int_nonneg (pos a) (negsuc b) e f h = absurd (omega arith)
add_int_nonneg (negsuc a) b e f h = absurd (omega arith)

-- The difference of two amounts is negative exactly if the first is the smaller.
pub sub_int_nonneg :
    (a b : ℤ)
    → neg_part a ≡ 0
    → neg_part b ≡ 0
    → pos_part a < half_word
    → pos_part b < half_word
    → ((pos_part a < pos_part b) × (is_negative (sub_int a b) ≡ true))
      ⊎ ((pos_part b ≤ pos_part a)
          × (is_negative (sub_int a b) ≡ false)
          × (neg_part (sub_int a b) ≡ 0)
          × (pos_part (sub_int a b) + pos_part b ≡ pos_part a))
unfolding sub_int ◌-ℤ◌ wrap
sub_int_nonneg (pos a) (pos b) e f h k = elim (dec_lt a b) [
  | yes lt ↦ inl (lt, ground arith)
  | no ge ↦ inr (omega arith, ground arith, ground arith, ground arith)
]
sub_int_nonneg (pos a) (negsuc b) e f h k = absurd (omega arith)
sub_int_nonneg (negsuc a) b e f h k = absurd (omega arith)

-- A sum of amounts that are not negative.
pub +ℤ_nonneg :
    (a b : ℤ)
    → neg_part a ≡ 0
    → neg_part b ≡ 0
    → (neg_part (a +ℤ b) ≡ 0) × (pos_part (a +ℤ b) ≡ pos_part a + pos_part b)
unfolding ◌+ℤ◌
+ℤ_nonneg a b e f = ground arith
