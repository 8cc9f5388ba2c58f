-- ===== src/Strings/Number.antt =====
-- `Atoi` reads what `%d` prints.
use cs425_mps.Base.{
  ℕ, zero, suc, ◌+◌, ◌-◌, ◌*◌, ◌/◌, ◌%◌, ◌<◌, ◌≡◌, refl, ◌∙◌, ◌≢◌, ap, inl, inr, true, false, some,
  [], ◌∷◌, ltb, ◌==◌, arith, Bool-cases, All,
}
use cs425_mps.Base.Int.{ℤ, pos, negsuc, half_word, IsInt}
use cs425_mps.Base.Text.{Str}
use cs425_mps.Base.Result.{ok}
use cs425_mps.Strings.{
  is_space, is_digit, read_digits, positive, negated, read_number, atoi, digits_loop, format_int,
}

read_digit :
    (m d : ℕ) (s : Str) → d < 10 → read_digits m ((b'0' + d) ∷ s) ≡ read_digits (m * 10 + d) s
unfolding read_digits
read_digit m d s h =
    let digit : is_digit (b'0' + d) ≡ true = ground arith in
    let value : b'0' + d - b'0' ≡ d = omega arith in rw (digit, value)

digits_loop-read_digits :
    (fuel n : ℕ) (s : Str) → n < fuel → read_digits 0 (digits_loop fuel n s) ≡ read_digits n s
unfolding digits_loop
digits_loop-read_digits zero n s h = absurd (omega arith)
digits_loop-read_digits (suc fuel) n s h = elim (Bool-cases (ltb n 10)) [
  | inl small ↦
      let last : n % 10 ≡ n = ground arith in
      let same : 0 * 10 + n ≡ n = omega arith in
      rw small (rw last (read_digit 0 n s (ground arith) ∙ (rw same)))
  | inr large ↦
      let same : n / 10 * 10 + n % 10 ≡ n = omega arith in
      rw large (
        digits_loop-read_digits fuel (n / 10) ((b'0' + n % 10) ∷ s) (ground arith)
        ∙ read_digit (n / 10) (n % 10) s (omega arith)
        ∙ (rw same))
]

-- The text is not empty, begins with a digit, and is made of digits and what follows it.
digits_loop-head :
    (fuel n : ℕ) (s : Str)
    → n < fuel
    → (c : ℕ) × (r : Str) × (digits_loop fuel n s ≡ c ∷ r) × (is_digit c ≡ true)
unfolding digits_loop is_digit
digits_loop-head zero n s h = absurd (omega arith)
digits_loop-head (suc fuel) n s h = elim (Bool-cases (ltb n 10)) [
  | inl small ↦ (b'0' + n % 10, s, rw small, ground arith)
  | inr large ↦
      let (c, r, e, d) = digits_loop-head fuel (n / 10) ((b'0' + n % 10) ∷ s) (ground arith) in
      (c, r, rw large e, d)
]

read_number_digits : (fuel n : ℕ) → n < fuel → read_number (digits_loop fuel n []) ≡ some n
unfolding read_number
read_number_digits fuel n h =
    let (c, r, e, d) = digits_loop-head fuel n [] h in
    let value : read_digits 0 (c ∷ r) ≡ some n = rw e at (digits_loop-read_digits fuel n [] h) in
    rw e value

atoi_unsigned :
    (c : ℕ) (r : Str) → is_digit c ≡ true → atoi (c ∷ r) ≡ positive (read_number (c ∷ r))
unfolding atoi is_digit
atoi_unsigned c r d =
    let plus : (c == b'+') ≡ false = ground arith in
    let minus : (c == b'-') ≡ false = ground arith in rw (plus, minus)

atoi_minus : (s : Str) → atoi (b'-' ∷ s) ≡ negated (read_number s)
unfolding atoi
atoi_minus s = refl

-- `Atoi` reads back every `int` that `%d` prints.
pub atoi-format_int : (z : ℤ) → IsInt z → atoi (format_int z) ≡ ok z
unfolding format_int
atoi-format_int (pos n) h =
    let (c, r, e, d) = digits_loop-head (suc n) n [] (omega arith) in
    let value : read_number (c ∷ r) ≡ some n =
      rw e at (read_number_digits (suc n) n (omega arith)) in
    rw e (atoi_unsigned c r d ∙ ap positive value ∙ in_range n h)
  where
    in_range : (m : ℕ) → m < half_word → positive (some m) ≡ ok (pos m)
    in_range m k = unfold positive in ground arith
atoi-format_int (negsuc n) h =
    atoi_minus (digits_loop (suc (suc n)) (suc n) [])
    ∙ ap negated (read_number_digits (suc (suc n)) (suc n) (omega arith))
    ∙ in_range n h
  where
    in_range : (m : ℕ) → m < half_word → negated (some (suc m)) ≡ ok (negsuc m)
    in_range m k = unfold negated in ground arith

-- The text has no space.
abbrev pub IsWord : Str → Type 0
IsWord = All (λ c. is_space c ≡ false)

digits_loop-IsWord : (fuel n : ℕ) (s : Str) → IsWord s → IsWord (digits_loop fuel n s)
unfolding digits_loop is_space
digits_loop-IsWord zero n s h = h
digits_loop-IsWord (suc fuel) n s h = elim (Bool-cases (ltb n 10)) [
  | inl small ↦ rw small (ground arith, h)
  | inr large ↦ rw large (digits_loop-IsWord fuel (n / 10) ((b'0' + n % 10) ∷ s) (ground arith, h))
]

-- What `%d` prints is a word.
pub format_int-IsWord : (z : ℤ) → IsWord (format_int z)
unfolding format_int is_space
format_int-IsWord (pos n) = digits_loop-IsWord (suc n) n [] tt
format_int-IsWord (negsuc n) = (refl, digits_loop-IsWord (suc (suc n)) (suc n) [] tt)

-- What `%d` prints is not empty.
pub format_int-ne_nil : (z : ℤ) → format_int z ≢ []
unfolding format_int
format_int-ne_nil (pos n) h =
    let (c, r, e, d) = digits_loop-head (suc n) n [] (omega arith) in ground (arith, e, h)
format_int-ne_nil (negsuc n) h = ground (arith, h)
