-- ===== src/Strings.antt =====
-- What the program uses of Go's packages strings, strconv and fmt, on texts of code points.
pub mod Number
pub mod Fields
use mathlib.Core.List.{reverse}
use cs425_mps.Base.{
  ℕ, zero, suc, ◌+◌, ◌-◌, ◌*◌, ◌/◌, ◌%◌, Bool, true, false, ◌&&◌, ◌||◌, Option, none, some, List,
  [], ◌∷◌, ◌++◌, ltb, leb, ◌==◌, if◌then◌else◌,
}
use cs425_mps.Base.Int.{ℤ, pos, negsuc, half_word}
use cs425_mps.Base.Text.{Str}
use cs425_mps.Base.Result.{Result, ok, err, bad_number}

-- `unicode.IsSpace`
unfoldable pub is_space : ℕ → Bool
is_space c =
    (leb 9 c && leb c 13)
    || c == 32
    || c == 0x85
    || c == 0xa0
    || c == 0x1680
    || (leb 0x2000 c && leb c 0x200a)
    || c == 0x2028
    || c == 0x2029
    || c == 0x202f
    || c == 0x205f
    || c == 0x3000

-- A field that has ended, unless it is empty.
unfoldable pub flush : Str → List Str → List Str
flush [] rest = rest
flush (c ∷ s) rest = (c ∷ s) ∷ rest

-- `field` is what has been read of the current field.
unfoldable pub fields_loop : Str → Str → List Str
unfolding is_space flush
fields_loop field [] = flush field []
fields_loop field (c ∷ s) =
    let ended = flush field (fields_loop [] s) in
    let goes_on = fields_loop (field ++ c ∷ []) s in if is_space c then ended else goes_on

-- `strings.Fields`
unfoldable pub fields : Str → List Str
unfolding fields_loop
fields s = fields_loop [] s

unfoldable pub trim_left : Str → Str
unfolding is_space
trim_left [] = []
trim_left (c ∷ s) = if is_space c then trim_left s else c ∷ s

-- `strings.TrimSpace`
unfoldable pub trim_space : Str → Str
unfolding trim_left
trim_space s = reverse (trim_left (reverse (trim_left s)))

unfoldable pub is_digit : ℕ → Bool
is_digit c = leb b'0' c && leb c b'9'

-- The digits of a number, after those that gave `n`.
unfoldable pub read_digits : ℕ → Str → Option ℕ
unfolding is_digit
read_digits n [] = some n
read_digits n (c ∷ s) = if is_digit c then read_digits (n * 10 + (c - b'0')) s else none

unfoldable pub positive : Option ℕ → Result ℤ
positive none = err bad_number
positive (some n) = if ltb n half_word then ok (pos n) else err bad_number

unfoldable pub negated : Option ℕ → Result ℤ
negated none = err bad_number
negated (some zero) = ok (pos 0)
negated (some (suc n)) = if ltb n half_word then ok (negsuc n) else err bad_number

unfoldable pub read_number : Str → Option ℕ
unfolding read_digits
read_number [] = none
read_number (c ∷ s) = read_digits 0 (c ∷ s)

-- `strconv.Atoi`: an optional sign and digits, for a number that fits an `int`.
unfoldable pub atoi : Str → Result ℤ
unfolding read_number positive negated
atoi [] = err bad_number
atoi (c ∷ s) =
    if c == b'+'
    then positive (read_number s)
    else if c == b'-'
    then negated (read_number s)
    else positive (read_number (c ∷ s))

-- The decimal digits of a number in front of a text. Fuel above the number is enough, since each
-- round divides by ten.
unfoldable pub digits_loop : ℕ → ℕ → Str → Str
digits_loop zero n rest = rest
digits_loop (suc fuel) n rest =
    let digits = (b'0' + n % 10) ∷ rest in
    let more = digits_loop fuel (n / 10) digits in if ltb n 10 then digits else more

-- `%d`.
unfoldable pub format_int : ℤ → Str
unfolding digits_loop
format_int (pos n) = digits_loop (suc n) n []
format_int (negsuc n) = b'-' ∷ digits_loop (suc (suc n)) (suc n) []
