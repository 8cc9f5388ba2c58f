-- ===== src/Config/Parse.antt =====
-- Which lines of a configuration are read, and the group that is made of them.
use cs425_mps.Base.{
  ◌≢◌, length, ℕ, zero, suc, ◌+◌, ◌≡◌, refl, ap, true, false, none, List, [], ◌∷◌, leb, arith, take,
}
use cs425_mps.Base.Int.{ℤ, pos, negsuc}
use cs425_mps.Base.Text.{Str}
use cs425_mps.Base.Result.{ok}
use cs425_mps.Strings.{fields, trim_space, atoi}
use cs425_mps.Config.{
  ConfigItem, add_item, config_line, in_count, config_loop, scan_items, config_items_parser,
}

-- What the lines are read as.
abbrev items_of : List Str → List ConfigItem
items_of [] = []
items_of (line ∷ lines) = add_item (config_line (fields (trim_space line))) (items_of lines)

-- The items of the lines: one for each line of three fields, which are its id, host and port.
pub data AreItems : List Str → List ConfigItem → Type 0 where
  no_line : AreItems [] []
  item_line :
      {line id host port : Str} {lines : List Str} {items : List ConfigItem}
      → fields (trim_space line) ≡ id ∷ host ∷ port ∷ []
      → AreItems lines items
      → AreItems
          (line ∷ lines)
          (record { node_id = id; node_host = host; node_port = port } ∷ items)
  other_line :
      {line : Str} {lines : List Str} {items : List ConfigItem}
      → length (fields (trim_space line)) ≢ 3
      → AreItems lines items
      → AreItems (line ∷ lines) items

add_line :
    (line : Str) (lines : List Str) (items : List ConfigItem) (words : List Str)
    → fields (trim_space line) ≡ words
    → AreItems lines items
    → AreItems (line ∷ lines) (add_item (config_line words) items)
unfolding config_line
add_line line lines items [] e h = other_line (λ three. ground (arith, e, three)) h
add_line line lines items (a ∷ []) e h = other_line (λ three. ground (arith, e, three)) h
add_line line lines items (a ∷ b ∷ []) e h = other_line (λ three. ground (arith, e, three)) h
add_line line lines items (a ∷ b ∷ c ∷ []) e h = item_line e h
add_line line lines items (a ∷ b ∷ c ∷ d ∷ words) e h =
    other_line
      (λ three.
        let counted : length (fields (trim_space line)) ≡ suc (suc (suc (suc (length words)))) =
          ap length e in
        omega (arith, counted, three))
      h

items_of-AreItems : (lines : List Str) → AreItems lines (items_of lines)
items_of-AreItems [] = no_line
items_of-AreItems (line ∷ lines) =
    add_line line lines (items_of lines) (fields (trim_space line)) refl (items_of-AreItems lines)

config_loop-take :
    (left i : ℕ) (lines : List Str) (count : ℕ)
    → count + 1 ≡ i + left
    → config_loop (pos count) i lines ≡ items_of (take left lines)
unfolding config_loop in_count
config_loop-take zero i [] count e = refl
config_loop-take (suc left) i [] count e = refl
config_loop-take zero i (line ∷ lines) count e =
    let done : leb i count ≡ false = ground arith in rw (done, config_loop) refl
config_loop-take (suc left) i (line ∷ lines) count e =
    let open_yet : leb i count ≡ true = ground arith in
    let rest = config_loop-take left (i + 1) lines count (omega arith) in
    rw (open_yet, config_loop) (ap (add_item (config_line (fields (trim_space line)))) rest)

config_loop-negative : (n i : ℕ) (lines : List Str) → config_loop (negsuc n) i lines ≡ []
unfolding config_loop in_count
config_loop-negative n i [] = refl
config_loop-negative n i (line ∷ lines) = refl

-- How many lines the loop looks at: one more than the count.
abbrev pub line_limit : ℤ → ℕ
line_limit (pos count) = count + 1
line_limit (negsuc n) = 0

config_loop-items_of :
    (count : ℤ) (lines : List Str)
    → config_loop count 0 lines ≡ items_of (take (line_limit count) lines)
config_loop-items_of (pos n) lines = config_loop-take (n + 1) 0 lines n (omega arith)
config_loop-items_of (negsuc n) lines = config_loop-negative n 0 lines

-- On an open file whose first line is a number, and that is read without error, the parser
-- returns, among the next count + 1 lines, one item for each line with exactly three fields, which
-- are its id, host and port, in order, and none for a negative count.
pub config_items_parser_lem :
    (first_line : Str) (rest : List Str) (count : ℤ)
    → atoi (trim_space first_line) ≡ ok count
    → (items : List ConfigItem) × AreItems (take (line_limit count) rest) items
      × (config_items_parser (ok (first_line ∷ rest)) none ≡ ok items)
unfolding config_items_parser scan_items
config_items_parser_lem first_line rest count e =
    let lines = take (line_limit count) rest in
    (
      items_of lines,
      items_of-AreItems lines,
      rw (e, config_items_parser, scan_items) (ap ok (config_loop-items_of count rest)),
    )
