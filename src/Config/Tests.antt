-- ===== src/Config/Tests.antt =====
-- A configuration for one node, with a line too many.
use cs425_mps.Base.{◌≡◌, refl, none, List, [], ◌∷◌, take}
use cs425_mps.Base.Int.{pos}
use cs425_mps.Base.Text.{Str, codes}
use cs425_mps.Base.Result.{ok}
use cs425_mps.Strings.{
  atoi, trim_space, trim_left, fields, fields_loop, flush, is_space, read_number, read_digits,
  is_digit, positive,
}
use cs425_mps.Config.{
  ConfigItem, config_line, config_loop, in_count, scan_items, config_items_parser,
}
use cs425_mps.Config.Parse.{AreItems, config_items_parser_lem}

abbrev lines : List Str
lines = codes "n2 host2 1234" ∷ codes "n3 host3 1234" ∷ codes "n4 host4 1234" ∷ []

one_node : atoi (trim_space (codes " 1")) ≡ ok (pos 1)
unfolding atoi trim_space trim_left is_space read_number read_digits is_digit positive
one_node = refl

config_items_parser_lem_example :
    (items : List ConfigItem) × AreItems (take 2 lines) items
    × (config_items_parser (ok (codes " 1" ∷ lines)) none ≡ ok items)
config_items_parser_lem_example = config_items_parser_lem (codes " 1") lines (pos 1) one_node

-- Two nodes are read, though the count is 1.
two_read :
    config_items_parser (ok (codes " 1" ∷ lines)) none
    ≡ ok (
        record { node_id = codes "n2"; node_host = codes "host2"; node_port = codes "1234" }
        ∷ record { node_id = codes "n3"; node_host = codes "host3"; node_port = codes "1234" }
        ∷ [])
unfolding config_items_parser scan_items config_loop in_count config_line atoi read_number
    read_digits is_digit positive trim_space trim_left is_space fields fields_loop flush
two_read = refl
