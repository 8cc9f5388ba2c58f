-- ===== src/Config.antt =====
-- lib/mp1/config/config.go, and ParsePort and ConstructGroup of cmd/mp1/root.go. The lines of the file,
-- and the error that ends the reading, are arguments.
pub mod Parse
mod Tests
use cs425_mps.Base.{
  ℕ, zero, suc, ◌+◌, Bool, true, false, Option, none, some, List, [], ◌∷◌, ◌++◌, map, leb, ◌==◌,
  if◌then◌else◌,
}
use cs425_mps.Base.Int.{ℤ, pos, negsuc, is_negative}
use cs425_mps.Base.Text.{Str, codes}
use cs425_mps.Base.Result.{Error, Result, ok, err, ◌>>=◌, bad_port}
use cs425_mps.Strings.{fields, trim_space, atoi}
use cs425_mps.Group.{
  Node, Group, new_group_builder, with_self_node_id, with_self_node_addr, with_members, add_member,
  build,
}

pub record ConfigItem : Type 0 where
  pub node_id : Str
  pub node_host : Str
  pub node_port : Str

-- A line with three fields.
unfoldable pub config_line : List Str → Option ConfigItem
config_line (id ∷ host ∷ port ∷ []) =
    some (record { node_id = id; node_host = host; node_port = port })
config_line _ = none

-- A line with another number of fields is skipped.
abbrev pub add_item : Option ConfigItem → List ConfigItem → List ConfigItem
add_item none more = more
add_item (some item) more = item ∷ more

-- `i <= count`, the test of the loop.
unfoldable pub in_count : ℕ → ℤ → Bool
in_count i (pos count) = leb i count
in_count i (negsuc n) = false

-- The loop over the lines after the first.
unfoldable pub config_loop : ℤ → ℕ → List Str → List ConfigItem
config_loop count i [] = []
config_loop count i (line ∷ rest) =
    let more = config_loop count (i + 1) rest in
    let items = add_item (config_line (fields (trim_space line))) more in
    if in_count i count then items else []

-- The part of the parser on an open file; `read_error` is `scanner.Err()`.
unfoldable pub scan_items : List Str → Option Error → Result (List ConfigItem)
scan_items [] read_error = elim read_error [ none ↦ ok [] | some e ↦ err e ]
scan_items (first_line ∷ rest) read_error = do
  count ← atoi (trim_space first_line)
  elim read_error [ none ↦ ok (config_loop count 0 rest) | some e ↦ err e ]

unfoldable pub config_items_parser : Result (List Str) → Option Error → Result (List ConfigItem)
config_items_parser opened read_error = do lines ← opened; scan_items lines read_error

-- `strconv.Atoi` and a test of the sign.
unfoldable pub parse_port : Str → Result ℤ
parse_port port_raw_str = elim (atoi port_raw_str) [
  | err e ↦ err bad_port
  | ok port ↦ if is_negative port then err bad_port else ok port
]

-- `net.JoinHostPort`: a host with a colon or a percent sign is put in brackets.
unfoldable pub needs_brackets : Str → Bool
needs_brackets [] = false
needs_brackets (c ∷ host) =
    if c == b':' then true else if c == b'%' then true else needs_brackets host

unfoldable pub join_host_port : Str → Str → Str
unfolding needs_brackets
join_host_port host port =
    if needs_brackets host then b'[' ∷ (host ++ (codes "]:" ++ port)) else host ++ (b':' ∷ port)

unfoldable pub config_members : List ConfigItem → List Node
config_members = map (λ (item : ConfigItem). record {
  id = item.node_id;
  addr = join_host_port item.node_host item.node_port;
})

unfoldable pub construct_group : Str → Str → Result (List ConfigItem) → Result Group
construct_group node_id node_port parsed = do
  items ← parsed
  let addr = join_host_port (codes "0.0.0.0") node_port
  let named = with_self_node_id new_group_builder node_id
  let placed = with_members (with_self_node_addr named addr) (config_members items)
  ok (build (add_member placed node_id addr))
