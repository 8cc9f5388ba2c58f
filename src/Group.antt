-- ===== src/Group.antt =====
-- lib/mp1/multicast/group.go and group_builder.go: the members of a group, and how it is built up.
use cs425_mps.Base.{List, [], ◌∷◌, ◌++◌}
use cs425_mps.Base.Text.{Str}

pub record Node : Type 0 where
  pub id : Str
  pub addr : Str

-- The fields of `Group` that are data; its layers are the parts of a node.
pub record Group : Type 0 where
  pub members : List Node
  pub self_node_id : Str
  pub self_node_addr : Str

pub record GroupBuilder : Type 0 where
  pub self_node_id : Str
  pub self_node_addr : Str
  pub members : List Node

unfoldable pub new_group_builder : GroupBuilder
new_group_builder = record { self_node_id = []; self_node_addr = []; members = [] }

unfoldable pub with_self_node_id : GroupBuilder → Str → GroupBuilder
with_self_node_id g self_node_id = record g { self_node_id = self_node_id }

unfoldable pub with_self_node_addr : GroupBuilder → Str → GroupBuilder
with_self_node_addr g self_node_addr = record g { self_node_addr = self_node_addr }

unfoldable pub add_member : GroupBuilder → Str → Str → GroupBuilder
add_member g id addr = record g { members = g.members ++ record { id = id; addr = addr } ∷ [] }

unfoldable pub with_members : GroupBuilder → List Node → GroupBuilder
with_members g members = record g { members = members }

unfoldable pub build : GroupBuilder → Group
build g = record {
  self_node_id = g.self_node_id;
  self_node_addr = g.self_node_addr;
  members = g.members;
}
