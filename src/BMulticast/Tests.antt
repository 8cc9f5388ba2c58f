-- ===== src/BMulticast/Tests.antt =====
-- A group of two members, one of which is lost.
use cs425_mps.Base.{◌≡◌, refl, Bool, true, Option, some, none, List, [], ◌∷◌, ◌++◌}
use cs425_mps.Base.Text.{Str, codes, str_eq}
use cs425_mps.Base.Dict.{lookup}
use cs425_mps.Base.Run.{Returns}
use cs425_mps.Codec.{Codec, Bytes}
use cs425_mps.Codec.Prefixed.{prefixed, plain_bytes}
use cs425_mps.Client.{TcpClient}
use cs425_mps.Message.{BMsg, new_b_msg, encode_b_msg}
use cs425_mps.BMulticast.{BMulticast, multicast, pack}
use cs425_mps.BMulticast.Send.{IsMembers, Reaches, multicast_correct}

abbrev b_msg_codec : Codec BMsg
b_msg_codec =
    prefixed (λ m. (m.src_id, m.path, m.body))
      λ src_id path body. record { src_id = src_id; path = path; body = body }

abbrev client : Str → List Bool → Option TcpClient
client id writes =
    some (record { src_id = codes "n1"; dst_id = id; addr = id; connection = writes })

abbrev group : BMulticast
group = record {
  self_node_id = codes "n1";
  senders =
      (codes "n1", client (codes "n1") (true ∷ [])) ∷ (codes "n2", client (codes "n2") []) ∷ [];
  published = [];
  written = [];
}

group-IsMembers : IsMembers group.senders
unfolding lookup str_eq
group-IsMembers = (refl, (refl, tt))

abbrev packed : Bytes
packed = 2 ∷ (codes "n1" ++ (1 ∷ (codes "/" ++ (7 ∷ []))))

multicast_correct_example :
    Returns
      (λ r. Reaches [] group.senders packed group r.0 × (r.1 ≡ none))
      (multicast b_msg_codec plain_bytes group (codes "/") (7 ∷ []))
unfolding pack new_b_msg encode_b_msg
multicast_correct_example =
    multicast_correct b_msg_codec plain_bytes group (codes "/") (7 ∷ []) packed group-IsMembers refl
